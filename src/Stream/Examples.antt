-- ===== src/Stream/Examples.antt =====
-- Tests and witnesses of the streams.
use geminio.Common.{◌++◌, Option, All, ℕ, true, false, ◌≡◌, refl, [], ◌∷◌, none, some}
use geminio.Packet.{PacketHeader, MessageData, request, type_request}
use geminio.Packet.Factory.{header, at_least_once, message_data, new_response_packet}
use geminio.Machine.{io_success}
use geminio.Manager.Maps.{lookup}
use geminio.Stream.{Call, Ran, Moment, Stream, local_rpc, other_error}
use geminio.Stream.Requests.{
  set_up, rpc_handler_panic, deadline_of, handle_in_request_packet, handle_in_request_cancel_packet,
  run_call, choose_rpc,
}
use geminio.Stream.Answers.{
  IsSooner, returning, panicking, IsReleased, call_of, handle_in_request_packet-Answers,
  handle_in_request_packet-Refuses, refusal,
}
use geminio.Stream.Handlers.{handle_in}
use geminio.Stream.Ending.{Steps, stay, step, reads, runs, on_read_in, close, on_close_write}
use geminio.Stream.Drained.{is_queued, close-Drains}
use geminio.Stream.Pending.{IsPending, has_request}
use geminio.Stream.Released.{Steps-Releases}

-- A stream with the method "a".
abbrev serving : Stream
serving = record {
  dialogue_id = 1;
  rpc_cancels = [];
  contexts = [];
  calls = [];
  local_rpcs = (97 ∷ []) ∷ [];
  remote_rpcs = [];
  hijack = none;
  has_delegate = false;
  remote_registrations = [];
  stream_ok = true;
  closing = false;
  finished = false;
  close_write = false;
  channels_closed = false;
  message_ch = [];
  stream_ch = [];
  stream_ch_size = 32;
  drained = false;
  dialogue_closes = [];
  write_in = [];
  written = [];
  hub = [];
  end_finished = false;
  end_deleted = [];
}

abbrev asking : PacketHeader
asking = header type_request 9 at_least_once

abbrev question : MessageData
question = record (message_data (97 ∷ []) (1 ∷ []) []) { deadline = 50; context_deadline = 40 }

abbrev unknown : MessageData
unknown = message_data (98 ∷ []) (1 ∷ []) []

abbrev quiet : Moment
quiet = record { write_error = none; dialogue_done = false; takes_done = false }

asks : choose_rpc (97 ∷ []) serving ≡ some (local_rpc (97 ∷ []))
unfolding choose_rpc
asks = refl

asks_nothing : choose_rpc (98 ∷ []) serving ≡ none
unfolding choose_rpc
asks_nothing = refl

handle_in_request_packet-Answers_example :
    let a = (handle_in_request_packet asking question quiet serving).1 in
    let c = call_of asking question (local_rpc (97 ∷ [])) serving in
    ((handle_in_request_packet asking question quiet serving).0 ≡ io_success)
    × (a.calls ≡ c ∷ [])
    × ((t : Option ℕ) × IsSooner question t
        × (a.contexts ≡ record { deadline = t; cancelled = false } ∷ []))
    × (a.written ≡ [])
    × IsReleased 9 0 question (handle_in_request_cancel_packet asking a).1
    × IsReleased 9 0 question (run_call c (returning (5 ∷ []) none) quiet a)
    × ((run_call c (returning (5 ∷ []) none) quiet a).written
        ≡ new_response_packet 9 (97 ∷ []) (5 ∷ []) none ∷ [])
    × IsReleased 9 0 question (run_call c (panicking (5 ∷ []) none (120 ∷ [])) quiet a)
    × ((run_call c (panicking (5 ∷ []) none (120 ∷ [])) quiet a).written
        ≡ new_response_packet 9 (97 ∷ []) (5 ∷ []) (some (rpc_handler_panic ++ 120 ∷ [])) ∷ [])
handle_in_request_packet-Answers_example =
    handle_in_request_packet-Answers asking question (local_rpc (97 ∷ [])) quiet serving (5 ∷ [])
      none (120 ∷ []) quiet asks refl

-- Its deadlines are 50 and 40.
set_up-question :
    (set_up 9 question serving).contexts ≡ record { deadline = some 40; cancelled = false } ∷ []
unfolding set_up deadline_of
set_up-question = refl

handle_in_request_packet-Refuses_example :
    IsReleased 9 0 unknown (handle_in_request_packet asking unknown quiet serving).1
    × ((handle_in_request_packet asking unknown quiet serving).1.calls ≡ [])
    × ((handle_in_request_packet asking unknown quiet serving).0 ≡ io_success)
    × ((handle_in_request_packet asking unknown quiet serving).1.written
        ≡ refusal asking unknown ∷ [])
handle_in_request_packet-Refuses_example =
    handle_in_request_packet-Refuses asking unknown quiet serving asks_nothing

-- The stream after the request, and after its call.
abbrev busy : Stream
busy = (handle_in_request_packet asking question quiet serving).1

abbrev answering : Call
answering = call_of asking question (local_rpc (97 ∷ [])) serving

abbrev answered : Stream
answered =
    run_call answering (panicking (5 ∷ []) none (120 ∷ [])) quiet (record busy { calls = [] })

serves : Steps serving answered
unfolding on_read_in handle_in handle_in_request_packet geminio.Stream.Ending.remove
serves =
    step busy (step serving stay (reads (request asking 1 question) quiet refl))
      (runs 0 answering (panicking (5 ∷ []) none (120 ∷ [])) quiet refl)

Steps-Releases_example :
    IsPending answered
    × ((id : ℕ) → has_request id answered.calls ≡ false → lookup id answered.rpc_cancels ≡ none)
Steps-Releases_example = Steps-Releases serving answered refl serves

-- Two packets are queued.
abbrev loaded : Stream
loaded = record serving { write_in = request asking 1 question ∷ request asking 1 unknown ∷ [] }

loaded_queued : All (λ p. is_queued p ≡ true) loaded.write_in
unfolding is_queued
loaded_queued = (refl, (refl, tt))

close-Drains_example :
    ((close loaded).close_write ≡ true)
    × ((on_close_write (λ p. quiet) (close loaded)).written ≡ loaded.write_in)
    × ((on_close_write (λ p. quiet) (close loaded)).write_in ≡ [])
    × ((on_close_write (λ p. quiet) (close loaded)).dialogue_closes ≡ loaded.write_in ∷ [])
close-Drains_example = close-Drains (λ p. quiet) loaded refl refl loaded_queued (λ p. refl)
