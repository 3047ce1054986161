-- ===== src/Dialogue/Examples.antt =====
-- A machine that looks its transitions up, and runs of dialogues with it.
use geminio.Common.{ℕ, ◌+◌, ◌*◌, ◌^◌, ◌≡◌, refl, true, false, [], ◌∷◌, some, none, ok, arith}
use geminio.Machine.{registered}
use geminio.IdCounter.{IdCounter, inc, get_id}
use geminio.Packet.{Packet, dismiss, type_dismiss}
use geminio.Packet.Ids.{packet_id}
use geminio.Packet.Factory.{header, at_least_once, session_data, new_dismiss_packet, with_new_id}
use geminio.Dialogue.{
  hub_close, sessioned, fini, send_in, hub_add, Fsm, event_code, state_code, Moment, Dialogue,
}
use geminio.Dialogue.Offline.{EndsOnce, Steps-EndsOnce}
use geminio.Dialogue.Dismissals.{ending}
use geminio.Dialogue.Closing.{close, dismiss_once}
use geminio.Dialogue.Loop.{
  done, timed_out, close_io, on_done, drain, end_loop, fini_dialogue, Steps, stay, step, closed,
  ran, run_task, send_to_write_in,
}
use geminio.Dialogue.Once.{IsSingle, Steps-IsSingle}
use geminio.Dialogue.Opening.{new_dialogue, handshake}
use geminio.Dialogue.Handshake.{AreOpen, IsOpenAlone, handshake_accepted, handshake_refused}

abbrev table_fsm : Fsm
table_fsm = record {
  emit_event = registered event_code state_code;
  emit_event_registered = λ t e s d. refl;
}

abbrev counting : ℕ → IdCounter
counting n = record { counter = n; once = false; ids = some []; mode = inc }

abbrev at : Moment
at = record { unix = 2; takes_done = true; has_delegate = false; online_error = none }

abbrev bt : Moment
bt = record { unix = 2; takes_done = true; has_delegate = true; online_error = none }

abbrev opener : Dialogue
opener = new_dialogue (counting 6) (104 ∷ []) [] 3 true none

abbrev other : Dialogue
other = new_dialogue (counting 0) [] [] 9 false none

get_id-counting : get_id 2 (counting 6) ≡ (ok (2 * 2 ^ 32 + 7), counting 7)
unfolding get_id
get_id-counting = refl

handshake_accepted_example :
    AreOpen (2 * 2 ^ 32 + 7) 9 (104 ∷ []) (handshake table_fsm at bt 18 18 opener other)
handshake_accepted_example =
    handshake_accepted table_fsm at bt 18 18 (2 * 2 ^ 32 + 7) (counting 7) (counting 6) (counting 0)
      (104 ∷ []) [] [] [] 3 9 true false none none get_id-counting refl

abbrev unwilling : Moment
unwilling = record bt { online_error = some (33 ∷ []) }

get_id-other : get_id 2 (counting 0) ≡ (ok (2 * 2 ^ 32 + 1), counting 1)
unfolding get_id
get_id-other = refl

handshake_refused_example :
    IsOpenAlone
      (2 * 2 ^ 32 + 7)
      (2 * 2 ^ 32 + 1)
      9
      (33 ∷ [])
      (handshake table_fsm at unwilling 18 18 opener other)
handshake_refused_example =
    handshake_refused table_fsm at unwilling 18 18 (2 * 2 ^ 32 + 7) (2 * 2 ^ 32 + 1) (counting 7)
      (counting 1) (counting 6) (counting 0) (104 ∷ []) [] [] [] 3 9 true false none none (33 ∷ [])
      get_id-counting get_id-other refl

abbrev farewell : Packet
farewell = dismiss (header type_dismiss (2 * 2 ^ 32 + 7) at_least_once) 0 (session_data [] [] [])

abbrev closing_once : Dialogue
closing_once = record opener {
  ids = counting 7;
  closing = true;
  closewait = some (2 * 2 ^ 32 + 7);
  hub = hub_add (2 * 2 ^ 32 + 7) ∷ [];
  tasks = send_in farewell ∷ [];
}

close-opener : close at opener ≡ ok closing_once
unfolding close dismiss_once new_dialogue new_dismiss_packet with_new_id get_id packet_id
close-opener = refl

close-closing_once : close at closing_once ≡ ok closing_once
unfolding close
close-closing_once = refl

abbrev sending : Dialogue
sending = record closing_once { tasks = []; write_in = farewell ∷ [] }

run_task-farewell : run_task at (send_in farewell) (record closing_once { tasks = [] }) ≡ ok sending
unfolding run_task send_to_write_in new_dialogue
run_task-farewell = refl

-- Two calls of Close, and the one goroutine that they leave.
abbrev course : Steps table_fsm opener sending
course =
    step closing_once
      (step closing_once (step opener stay (closed at close-opener)) (closed at close-closing_once))
      (ran at [] (send_in farewell) [] refl run_task-farewell)

Steps-IsSingle_example : IsSingle sending
unfolding new_dialogue
Steps-IsSingle_example = Steps-IsSingle table_fsm opener sending course (omega arith)

abbrev connected : Dialogue
connected = record opener { state = sessioned; onlined = true }

abbrev ended : Dialogue
ended = record connected {
  state = fini;
  cancelled = true;
  finished = true;
  hub = hub_close ∷ [];
  offline_calls = 1;
}

on_done-connected : on_done table_fsm bt (close_io connected) ≡ some ended
unfolding on_done drain end_loop fini_dialogue close_io new_dialogue
on_done-connected = refl

finished-connected : (close_io connected).finished ≡ false
unfolding close_io new_dialogue
finished-connected = refl

Steps-EndsOnce_example : EndsOnce (ending ended)
unfolding new_dialogue
Steps-EndsOnce_example =
    Steps-EndsOnce table_fsm connected ended
      (step (close_io connected) (step connected stay timed_out)
        (done bt finished-connected on_done-connected))
      (omega arith, λ f. cc)
