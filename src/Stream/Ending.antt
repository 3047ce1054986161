-- ===== src/Stream/Ending.antt =====
-- Close, fini, and the steps of a stream.
use geminio.Common.{
  ℕ, zero, suc, true, false, ◌==◌, List, [], ◌∷◌, ◌++◌, get_elem?, some, Outcome, ok, ◌>>=◌, ◌≡◌,
  if◌then◌else◌,
}
use geminio.Packet.{Packet}
use geminio.Packet.Ids.{packet_id}
use geminio.Machine.{IoRet, io_err, io_discard}
use geminio.Stream.{
  HubCall, hub_closed_pipe, hub_short_buffer, hub_close, Call, Ran, Moment, Stream,
}
use geminio.Stream.Requests.{run_call}
use geminio.Stream.Handlers.{handle_in, handle_out}

unfoldable pub close : Stream → Stream
close s =
    if s.closing
    then s
    else if s.stream_ok
    then record s { closing = true; close_write = true }
    else record s { closing = true }

-- `sm.shub.Error(pkt.ID(), io.ErrClosedPipe)` for each packet.
unfoldable pub tell_closed : List Packet → List HubCall
unfolding packet_id
tell_closed [] = []
tell_closed (p ∷ ps) = hub_closed_pipe (packet_id p) ∷ tell_closed ps

-- `sm.finiOnce.Do(sm.fini)`
unfoldable pub fini : Stream → Stream
unfolding tell_closed
fini s = if s.finished then s else record s {
  finished = true;
  stream_ok = false;
  write_in = [];
  hub = s.hub ++ tell_closed s.write_in ++ hub_close ∷ [];
  channels_closed = true;
  end_finished = if s.dialogue_id == 1 then true else s.end_finished;
  end_deleted = s.end_deleted ++ s.dialogue_id ∷ [];
}

-- What readPkt does with a handler's result: IOErr ends its loop.
abbrev pub after_in : IoRet × Stream → Stream
after_in (r, s) = elim r [ io_err ↦ fini s | _ ↦ s ]

unfoldable pub on_read_in : Packet → Moment → Stream → Outcome Stream
unfolding handle_in fini
on_read_in p m s = handle_in p m s >>= λ x. ok (after_in x)

-- What handlePkt does with one: IODiscard is told to the hub, IOErr ends its loop.
abbrev pub after_out : Packet → IoRet × Stream → Stream
after_out p (r, s) = elim r [
  | io_discard ↦ record s { hub = s.hub ++ hub_short_buffer (packet_id p) ∷ [] }
  | io_err ↦ fini s
  | _ ↦ s
]

unfoldable pub on_write_in : Packet → Moment → Stream → Stream
unfolding handle_out fini packet_id
on_write_in p m s = after_out p (handle_out p m s)

-- The turn of one packet in the loop DRAIN, which goes on in `rest` or ends.
abbrev pub after_drained : Packet → (Stream → Stream) → IoRet × Stream → Stream
after_drained p rest (r, s) = elim r [
  | io_discard ↦ rest (record s { hub = s.hub ++ hub_short_buffer (packet_id p) ∷ [] })
  | io_err ↦ fini s
  | _ ↦ rest s
]

-- The packets of writeInCh are written, then the dialogue is closed. Each has its own moment.
unfoldable pub drain : (Packet → Moment) → List Packet → Stream → Stream
unfolding handle_out fini packet_id
drain m [] s = record s { dialogue_closes = s.dialogue_closes ++ s.written ∷ [] }
drain m (p ∷ ps) s = after_drained p (drain m ps) (handle_out p (m p) (record s { write_in = ps }))

-- `case <-closeWriteCh`
unfoldable pub on_close_write : (Packet → Moment) → Stream → Stream
unfolding drain
on_close_write m s = drain m s.write_in (record s { drained = true })

unfoldable pub remove : ℕ → List Call → List Call
remove i [] = []
remove zero (c ∷ cs) = cs
remove (suc i) (c ∷ cs) = c ∷ remove i cs

-- What can happen next: a packet read, one queued by a method of the stream, one written, the drain after
-- Close, a call that runs to its end, Close and fini. A loop that has ended may still take turns here, so
-- there are more orders than the code's.
pub data Step : Stream → Stream → Type 0 where
  reads : {a b : Stream} (p : Packet) (m : Moment) → on_read_in p m a ≡ ok b → Step a b
  queues :
      {a : Stream} (p : Packet)
      → a.finished ≡ false
      → Step a (record a { write_in = a.write_in ++ p ∷ [] })
  writes :
      {a : Stream} (p : Packet) (ps : List Packet) (m : Moment)
      → a.write_in ≡ p ∷ ps
      → Step a (on_write_in p m (record a { write_in = ps }))
  drains :
      {a : Stream} (m : Packet → Moment)
      → a.close_write ≡ true
      → a.drained ≡ false
      → Step a (on_close_write m a)
  runs :
      {a : Stream} (i : ℕ) (c : Call) (ran : Ran) (m : Moment)
      → get_elem? a.calls i ≡ some c
      → Step a (run_call c ran m (record a { calls = remove i a.calls }))
  closes : {a : Stream} → Step a (close a)
  finishes : {a : Stream} → Step a (fini a)

pub data Steps : Stream → Stream → Type 0 where
  stay : {a : Stream} → Steps a a
  step : {a c : Stream} (b : Stream) → Steps a b → Step b c → Steps a c
