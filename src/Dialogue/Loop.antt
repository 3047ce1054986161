-- ===== src/Dialogue/Loop.antt =====
-- multiplexer/dialogue.go: open, the tasks, the loop of handlePkt and fini, and the steps that they make together.
use geminio.Common.{
  ◌+◌, Bool, true, false, ◌&&◌, ◌≡◌, List, [], ◌∷◌, ◌++◌, Option, none, some, Outcome, ok, panic,
  ◌>>=◌, if◌then◌else◌,
}
use geminio.Packet.{Packet}
use geminio.Packet.Ids.{packet_id, session_layer, session_above}
use geminio.Packet.Factory.{new_session_packet, set_session_id}
use geminio.Dialogue.{
  State, et_fini, transitions, Fsm, IoRet, io_closed, io_err, Task, send_in, close_async, hub_close,
  Moment, Dialogue,
}
use geminio.Dialogue.Closing.{call_hub, add_sync, close}
use geminio.Dialogue.Handlers.{gives_up, fail, handle_in, handle_out}

-- sendToWriteIn, with whether it returned io.EOF.
unfoldable pub send_to_write_in : Moment → Packet → Dialogue → Bool × Dialogue
send_to_write_in m p dg =
    if gives_up m dg then (true, dg) else (false, record dg { write_in = dg.write_in ++ p ∷ [] })

-- open, up to its wait for the sync.
unfoldable pub open_dialogue : Moment → Dialogue → Outcome (Bool × Dialogue)
unfolding send_to_write_in packet_id
open_dialogue m dg =
    add_sync (new_session_packet m.unix dg.ids dg.negotiating_id dg.peers_call dg.meta dg.peer) dg
    >>= λ (p, dg). ok (send_to_write_in m p dg)

-- closeIO, which the wait calls on a timeout and writePkt after a failed write.
unfoldable pub close_io : Dialogue → Dialogue
close_io dg = record dg { cancelled = true }

-- Write and WriteWait. The type assertion panics on a packet of the connection layer.
unfoldable pub write : Moment → Packet → Dialogue → Outcome (Bool × Dialogue)
unfolding send_to_write_in
write m p dg =
    if session_above p then ok (send_to_write_in m (set_session_id dg.dialogue_id p) dg) else panic

unfoldable pub run_task : Moment → Task → Dialogue → Outcome Dialogue
unfolding send_to_write_in close
run_task m (send_in p) dg = ok (send_to_write_in m p dg).1
run_task m close_async dg = close m dg

-- What is left in writeInCh, for failedCh.
unfoldable pub drain : List Packet → Dialogue → Dialogue
drain [] dg = record dg { write_in = [] }
drain (p ∷ ps) dg = drain ps (if session_layer p then dg else fail p dg)

module _ (fsm : Fsm) where
  unfoldable pub fini_dialogue : Dialogue → Dialogue
  fini_dialogue dg =
      let last : State = elim (fsm.emit_event transitions et_fini dg.state) [
        | none ↦ dg.state
        | some s ↦ s
      ] in
      if dg.finished
      then dg
      else record (call_hub hub_close dg) { state = last; finished = true; cancelled = true }

  -- The label FINI of handlePkt.
  unfoldable pub end_loop : Moment → Dialogue → Dialogue
  unfolding fini_dialogue
  end_loop m dg =
      let calls = if m.has_delegate && dg.onlined then dg.offline_calls + 1 else dg.offline_calls in
      fini_dialogue (record dg { offline_calls = calls })

  -- The `switch ret` of the loop.
  unfoldable pub after_handler : Moment → IoRet × Dialogue → Dialogue
  unfolding end_loop
  after_handler m (io_closed, dg) = end_loop m dg
  after_handler m (io_err, dg) = end_loop m dg
  after_handler m (ret, dg) = dg

  -- The three branches of the loop's `select`; `none` if a branch is not ready.
  -- A write may panic: the refusal of a session draws an identifier.
  unfoldable pub on_done : Moment → Dialogue → Option Dialogue
  unfolding end_loop
  on_done m dg = if dg.cancelled then some (end_loop m (drain dg.write_in dg)) else none

  unfoldable pub on_read_in : Moment → Dialogue → Option Dialogue
  unfolding after_handler handle_in
  on_read_in m dg = elim dg.read_in [
    | [] ↦ none
    | p ∷ ps ↦ some (after_handler m (handle_in fsm m p (record dg { read_in = ps })))
  ]

  unfoldable pub on_write_in : Moment → Dialogue → Option (Outcome Dialogue)
  unfolding after_handler handle_out
  on_write_in m dg = elim dg.write_in [
    | [] ↦ none
    | p ∷ ps ↦
        some (handle_out fsm m p (record dg { write_in = ps }) >>= λ x. ok (after_handler m x))
  ]

  -- One step of a dialogue: of its loop, of a task, or of a caller. `write_out` keeps what writePkt
  -- has taken; a failure of it is a `timed_out`.
  pub data Step : Dialogue → Dialogue → Type 0 where
    done : {a b : Dialogue} (m : Moment) → a.finished ≡ false → on_done m a ≡ some b → Step a b
    read : {a b : Dialogue} (m : Moment) → a.finished ≡ false → on_read_in m a ≡ some b → Step a b
    wrote :
        {a b : Dialogue} (m : Moment)
        → a.finished ≡ false
        → on_write_in m a ≡ some (ok b)
        → Step a b
    ran :
        {a b : Dialogue} (m : Moment) (before : List Task) (t : Task) (after : List Task)
        → a.tasks ≡ before ++ t ∷ after
        → run_task m t (record a { tasks = before ++ after }) ≡ ok b
        → Step a b
    opened : {a b : Dialogue} (m : Moment) (x : Bool) → open_dialogue m a ≡ ok (x, b) → Step a b
    closed : {a b : Dialogue} (m : Moment) → close m a ≡ ok b → Step a b
    timed_out : {a : Dialogue} → Step a (close_io a)
    arrived : {a : Dialogue} (p : Packet) → Step a (record a { read_in = a.read_in ++ p ∷ [] })
    written :
        {a b : Dialogue} (m : Moment) (p : Packet) (x : Bool)
        → session_layer p ≡ false
        → write m p a ≡ ok (x, b)
        → Step a b

  pub data Steps : Dialogue → Dialogue → Type 0 where
    stay : {a : Dialogue} → Steps a a
    step : {a c : Dialogue} (b : Dialogue) → Steps a b → Step b c → Steps a c
