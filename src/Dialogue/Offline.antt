-- ===== src/Dialogue/Offline.antt =====
-- finiOnce and the delegate's DialogueOffline over any course of a dialogue.
use geminio.Common.{
  ◌>>=◌, ok-Gives, bind-Gives, ok-injective, ℕ, ◌≤◌, ◌≡◌, refl, arith, Bool, true, false, List, [],
  ◌∷◌, ◌++◌, Bool-cases, List-cases, inl, inr, if◌then◌else◌, ok, ap, subst, sym, Outcome-cases,
  ◌∙◌,
}
use geminio.IdCounter.{get_id}
use geminio.Packet.{Packet}
use geminio.Packet.Ids.{session_above, session_layer}
use geminio.Packet.Factory.{set_session_id, new_session_packet, with_new_id}
use geminio.Dialogue.{
  Fsm, IoRet, io_closed, io_err, io_success, io_data, io_reconnect, io_new, io_new_active,
  io_new_passive, io_closed_active, io_closed_passive, io_exit, io_discard, Task, send_in,
  close_async, Moment, Dialogue,
}
use geminio.Dialogue.Handlers.{fail, handle_in, handle_out}
use geminio.Dialogue.Closing.{close}
use geminio.Dialogue.Loop.{
  Steps, Step, stay, step, done, read, wrote, ran, opened, closed, timed_out, arrived, written,
  drain, fini_dialogue, end_loop, after_handler, on_done, on_read_in, on_write_in, run_task,
  send_to_write_in, open_dialogue, write, close_io,
}
use geminio.Dialogue.Dismissals.{is_dismissal, Sends, close-Sends, ending, fail-Adds}
use geminio.Dialogue.Single.{handle_in-Adds, handle_out-Sends}

-- No call of DialogueOffline before fini and at most one after it, and fini has cancelled.
abbrev pub EndsOnce : Bool × Bool × ℕ → Type 0
EndsOnce (finished, cancelled, calls) =
    (calls ≤ (if finished then 1 else 0)) × (finished ≡ true → cancelled ≡ true)

moved : (a b : Dialogue) → ending b ≡ ending a → EndsOnce (ending a) → EndsOnce (ending b)
moved a b e s = subst EndsOnce (sym e) s

drain-ending : (ps : List Packet) (dg : Dialogue) → ending (drain ps dg) ≡ ending dg
unfolding drain
drain-ending [] dg = refl
drain-ending (p ∷ ps) dg = elim (Bool-cases (session_layer p)) [
  | inl q ↦ rw (q, drain) (drain-ending ps dg)
  | inr q ↦
      let same : ending (fail p dg) ≡ ending dg = ap (λ k. k.1) (fail-Adds p dg).1 in
      let rest : ending (drain ps (fail p dg)) ≡ ending dg = drain-ending ps (fail p dg) ∙ same in
      rw (q, drain) rest
]

send_to_write_in-ending :
    (m : Moment) (p : Packet) (dg : Dialogue) → ending (send_to_write_in m p dg).1 ≡ ending dg
unfolding send_to_write_in
send_to_write_in-ending m p dg = ground arith

send_to_write_in-eq :
    (m : Moment) (p : Packet) (a b : Dialogue) (x : Bool)
    → send_to_write_in m p a ≡ (x, b)
    → ending b ≡ ending a
send_to_write_in-eq m p a b x e = rw (← ap (λ z. z.1) e) (send_to_write_in-ending m p a)

close-ending : (m : Moment) (a b : Dialogue) → close m a ≡ ok b → ending b ≡ ending a
close-ending m a b e = (ok-Gives (Sends 0 a) (close m a) b (close-Sends m a) e).1

open_dialogue-ending :
    (m : Moment) (a b : Dialogue) (x : Bool) → open_dialogue m a ≡ ok (x, b) → ending b ≡ ending a
unfolding open_dialogue new_session_packet with_new_id
open_dialogue-ending m a b x e = elim (Outcome-cases (get_id m.unix a.ids).0) [
  | inl (i, q) ↦ send_to_write_in-eq m _ _ b x (ok-injective (rw q at e))
  | inr (inl (x, q)) ↦ cc (rw q at e)
  | inr (inr q) ↦ cc (rw q at e)
]

run_task-ending :
    (m : Moment) (t : Task) (a b : Dialogue) → run_task m t a ≡ ok b → ending b ≡ ending a
unfolding run_task
run_task-ending m (send_in p) a b e = rw (← ok-injective e) (send_to_write_in-ending m p a)
run_task-ending m close_async a b e = close-ending m a b e

module _ (fsm : Fsm) where
  end_loop-EndsOnce :
      (m : Moment) (dg : Dialogue)
      → dg.finished ≡ false
      → EndsOnce (ending dg)
      → EndsOnce (ending (end_loop fsm m dg))
  unfolding end_loop fini_dialogue
  end_loop-EndsOnce m dg f s =
      let unseen : dg.offline_calls ≤ 0 = rw f at s.0 in
      rw (f, end_loop, fini_dialogue) (ground (arith, unseen), λ g. refl)

  after_handler-EndsOnce :
      (m : Moment) (x : IoRet × Dialogue)
      → x.1.finished ≡ false
      → EndsOnce (ending x.1)
      → EndsOnce (ending (after_handler fsm m x))
  unfolding after_handler
  after_handler-EndsOnce m (io_closed, dg) f s = end_loop-EndsOnce m dg f s
  after_handler-EndsOnce m (io_err, dg) f s = end_loop-EndsOnce m dg f s
  after_handler-EndsOnce m (io_success, dg) f s = s
  after_handler-EndsOnce m (io_data, dg) f s = s
  after_handler-EndsOnce m (io_reconnect, dg) f s = s
  after_handler-EndsOnce m (io_new, dg) f s = s
  after_handler-EndsOnce m (io_new_active, dg) f s = s
  after_handler-EndsOnce m (io_new_passive, dg) f s = s
  after_handler-EndsOnce m (io_closed_active, dg) f s = s
  after_handler-EndsOnce m (io_closed_passive, dg) f s = s
  after_handler-EndsOnce m (io_exit, dg) f s = s
  after_handler-EndsOnce m (io_discard, dg) f s = s

  -- A handler's result on a dialogue like `a`, after the switch of the loop.
  handled :
      (m : Moment) (x : IoRet × Dialogue) (a : Dialogue)
      → a.finished ≡ false
      → ending x.1 ≡ ending a
      → EndsOnce (ending a)
      → EndsOnce (ending (after_handler fsm m x))
  handled m x a f same s = after_handler-EndsOnce m x (ap (λ k. k.0) same ∙ f) (moved a x.1 same s)

  Step-EndsOnce : (a b : Dialogue) → Step fsm a b → EndsOnce (ending a) → EndsOnce (ending b)
  unfolding close_io write on_done on_read_in on_write_in
  Step-EndsOnce a b (done m f e) s = elim (Bool-cases a.cancelled) [
    | inr q ↦ cc (rw q at e)
    | inl q ↦
        let same : end_loop fsm m (drain a.write_in a) ≡ b = cc (rw q at e) in
        let k = drain-ending a.write_in a in
        rw (← same) (
          end_loop-EndsOnce m (drain a.write_in a) (ap (λ k. k.0) k ∙ f)
            (moved a (drain a.write_in a) k s))
  ]
  Step-EndsOnce a b (read m f e) s = elim (List-cases a.read_in) [
    | inl q ↦ cc (rw q at e)
    | inr (p, ps, q) ↦
        let x = handle_in fsm m p (record a { read_in = ps }) in
        let same : after_handler fsm m x ≡ b = cc (rw q at e) in
        let kept_ending = ap (λ k. k.1) (handle_in-Adds fsm m p (record a { read_in = ps })).1 in
        rw (← same) (handled m x a f kept_ending s)
  ]
  Step-EndsOnce a b (wrote m f e) s = elim (List-cases a.write_in) [
    | inl q ↦ cc (rw q at e)
    | inr (p, ps, q) ↦
        let c = record a { write_in = ps } in
        let o = handle_out fsm m p c >>= λ x. ok (after_handler fsm m x) in
        let same : o ≡ ok b = cc (rw q at e) in
        ok-Gives (λ d. EndsOnce (ending d)) o b
          (bind-Gives (λ x. Sends (is_dismissal p) c x.1) (λ d. EndsOnce (ending d))
            (handle_out fsm m p c) _ (handle_out-Sends fsm m p c) (λ x j. handled m x a f j.1 s))
          same
  ]
  Step-EndsOnce a b (ran m before t after q e) s =
      moved a b (run_task-ending m t (record a { tasks = before ++ after }) b e) s
  Step-EndsOnce a b (opened m x e) s = moved a b (open_dialogue-ending m a b x e) s
  Step-EndsOnce a b (closed m e) s = moved a b (close-ending m a b e) s
  Step-EndsOnce a b timed_out s = (s.0, λ f. refl)
  Step-EndsOnce a b (arrived p) s = s
  Step-EndsOnce a b (written m p x l e) s = elim (Bool-cases (session_above p)) [
    | inr q ↦ cc (rw q at e)
    | inl q ↦
        let sent = set_session_id a.dialogue_id p in
        moved a b (send_to_write_in-eq m sent a b x (ok-injective (rw q at e))) s
  ]

  -- Every course of steps keeps this: the delegate's DialogueOffline has not been called before fini
  -- has run and at most once after it, and a dialogue whose fini has run is cancelled.
  pub Steps-EndsOnce : (a b : Dialogue) → Steps fsm a b → EndsOnce (ending a) → EndsOnce (ending b)
  Steps-EndsOnce a b stay s = s
  Steps-EndsOnce a b (step c rest last) s = Step-EndsOnce c b last (Steps-EndsOnce a c rest s)
