-- ===== src/Dialogue/Once.antt =====
-- closeOnce over any course of a dialogue.
use geminio.Common.{
  ◌>>=◌, ok-Gives, bind-Gives, ok-injective, ◌+◌, ℕ, ◌≤◌, ◌≡◌, refl, arith, subst, Bool, false,
  List, [], ◌∷◌, ◌++◌, some, List-cases, Bool-cases, inl, inr, if◌then◌else◌, ok, ap, Outcome-cases,
  ◌∙◌,
}
use geminio.IdCounter.{get_id}
use geminio.Packet.{
  Packet, type_session, conn, conn_ack, dis_conn, dis_conn_ack, heartbeat, heartbeat_ack, session,
  session_ack, dismiss, dismiss_ack, message, message_ack, stream, request, response,
  request_cancel, register, register_ack,
}
use geminio.Packet.Ids.{session_above, session_layer}
use geminio.Packet.Factory.{
  set_session_id, new_session_packet, with_new_id, header, at_least_once, session_data,
  new_session_flags,
}
use geminio.Dialogue.{
  hub_add, Fsm, IoRet, io_closed, io_err, io_success, io_data, io_reconnect, io_new,
  io_closed_active, io_closed_passive, io_exit, io_new_active, io_new_passive, io_discard, Task,
  send_in, close_async, Moment, Dialogue,
}
use geminio.Dialogue.Handlers.{fail, handle_in, handle_out}
use geminio.Dialogue.Closing.{call_hub, close}
use geminio.Dialogue.Loop.{
  Steps, Step, stay, step, done, read, wrote, ran, opened, closed, timed_out, arrived, written,
  drain, fini_dialogue, end_loop, after_handler, on_done, on_read_in, on_write_in, run_task,
  send_to_write_in, open_dialogue, write, close_io,
}
use geminio.Dialogue.Dismissals.{
  is_dismissal, Sends, close-Sends, count, count_tasks, dismissals, count-append,
  count_tasks-append, fail-Adds,
}
use geminio.Dialogue.Single.{handle_in-Adds, handle_out-Sends}

-- At most one dismissal, and none before closeOnce has run.
abbrev pub IsSingle : Dialogue → Type 0
IsSingle dg = dismissals dg ≤ (if dg.closing then 1 else 0)

-- `b` has at most `k` dismissals more than `a`, as far as closeOnce has run.
abbrev Grows : ℕ → Dialogue → Dialogue → Type 0
Grows k a b = (dismissals b ≤ dismissals a + k) × (b.closing ≡ a.closing)

Grows-IsSingle : (a b : Dialogue) → Grows 0 a b → IsSingle a → IsSingle b
Grows-IsSingle a b (le, same) s = rw same (omega (arith, le, s))

send_to_write_in-Grows :
    (m : Moment) (p : Packet) (dg : Dialogue)
    → Grows (is_dismissal p) dg (send_to_write_in m p dg).1
unfolding send_to_write_in
send_to_write_in-Grows m p dg = ground (arith, count-append dg.write_in (p ∷ []))

drain-Grows : (ps : List Packet) (dg : Dialogue) → Grows 0 dg (drain ps dg)
unfolding drain
drain-Grows [] dg = (omega arith, refl)
drain-Grows (p ∷ ps) dg = elim (Bool-cases (session_layer p)) [
  | inl q ↦ rw (q, drain) (drain-Grows ps dg)
  | inr q ↦
      let (le, same) = fail-Adds p dg in
      let (rest, kept) = drain-Grows ps (fail p dg) in
      rw (q, drain) (omega (arith, le, rest), kept ∙ ap (λ k. k.0) same)
]

module _ (fsm : Fsm) where
  end_loop-Grows : (m : Moment) (dg : Dialogue) → Grows 0 dg (end_loop fsm m dg)
  unfolding end_loop fini_dialogue
  end_loop-Grows m dg = ground arith

  after_handler-Grows : (m : Moment) (x : IoRet × Dialogue) → Grows 0 x.1 (after_handler fsm m x)
  unfolding after_handler
  after_handler-Grows m (io_closed, dg) = end_loop-Grows m dg
  after_handler-Grows m (io_err, dg) = end_loop-Grows m dg
  after_handler-Grows m (io_success, dg) = (omega arith, refl)
  after_handler-Grows m (io_data, dg) = (omega arith, refl)
  after_handler-Grows m (io_reconnect, dg) = (omega arith, refl)
  after_handler-Grows m (io_new, dg) = (omega arith, refl)
  after_handler-Grows m (io_closed_active, dg) = (omega arith, refl)
  after_handler-Grows m (io_closed_passive, dg) = (omega arith, refl)
  after_handler-Grows m (io_exit, dg) = (omega arith, refl)
  after_handler-Grows m (io_new_active, dg) = (omega arith, refl)
  after_handler-Grows m (io_new_passive, dg) = (omega arith, refl)
  after_handler-Grows m (io_discard, dg) = (omega arith, refl)

  on_done-Grows : (m : Moment) (a b : Dialogue) → on_done fsm m a ≡ some b → Grows 0 a b
  unfolding on_done
  on_done-Grows m a b e = elim (Bool-cases a.cancelled) [
    | inr q ↦ cc (rw q at e)
    | inl q ↦
        let same : end_loop fsm m (drain a.write_in a) ≡ b = cc (rw q at e) in
        let (le, kept) = drain-Grows a.write_in a in
        let (rest, kept_last) = end_loop-Grows m (drain a.write_in a) in
        rw (← same) (omega (arith, le, rest), kept_last ∙ kept)
  ]

  on_read_in-Grows : (m : Moment) (a b : Dialogue) → on_read_in fsm m a ≡ some b → Grows 0 a b
  unfolding on_read_in
  on_read_in-Grows m a b e = elim (List-cases a.read_in) [
    | inl q ↦ cc (rw q at e)
    | inr (p, ps, q) ↦
        let x = handle_in fsm m p (record a { read_in = ps }) in
        let same : after_handler fsm m x ≡ b = cc (rw q at e) in
        let (le, kept) = handle_in-Adds fsm m p (record a { read_in = ps }) in
        let (rest, kept_last) = after_handler-Grows m x in
        rw (← same) (omega (arith, le, rest), kept_last ∙ ap (λ k. k.0) kept)
  ]

  on_write_in-IsSingle :
      (m : Moment) (a b : Dialogue) → on_write_in fsm m a ≡ some (ok b) → IsSingle a → IsSingle b
  unfolding on_write_in
  on_write_in-IsSingle m a b e s = elim (List-cases a.write_in) [
    | inl q ↦ cc (rw q at e)
    | inr (p, ps, q) ↦
        let c = record a { write_in = ps } in
        let o = handle_out fsm m p c >>= λ x. ok (after_handler fsm m x) in
        let same : o ≡ ok b = cc (rw q at e) in
        ok-Gives IsSingle o b
          (bind-Gives (λ x. Sends (is_dismissal p) c x.1) IsSingle (handle_out fsm m p c) _
            (handle_out-Sends fsm m p c)
            (λ x j.
              Grows-IsSingle x.1 (after_handler fsm m x) (after_handler-Grows m x)
                (omega (arith, j.0, s, ap count q))))
          same
  ]

close-IsSingle : (m : Moment) (a b : Dialogue) → close m a ≡ ok b → IsSingle a → IsSingle b
close-IsSingle m a b e s =
    let (le, same) = ok-Gives (Sends 0 a) (close m a) b (close-Sends m a) e in omega (arith, le, s)

open_dialogue-Grows :
    (m : Moment) (a b : Dialogue) (x : Bool) → open_dialogue m a ≡ ok (x, b) → Grows 0 a b
unfolding open_dialogue new_session_packet with_new_id
open_dialogue-Grows m a b x e = elim (Outcome-cases (get_id m.unix a.ids).0) [
  | inl (i, q) ↦
      let p =
        session (header type_session i at_least_once) (new_session_flags a.peers_call)
          a.negotiating_id (session_data a.meta [] a.peer) in
      let same = ok-injective (rw q at e) in
      let added = call_hub (hub_add i) (record a { ids = (get_id m.unix a.ids).1 }) in
      subst (Grows 0 a) (ap (λ z. z.1) same) (send_to_write_in-Grows m p added)
  | inr (inl (x, q)) ↦ cc (rw q at e)
  | inr (inr q) ↦ cc (rw q at e)
]

-- What Write sends is not a dismissal.
is_dismissal-set_session_id :
    (i : ℕ) (p : Packet) → session_layer p ≡ false → is_dismissal (set_session_id i p) ≡ 0
unfolding set_session_id session_layer
is_dismissal-set_session_id i (dismiss h id d) e = cc
is_dismissal-set_session_id i (conn h f id d) e = refl
is_dismissal-set_session_id i (conn_ack h r id d) e = refl
is_dismissal-set_session_id i (dis_conn h) e = refl
is_dismissal-set_session_id i (dis_conn_ack h r d) e = refl
is_dismissal-set_session_id i (heartbeat h) e = refl
is_dismissal-set_session_id i (heartbeat_ack h) e = refl
is_dismissal-set_session_id i (session h f id d) e = refl
is_dismissal-set_session_id i (session_ack h f n id d) e = refl
is_dismissal-set_session_id i (dismiss_ack h id d) e = refl
is_dismissal-set_session_id i (message h id d) e = refl
is_dismissal-set_session_id i (message_ack h id d) e = refl
is_dismissal-set_session_id i (stream h id bs) e = refl
is_dismissal-set_session_id i (request h id d) e = refl
is_dismissal-set_session_id i (response h id d) e = refl
is_dismissal-set_session_id i (request_cancel h id t) e = refl
is_dismissal-set_session_id i (register h id b) e = refl
is_dismissal-set_session_id i (register_ack h id d) e = refl

write-IsSingle :
    (m : Moment) (p : Packet) (a b : Dialogue) (x : Bool)
    → session_layer p ≡ false
    → write m p a ≡ ok (x, b)
    → IsSingle a
    → IsSingle b
unfolding write
write-IsSingle m p a b x l e s = elim (Bool-cases (session_above p)) [
  | inr q ↦ cc (rw q at e)
  | inl q ↦
      let (le, kept) = send_to_write_in-Grows m (set_session_id a.dialogue_id p) a in
      let sent : IsSingle (send_to_write_in m (set_session_id a.dialogue_id p) a).1 =
        rw kept (omega (arith, le, s, is_dismissal-set_session_id a.dialogue_id p l)) in
      subst IsSingle (ap (λ z. z.1) (ok-injective (rw q at e))) sent
]

run_task-IsSingle :
    (m : Moment) (a b : Dialogue) (before : List Task) (t : Task) (after : List Task)
    → a.tasks ≡ before ++ t ∷ after
    → run_task m t (record a { tasks = before ++ after }) ≡ ok b
    → IsSingle a
    → IsSingle b
unfolding run_task
run_task-IsSingle m a b before (send_in p) after q e s =
    let (le, kept) = send_to_write_in-Grows m p (record a { tasks = before ++ after }) in
    rw (← ok-injective e, kept)
      (omega (
        arith,
        s,
        le,
        ap count_tasks q,
        count_tasks-append before after,
        count_tasks-append before (send_in p ∷ after),
      ))
run_task-IsSingle m a b before close_async after q e s =
    close-IsSingle m (record a { tasks = before ++ after }) b e
      (omega (
        arith,
        s,
        ap count_tasks q,
        count_tasks-append before after,
        count_tasks-append before (close_async ∷ after),
      ))

module _ (fsm : Fsm) where
  Step-IsSingle : (a b : Dialogue) → Step fsm a b → IsSingle a → IsSingle b
  unfolding close_io write
  Step-IsSingle a b (done m f e) s = Grows-IsSingle a b (on_done-Grows fsm m a b e) s
  Step-IsSingle a b (read m f e) s = Grows-IsSingle a b (on_read_in-Grows fsm m a b e) s
  Step-IsSingle a b (wrote m f e) s = on_write_in-IsSingle fsm m a b e s
  Step-IsSingle a b (ran m before t after q e) s = run_task-IsSingle m a b before t after q e s
  Step-IsSingle a b (opened m x e) s = Grows-IsSingle a b (open_dialogue-Grows m a b x e) s
  Step-IsSingle a b (closed m e) s = close-IsSingle m a b e s
  Step-IsSingle a b timed_out s = s
  Step-IsSingle a b (arrived p) s = s
  Step-IsSingle a b (written m p x l e) s = write-IsSingle m p a b x l e s

  -- In every course of steps: if there is at most one DismissPacket in the goroutines, writeInCh
  -- and all that went to writeOutCh, and none before closeOnce has run, then it stays so.
  pub Steps-IsSingle : (a b : Dialogue) → Steps fsm a b → IsSingle a → IsSingle b
  Steps-IsSingle a b stay s = s
  Steps-IsSingle a b (step c rest last) s = Step-IsSingle c b last (Steps-IsSingle a c rest s)
