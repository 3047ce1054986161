-- ===== src/Conn/Offline.antt =====
-- connOK, ctx and the delegate's ConnOffline over any course of a connection.
use geminio.Common.{
  ℕ, ◌≤◌, ◌≡◌, refl, arith, Bool, true, false, not, List, [], ◌∷◌, ◌++◌, Option, none, some, ok,
  err, panic, ok-injective, ok-Gives, Gives, Bool-cases, List-cases, inl, inr, if◌then◌else◌, ◌+◌,
  ◌&&◌, ◌>>=◌, ap, subst, sym, ◌∙◌,
}
use geminio.Packet.{Packet}
use geminio.Packet.Factory.{new_heartbeat_packet, with_new_id}
use geminio.Conn.{
  Fsm, IoRet, io_closed, io_err, io_success, io_data, io_reconnect, io_new, io_new_active,
  io_new_passive, io_closed_active, io_closed_passive, io_exit, io_discard, Moment, Conn,
}
use geminio.Conn.Base.{Handled, fail, send_to_write_in, close, write, write_packet}
use geminio.Conn.Client
use geminio.Conn.Server
use geminio.Conn.Loop.{
  Steps, Step, stay, step, beat, read, wrote, arrived, lost, flushed, beaten, ran, ticked,
  timed_out, closed, written, taken, abandoned, drawn, handle_in, handle_out, fail_all, fini_conn,
  take_down, is_known, end_loop, after_handler, on_heartbeat_in, on_read_in, on_write_in,
  read_packet, route, end_read, write_heartbeat, write_down, take_out, abandon,
}
use geminio.Conn.Keeping.{lasting, Side-cases, Keeps, fail-lasting, close-Keeps}
use geminio.Conn.Kept.{handle_in-Keeps, handle_out-Keeps}

-- connOK says that fini has not run; fini has cancelled; and the delegate's ConnOffline has not been
-- called before fini and at most once after it.
abbrev pub FinishesOnce : Bool × Bool × Bool × ℕ → Type 0
FinishesOnce (finished, cancelled, conn_ok, calls) =
    (conn_ok ≡ not finished)
    × (finished ≡ true → cancelled ≡ true)
    × (calls ≤ (if finished then 1 else 0))

moved : (a b : Conn) → lasting b ≡ lasting a → FinishesOnce (lasting a) → FinishesOnce (lasting b)
moved a b e s = subst FinishesOnce (sym e) s

write_packet-FinishesOnce :
    (m : Moment) (p : Packet) (c : Conn)
    → FinishesOnce (lasting c)
    → FinishesOnce (lasting (write_packet m p c))
unfolding write_packet fail
write_packet-FinishesOnce m p c s = ground arith

send_to_write_in-lasting :
    (m : Moment) (p : Packet) (c : Conn) → lasting (send_to_write_in m p c).1 ≡ lasting c
unfolding send_to_write_in
send_to_write_in-lasting m p c = ground arith

send_heartbeat-Keeps :
    (m : Moment) (c : Conn) → Gives (λ x. lasting x ≡ lasting c) (Client.send_heartbeat m c)
unfolding Client.send_heartbeat send_to_write_in new_heartbeat_packet with_new_id
send_heartbeat-Keeps m c = ground arith

fail_all-lasting : (ps : List Packet) (c : Conn) → lasting (fail_all ps c) ≡ lasting c
unfolding fail_all
fail_all-lasting [] c = refl
fail_all-lasting (p ∷ ps) c = fail_all-lasting ps (fail p c) ∙ fail-lasting p c

read_packet-lasting : (p : Packet) (c : Conn) → lasting (read_packet p c) ≡ lasting c
unfolding read_packet route
read_packet-lasting p c = ground arith

write-lasting : (m : Moment) (p : Packet) (c : Conn) → lasting (write m p c).1 ≡ lasting c
unfolding write send_to_write_in
write-lasting m p c = ground arith

-- What is taken leaves the rest.
abbrev TakenKeeps : Conn → Option (Option Packet × Conn) → Type 0
TakenKeeps c none = Unit {0}
TakenKeeps c (some (x, d)) = lasting d ≡ lasting c

take_out-TakenKeeps : (c : Conn) → TakenKeeps c (take_out c)
unfolding take_out
take_out-TakenKeeps c = ground arith

take_down-lasting : (c : Conn) → lasting (take_down c) ≡ (c.finished, true, false, c.offline_calls)
unfolding take_down
take_down-lasting c = elim (Side-cases c.side) [ inl e ↦ rw e refl | inr e ↦ rw e refl ]

module _ (fsm : Fsm) where
  fini_conn-lasting : (c : Conn) → lasting (fini_conn fsm c) ≡ (true, true, false, c.offline_calls)
  unfolding fini_conn
  fini_conn-lasting c =
      let drained =
        fail_all-lasting c.write_out (fail_all c.write_in (take_down c))
        ∙ fail_all-lasting c.write_in (take_down c)
        ∙ take_down-lasting c in
      ap (λ z. (true, z.1, z.2, z.3)) drained

  end_loop-FinishesOnce :
      (m : Moment) (c : Conn)
      → c.finished ≡ false
      → FinishesOnce (lasting c)
      → FinishesOnce (lasting (end_loop fsm m c))
  unfolding end_loop
  end_loop-FinishesOnce m c f s =
      let calls = if m.has_delegate && is_known c then c.offline_calls + 1 else c.offline_calls in
      let unseen : c.offline_calls ≤ 0 = rw f at s.2 in
      let once : calls ≤ 1 = ground (arith, unseen) in
      subst FinishesOnce (sym (fini_conn-lasting (record c { offline_calls = calls })))
        (refl, λ x. refl, once)

  after_handler-FinishesOnce :
      (m : Moment) (x : IoRet × Conn)
      → x.1.finished ≡ false
      → FinishesOnce (lasting x.1)
      → FinishesOnce (lasting (after_handler fsm m x))
  unfolding after_handler
  after_handler-FinishesOnce m (io_closed, c) f s = end_loop-FinishesOnce m c f s
  after_handler-FinishesOnce m (io_err, c) f s = end_loop-FinishesOnce m c f s
  after_handler-FinishesOnce m (io_success, c) f s = s
  after_handler-FinishesOnce m (io_data, c) f s = s
  after_handler-FinishesOnce m (io_reconnect, c) f s = s
  after_handler-FinishesOnce m (io_new, c) f s = s
  after_handler-FinishesOnce m (io_new_active, c) f s = s
  after_handler-FinishesOnce m (io_new_passive, c) f s = s
  after_handler-FinishesOnce m (io_closed_active, c) f s = s
  after_handler-FinishesOnce m (io_closed_passive, c) f s = s
  after_handler-FinishesOnce m (io_exit, c) f s = s
  after_handler-FinishesOnce m (io_discard, c) f s = s

  -- A handler's result on a connection like `a`, after the test of the loop.
  handled :
      (m : Moment) (o : Handled) (a b : Conn)
      → a.finished ≡ false
      → Keeps a o
      → FinishesOnce (lasting a)
      → some (o >>= λ x. ok (after_handler fsm m x)) ≡ some (ok b)
      → FinishesOnce (lasting b)
  handled m (ok x) a b f k s e =
      let same : after_handler fsm m x ≡ b = cc e in
      rw (← same) (after_handler-FinishesOnce m x (ap (λ z. z.0) k ∙ f) (moved a x.1 k s))
  handled m (err x) a b f k s e = cc e
  handled m panic a b f k s e = cc e

  Step-FinishesOnce :
      (a b : Conn) → Step fsm a b → FinishesOnce (lasting a) → FinishesOnce (lasting b)
  unfolding on_heartbeat_in on_read_in on_write_in end_read abandon write_down write_heartbeat
      Server.wait_hb_timeout
  Step-FinishesOnce a b (beat m f e) s = elim (List-cases a.heartbeat_in) [
    | inl q ↦ cc (rw q at e)
    | inr (p, ps, q) ↦
        let c = record a { heartbeat_in = ps } in
        handled m (handle_in fsm m p c) a b f (handle_in-Keeps fsm m p c) s (rw q at e)
  ]
  Step-FinishesOnce a b (read m f e) s = elim (List-cases a.read_in) [
    | inl q ↦ elim (Bool-cases a.read_closed) [
      | inl r ↦
          let same : end_loop fsm m a ≡ b = cc (rw (q, r) at e) in
          rw (← same) (end_loop-FinishesOnce m a f s)
      | inr r ↦ cc (rw (q, r) at e)
    ]
    | inr (p, ps, q) ↦
        let c = record a { read_in = ps } in
        handled m (handle_in fsm m p c) a b f (handle_in-Keeps fsm m p c) s (rw q at e)
  ]
  Step-FinishesOnce a b (wrote m f e) s = elim (List-cases a.write_in) [
    | inl q ↦ cc (rw q at e)
    | inr (p, ps, q) ↦
        let c = record a { write_in = ps } in
        handled m (handle_out fsm m p c) a b f (handle_out-Keeps fsm m p c) s (rw q at e)
  ]
  Step-FinishesOnce a b (arrived p r) s = moved a b (read_packet-lasting p a) s
  Step-FinishesOnce a b lost s = s
  Step-FinishesOnce a b (flushed m e) s = elim (List-cases a.write_out) [
    | inl q ↦ cc (rw q at e)
    | inr (p, ps, q) ↦ elim (Bool-cases a.writing) [
      | inl w ↦
          let c = record a { write_out = ps } in
          let same : write_packet m p c ≡ b = cc (rw (q, w) at e) in
          rw (← same) (write_packet-FinishesOnce m p c s)
      | inr w ↦ cc (rw (q, w) at e)
    ]
  ]
  Step-FinishesOnce a b (beaten m e) s = elim (List-cases a.heartbeat_out) [
    | inl q ↦ cc (rw q at e)
    | inr (p, ps, q) ↦ elim (Bool-cases a.writing) [
      | inl w ↦
          let c = record a { heartbeat_out = ps } in
          let same : write_packet m p c ≡ b = cc (rw (q, w) at e) in
          rw (← same) (write_packet-FinishesOnce m p c s)
      | inr w ↦ cc (rw (q, w) at e)
    ]
  ]
  Step-FinishesOnce a b (ran m before p after q) s =
      moved a b (send_to_write_in-lasting m p (record a { tasks = before ++ after })) s
  Step-FinishesOnce a b (ticked m e) s =
      moved a b (ok-Gives _ (Client.send_heartbeat m a) b (send_heartbeat-Keeps m a) e) s
  Step-FinishesOnce a b (timed_out m true e) s = moved a b (rw (← ok-injective e) refl) s
  Step-FinishesOnce a b (timed_out m false e) s =
      moved a b (ok-Gives _ (close m a) b (close-Keeps m a) e) s
  Step-FinishesOnce a b (closed m e) s = moved a b (ok-Gives _ (close m a) b (close-Keeps m a) e) s
  Step-FinishesOnce a b (written m p) s = moved a b (write-lasting m p a) s
  Step-FinishesOnce a b (taken x e) s = moved a b (subst (TakenKeeps a) e (take_out-TakenKeeps a)) s
  Step-FinishesOnce a b abandoned s = s
  Step-FinishesOnce a b (drawn ids) s = s

  -- Every course of steps keeps this: connOK holds until fini has run and not after it, fini has
  -- cancelled, and the delegate's ConnOffline has not been called before fini and at most once after it.
  pub Steps-FinishesOnce :
      (a b : Conn) → Steps fsm a b → FinishesOnce (lasting a) → FinishesOnce (lasting b)
  Steps-FinishesOnce a b stay s = s
  Steps-FinishesOnce a b (step c rest last) s =
      Step-FinishesOnce c b last (Steps-FinishesOnce a c rest s)
