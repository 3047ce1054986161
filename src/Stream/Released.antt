-- ===== src/Stream/Released.antt =====
-- The steps of a stream, and the cancel functions that it keeps.
use geminio.Common.{
  ℕ, zero, suc, Bool, true, false, ◌==◌, arith, ◌≡◌, sym, ◌∙◌, List, [], ◌∷◌, get_elem?, Option,
  none, some, ok, Gives, bind-Gives, ok-Gives, Option-cases, Bool-cases, inl, inr, ap,
}
use geminio.Packet.{
  Packet, conn, conn_ack, dis_conn, dis_conn_ack, heartbeat, heartbeat_ack, session, session_ack,
  dismiss, dismiss_ack, message, message_ack, stream, request, response, request_cancel, register,
  register_ack,
}
use geminio.Machine.{IoRet, io_err, io_discard}
use geminio.Manager.Maps.{lookup}
use geminio.Stream.{WriteError, short_buffer, other_error, Call, Ran, Moment, Stream}
use geminio.Stream.Requests.{write, result_of_write, release, run_call}
use geminio.Stream.Pending.{
  has_call, has_request, has_call-has_request, IsPending, handle_in-IsPending, release-lookup,
  release-calls, write-IsPending,
}
use geminio.Stream.Handlers.{
  handle_in, handle_out, after_write, write_or, write_telling, write_plain,
}
use geminio.Stream.Ending.{
  Step, Steps, stay, step, reads, writes, runs, closes, finishes, remove, close, fini, after_in,
  after_out, on_read_in, on_write_in, queues, drains, drain, on_close_write, after_drained,
}

abbrev identifies : ℕ → ℕ → Option Call → Bool
identifies n id none = n == id
identifies n id (some c) = c.request_id == id

-- Only calls for its identifier go with a call.
has_call-remove :
    (id place i : ℕ) (cs : List Call) (c : Call)
    → get_elem? cs i ≡ some c
    → (c.request_id == id) ≡ false
    → has_call id place cs ≡ true
    → has_call id place (remove i cs) ≡ true
unfolding has_call remove
has_call-remove id place i [] c g n h = ground arith
has_call-remove id place zero (x ∷ cs) c g n h =
    let same : (x.request_id == id) ≡ (c.request_id == id) = ap (identifies x.request_id id) g in
    let other : (x.request_id == id) ≡ false = same ∙ n in ground (arith, other)
has_call-remove id place (suc i) (x ∷ cs) c g n h =
    ground (arith, has_call-remove id place i cs c g n)

after_write-IsPending :
    (failed : List ℕ → Stream → Stream) (w : Option WriteError × Stream)
    → ((text : List ℕ) (s : Stream) → IsPending s → IsPending (failed text s))
    → IsPending w.1
    → IsPending (after_write failed w).1
after_write-IsPending failed (none, s) f i = i
after_write-IsPending failed (some short_buffer, s) f i = i
after_write-IsPending failed (some (other_error text), s) f i = f text s i

result_of_write-IsPending :
    (w : Option WriteError × Stream) → IsPending w.1 → IsPending (result_of_write w).1
result_of_write-IsPending (none, s) i = i
result_of_write-IsPending (some e, s) i = i

telling-IsPending :
    (p : Packet) (m : Moment) (s : Stream) → IsPending s → IsPending (write_telling p m s).1
unfolding write_telling write_or
telling-IsPending p m s i =
    after_write-IsPending _ (write m p s) (λ text t j. j) (write-IsPending m p s i)

plain-IsPending :
    (p : Packet) (m : Moment) (s : Stream) → IsPending s → IsPending (write_plain p m s).1
unfolding write_plain write_or
plain-IsPending p m s i =
    after_write-IsPending _ (write m p s) (λ text t j. j) (write-IsPending m p s i)

handle_out-IsPending :
    (p : Packet) (m : Moment) (s : Stream) → IsPending s → IsPending (handle_out p m s).1
unfolding handle_out
handle_out-IsPending (message h id d) m s i = telling-IsPending (message h id d) m s i
handle_out-IsPending (message_ack h id d) m s i =
    result_of_write-IsPending (write m (message_ack h id d) s)
      (write-IsPending m (message_ack h id d) s i)
handle_out-IsPending (request h id d) m s i = telling-IsPending (request h id d) m s i
handle_out-IsPending (request_cancel h id t) m s i = plain-IsPending (request_cancel h id t) m s i
handle_out-IsPending (stream h id bs) m s i = plain-IsPending (stream h id bs) m s i
handle_out-IsPending (register h id method) m s i = plain-IsPending (register h id method) m s i
handle_out-IsPending (response h id d) m s i = i
handle_out-IsPending (register_ack h id d) m s i = i
handle_out-IsPending (conn h f id d) m s i = i
handle_out-IsPending (conn_ack h r id d) m s i = i
handle_out-IsPending (dis_conn h) m s i = i
handle_out-IsPending (dis_conn_ack h r d) m s i = i
handle_out-IsPending (heartbeat h) m s i = i
handle_out-IsPending (heartbeat_ack h) m s i = i
handle_out-IsPending (session h f id d) m s i = i
handle_out-IsPending (session_ack h f n id d) m s i = i
handle_out-IsPending (dismiss h id d) m s i = i
handle_out-IsPending (dismiss_ack h id d) m s i = i

-- A call that has run has no cancel function any more, the others still run.
run_call-IsPending :
    (i : ℕ) (c : Call) (ran : Ran) (m : Moment) (s : Stream)
    → get_elem? s.calls i ≡ some c
    → IsPending s
    → IsPending (run_call c ran m (record s { calls = remove i s.calls }))
unfolding run_call
run_call-IsPending i c ran m s g pending =
    let left = record s { calls = remove i s.calls } in
    write-IsPending m _ (release c.request_id left) (λ k v e.
      let looked = sym (release-lookup k c.request_id left) ∙ e in
      rw (release-calls c.request_id left) (elim (Bool-cases (c.request_id == k)) [
        | inl q ↦ ground arith
        | inr q ↦ has_call-remove k v i s.calls c g q (pending k v (ground arith))
      ]))

close-IsPending : (s : Stream) → IsPending s → IsPending (close s)
unfolding close
close-IsPending s i = elim (Bool-cases s.closing) [
  | inl q ↦ rw q i
  | inr q ↦ rw q (elim (Bool-cases s.stream_ok) [ inl r ↦ rw r i | inr r ↦ rw r i ])
]

fini-IsPending : (s : Stream) → IsPending s → IsPending (fini s)
unfolding fini
fini-IsPending s i = elim (Bool-cases s.finished) [ inl q ↦ rw q i | inr q ↦ rw q i ]

after_in-IsPending : (r : IoRet) (s : Stream) → IsPending s → IsPending (after_in (r, s))
after_in-IsPending r s i = elim r as (λ k. IsPending (after_in (k, s))) [
  | io_err ↦ fini-IsPending s i
  | _ ↦ i
]

after_out-IsPending :
    (p : Packet) (r : IoRet) (s : Stream) → IsPending s → IsPending (after_out p (r, s))
after_out-IsPending p r s i = elim r as (λ k. IsPending (after_out p (k, s))) [
  | io_discard ↦ i
  | io_err ↦ fini-IsPending s i
  | _ ↦ i
]

on_read_in-IsPending :
    (p : Packet) (m : Moment) (s : Stream) → IsPending s → Gives IsPending (on_read_in p m s)
unfolding on_read_in
on_read_in-IsPending p m s i =
    bind-Gives (λ x. IsPending x.1) IsPending (handle_in p m s) (λ x. ok (after_in x))
      (handle_in-IsPending p m s i) (λ x j. after_in-IsPending x.0 x.1 j)

on_write_in-IsPending :
    (p : Packet) (m : Moment) (s : Stream) → IsPending s → IsPending (on_write_in p m s)
unfolding on_write_in
on_write_in-IsPending p m s i =
    after_out-IsPending p (handle_out p m s).0 (handle_out p m s).1 (handle_out-IsPending p m s i)

after_drained-IsPending :
    (p : Packet) (rest : Stream → Stream) (r : IoRet) (s : Stream)
    → ((t : Stream) → IsPending t → IsPending (rest t))
    → IsPending s
    → IsPending (after_drained p rest (r, s))
after_drained-IsPending p rest r s f i = elim r as (λ k. IsPending (after_drained p rest (k, s))) [
  | io_discard ↦ f _ i
  | io_err ↦ fini-IsPending s i
  | _ ↦ f s i
]

drain-IsPending :
    (m : Packet → Moment) (ps : List Packet) (s : Stream) → IsPending s → IsPending (drain m ps s)
unfolding drain
drain-IsPending m [] s i = i
drain-IsPending m (p ∷ ps) s i =
    let x = handle_out p (m p) (record s { write_in = ps }) in
    after_drained-IsPending p (drain m ps) x.0 x.1 (drain-IsPending m ps)
      (handle_out-IsPending p (m p) (record s { write_in = ps }) i)

Step-IsPending : (a b : Stream) → Step a b → IsPending a → IsPending b
unfolding on_close_write
Step-IsPending a b (reads p m e) i =
    ok-Gives IsPending (on_read_in p m a) b (on_read_in-IsPending p m a i) e
Step-IsPending a b (queues p f) i = i
Step-IsPending a b (writes p ps m e) i = on_write_in-IsPending p m (record a { write_in = ps }) i
Step-IsPending a b (drains m c d) i = drain-IsPending m a.write_in (record a { drained = true }) i
Step-IsPending a b (runs j c ran m g) i = run_call-IsPending j c ran m a g i
Step-IsPending a b closes i = close-IsPending a i
Step-IsPending a b finishes i = fini-IsPending a i

Steps-IsPending : (a b : Stream) → Steps a b → IsPending a → IsPending b
Steps-IsPending a b stay i = i
Steps-IsPending a b (step m rest last) i = Step-IsPending m b last (Steps-IsPending a m rest i)

-- In whatever order a stream reads, queues and writes packets, its calls run to their ends, and it closes,
-- drains and finishes: when it started without cancel functions, each one that it keeps for a request cancels
-- the context of a running call of this request, and it keeps none for a request without a running call.
pub Steps-Releases :
    (a b : Stream)
    → a.rpc_cancels ≡ []
    → Steps a b
    → IsPending b × ((id : ℕ) → has_request id b.calls ≡ false → lookup id b.rpc_cancels ≡ none)
unfolding lookup
Steps-Releases a b e s =
    let pending : IsPending b = Steps-IsPending a b s (λ k v q. absurd (cc (e, q))) in
    (
      pending,
      λ id n. elim (Option-cases (lookup id b.rpc_cancels)) [
        | inl q ↦ q
        | inr (v, q) ↦ absurd (cc (n, has_call-has_request id v b.calls (pending id v q)))
      ],
    )
