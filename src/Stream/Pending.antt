-- ===== src/Stream/Pending.antt =====
-- Which requests rpcCancels has cancel functions for.
use geminio.Common.{
  ℕ, Bool, true, false, ◌||◌, ◌==◌, arith, ◌≡◌, refl, sym, ◌∙◌, List, [], ◌∷◌, ◌++◌, length, Option,
  none, some, ltb, ◌&&◌, Gives, Option-cases, Bool-cases, inl, inr, if◌then◌else◌, ap,
}
use geminio.Packet.{
  Packet, PacketHeader, MessageData, conn, conn_ack, dis_conn, dis_conn_ack, heartbeat,
  heartbeat_ack, session, session_ack, dismiss, dismiss_ack, message, message_ack, stream, request,
  response, request_cancel, register, register_ack,
}
use geminio.Manager.Maps.{lookup, insert, lookup-insert, lookup-delete}
use geminio.Packet.Factory.{new_register_ack_packet}
use geminio.Stream.{WriteError, Rpc, Call, Moment, Stream}
use geminio.Stream.Requests.{
  set_up, choose_rpc, write, release, handle_in_request_cancel_packet, handle_in_request_packet,
}
use geminio.Stream.Answers.{asked, asked_lem, call_of, refused_lem}
use geminio.Stream.Handlers.{
  handle_in, handle_in_message_packet, handle_in_message_ack_packet, handle_in_response_packet,
  after_register_ack, handle_in_register_packet, handle_in_register_ack_packet,
  handle_in_stream_packet, is_empty,
}

-- Whether a call for an identifier is running, and whether one with the context at a place is.
unfoldable pub has_request : ℕ → List Call → Bool
has_request id [] = false
has_request id (c ∷ cs) = c.request_id == id || has_request id cs

unfoldable pub has_call : ℕ → ℕ → List Call → Bool
has_call id place [] = false
has_call id place (c ∷ cs) = (c.request_id == id && c.context == place) || has_call id place cs

-- Each cancel function that is kept is that of a call that is running: of its request and its context.
abbrev pub IsPending : Stream → Type 0
IsPending s =
    (id place : ℕ) → lookup id s.rpc_cancels ≡ some place → has_call id place s.calls ≡ true

pub has_call-has_request :
    (id place : ℕ) (cs : List Call) → has_call id place cs ≡ true → has_request id cs ≡ true
unfolding has_call has_request
has_call-has_request id place [] h = h
has_call-has_request id place (c ∷ cs) h = ground (arith, has_call-has_request id place cs)

has_call-append :
    (id place : ℕ) (cs : List Call) (c : Call)
    → has_call id place (cs ++ c ∷ [])
      ≡ (has_call id place cs || (c.request_id == id && c.context == place))
unfolding has_call
has_call-append id place [] c = ground arith
has_call-append id place (x ∷ cs) c = ground (arith, has_call-append id place cs c)

pub release-lookup :
    (k id : ℕ) (s : Stream)
    → lookup k (release id s).rpc_cancels ≡ (if id == k then none else lookup k s.rpc_cancels)
unfolding release
release-lookup k id s = elim (Option-cases (lookup id s.rpc_cancels)) [
  | inl q ↦ rw (release, q) (ground arith)
  | inr (v, q) ↦ rw (release, q) (lookup-delete k id s.rpc_cancels)
]

pub release-calls : (id : ℕ) (s : Stream) → (release id s).calls ≡ s.calls
unfolding release
release-calls id s = elim (Option-cases (lookup id s.rpc_cancels)) [
  | inl q ↦ rw (release, q) refl
  | inr (v, q) ↦ rw (release, q) refl
]

release-IsPending : (id : ℕ) (s : Stream) → IsPending s → IsPending (release id s)
release-IsPending id s h k v e =
    let looked = sym (release-lookup k id s) ∙ e in rw (release-calls id s) (h k v (ground arith))

-- What a write leaves as it is.
pub write-kept :
    (m : Moment) (p : Packet) (s : Stream)
    → ((write m p s).1.rpc_cancels ≡ s.rpc_cancels) × ((write m p s).1.calls ≡ s.calls)
unfolding write
write-kept m p s = elim (Option-cases m.write_error) [
  | inl q ↦ rw (write, q) (refl, refl)
  | inr (e, q) ↦ rw (write, q) (refl, refl)
]

pub write-IsPending :
    (m : Moment) (p : Packet) (s : Stream) → IsPending s → IsPending (write m p s).1
write-IsPending m p s h k v e =
    let (c, l) = write-kept m p s in rw l (h k v (ap (lookup k) (sym c) ∙ e))

inserted_lem :
    (same running : Bool) (old : Option ℕ) (new v : ℕ)
    → (old ≡ some v → running ≡ true)
    → (if same then some new else old) ≡ some v
    → (running || (same && new == v)) ≡ true
inserted_lem true true old new v f e = refl
inserted_lem true false old new v f e = ground arith
inserted_lem false true old new v f e = refl
inserted_lem false false old new v f e = f e

asked-IsPending :
    (h : PacketHeader) (d : MessageData) (rpc : Rpc) (s : Stream)
    → IsPending s
    → IsPending (asked h d rpc s)
unfolding set_up
asked-IsPending h d rpc s pending k v e =
    let looked = sym (lookup-insert k h.packet_id (length s.contexts) s.rpc_cancels) ∙ e in
    rw (has_call-append k v s.calls (call_of h d rpc s)) (
      inserted_lem (h.packet_id == k) (has_call k v s.calls) (lookup k s.rpc_cancels)
        (length s.contexts) v (pending k v) looked)

request-IsPending :
    (h : PacketHeader) (d : MessageData) (m : Moment) (s : Stream)
    → IsPending s
    → IsPending (handle_in_request_packet h d m s).1
unfolding set_up
request-IsPending h d m s pending = elim (Option-cases (choose_rpc d.key s)) [
  | inl q ↦ rw (refused_lem h d m s q) (λ k v e.
      let id = h.packet_id in
      let table = insert id (length s.contexts) s.rpc_cancels in
      let deleted = sym (lookup-delete k id table) ∙ e in
      let inserted = lookup-insert k id (length s.contexts) s.rpc_cancels in
      pending k v (ground arith))
  | inr (rpc, q) ↦ rw (asked_lem h d rpc m s q) (asked-IsPending h d rpc s pending)
]

after_register_ack-IsPending :
    (method : List ℕ) (w : Option WriteError × Stream)
    → IsPending w.1
    → IsPending (after_register_ack method w).1
after_register_ack-IsPending method (none, s) i = i
after_register_ack-IsPending method (some e, s) i = i

pub handle_in-IsPending :
    (p : Packet) (m : Moment) (s : Stream)
    → IsPending s
    → Gives (λ t. IsPending t.1) (handle_in p m s)
unfolding handle_in handle_in_message_packet handle_in_message_ack_packet handle_in_response_packet
    handle_in_register_packet handle_in_register_ack_packet handle_in_stream_packet
    handle_in_request_cancel_packet
handle_in-IsPending (message h id d) m s i = elim (Bool-cases s.channels_closed) [
  | inl q ↦ rw q tt
  | inr q ↦ rw q i
]
handle_in-IsPending (message_ack h id d) m s i = elim (Bool-cases (is_empty d.error)) [
  | inl q ↦ rw q i
  | inr q ↦ rw q i
]
handle_in-IsPending (request h id d) m s i = request-IsPending h d m s i
handle_in-IsPending (request_cancel h id t) m s i = release-IsPending h.packet_id s i
handle_in-IsPending (response h id d) m s i = elim (Bool-cases (is_empty d.error)) [
  | inl q ↦ rw q i
  | inr q ↦ rw q i
]
handle_in-IsPending (register h id method) m s i =
    after_register_ack-IsPending method (write m (new_register_ack_packet h.packet_id none) s)
      (write-IsPending m (new_register_ack_packet h.packet_id none) s i)
handle_in-IsPending (register_ack h id d) m s i = i
handle_in-IsPending (stream h id bs) m s i = elim (Bool-cases s.channels_closed) [
  | inl q ↦ rw q tt
  | inr q ↦ rw q (elim (Bool-cases (ltb (length s.stream_ch) s.stream_ch_size)) [
    | inl r ↦ rw r i
    | inr r ↦
        rw r
          (elim (Bool-cases (m.dialogue_done && m.takes_done)) [ inl w ↦ rw w i | inr w ↦ rw w i ])
  ])
]
handle_in-IsPending (conn h f id d) m s i = i
handle_in-IsPending (conn_ack h r id d) m s i = i
handle_in-IsPending (dis_conn h) m s i = i
handle_in-IsPending (dis_conn_ack h r d) m s i = i
handle_in-IsPending (heartbeat h) m s i = i
handle_in-IsPending (heartbeat_ack h) m s i = i
handle_in-IsPending (session h f id d) m s i = i
handle_in-IsPending (session_ack h f n id d) m s i = i
handle_in-IsPending (dismiss h id d) m s i = i
handle_in-IsPending (dismiss_ack h id d) m s i = i
