-- ===== src/Stream/Answers.antt =====
-- What happens to a request: it is answered once, and it can be cancelled.
use geminio.Common.{
  ℕ, ◌⊎◌, ◌<◌, ◌≤◌, ◌==◌, ltb, Bool-cases, true, arith, ◌≡◌, refl, List, [], ◌∷◌, ◌++◌, length,
  get_elem?, Option, none, some, Option-cases, inl, inr, false,
}
use geminio.Packet.{Packet, PacketHeader, MessageData}
use geminio.Packet.Factory.{new_response_packet}
use geminio.Machine.{IoRet, io_success, io_err}
use geminio.Manager.Maps.{lookup, lookup-insert_same, lookup-delete, update_same, get_elem?-last}
use geminio.Stream.{WriteError, Context, Rpc, Call, Ran, Moment, Stream}
use geminio.Stream.Requests.{
  write, result_of_write, choose_rpc, set_up, drop_call, release, handle_in_request_packet,
  handle_in_request_cancel_packet, run_call, response_error, deadline_of, no_such_rpc,
  rpc_handler_panic,
}

-- The context of a request in its place, when it is new and when it is cancelled.
abbrev pub new_context : MessageData → Context
new_context d = record { deadline = deadline_of d; cancelled = false }

abbrev pub cancelled_context : MessageData → Context
cancelled_context d = record { deadline = deadline_of d; cancelled = true }

-- No cancel function for an identifier, and the context at a place.
abbrev pub IsReleased : ℕ → ℕ → MessageData → Stream → Type 0
IsReleased id place d s =
    (lookup id s.rpc_cancels ≡ none) × (get_elem? s.contexts place ≡ some (cancelled_context d))

drop_call-IsReleased :
    (id : ℕ) (d : MessageData) (s : Stream)
    → IsReleased id (length s.contexts) d (drop_call id (length s.contexts) (set_up id d s))
unfolding set_up
drop_call-IsReleased id d s =
    let t = set_up id d s in
    (
      rw (lookup-delete id id t.rpc_cancels) (ground arith),
      rw
          (
            update_same (length s.contexts) (λ c. record c { cancelled = true }) t.contexts,
            get_elem?-last s.contexts (new_context d),
          )
          refl,
    )

release_lem :
    (id place : ℕ) (s : Stream)
    → lookup id s.rpc_cancels ≡ some place
    → release id s ≡ drop_call id place s
unfolding release
release_lem id place s e = rw (release, e) refl

set_up-lookup :
    (id : ℕ) (d : MessageData) (s : Stream)
    → lookup id (set_up id d s).rpc_cancels ≡ some (length s.contexts)
unfolding set_up
set_up-lookup id d s = lookup-insert_same id (length s.contexts) s.rpc_cancels

-- The goroutine that a request starts.
abbrev pub call_of : PacketHeader → MessageData → Rpc → Stream → Call
call_of h d rpc s = record {
  request_id = h.packet_id;
  method = d.key;
  context = length s.contexts;
  rpc = rpc;
}

-- The stream with it.
abbrev pub asked : PacketHeader → MessageData → Rpc → Stream → Stream
asked h d rpc s = record (set_up h.packet_id d s) {
  calls = (set_up h.packet_id d s).calls ++ call_of h d rpc s ∷ [];
}

choose_rpc-set_up :
    (id : ℕ) (d : MessageData) (s : Stream) → choose_rpc d.key (set_up id d s) ≡ choose_rpc d.key s
unfolding choose_rpc set_up
choose_rpc-set_up id d s = refl

pub asked_lem :
    (h : PacketHeader) (d : MessageData) (rpc : Rpc) (m : Moment) (s : Stream)
    → choose_rpc d.key s ≡ some rpc
    → handle_in_request_packet h d m s ≡ (io_success, asked h d rpc s)
unfolding handle_in_request_packet set_up
asked_lem h d rpc m s e = rw (handle_in_request_packet, choose_rpc-set_up h.packet_id d s, e) refl

release-asked :
    (h : PacketHeader) (d : MessageData) (rpc : Rpc) (s : Stream)
    → release h.packet_id (asked h d rpc s)
      ≡ drop_call h.packet_id (length s.contexts) (asked h d rpc s)
release-asked h d rpc s =
    release_lem h.packet_id (length s.contexts) (asked h d rpc s) (set_up-lookup h.packet_id d s)

run_call_lem :
    (c : Call) (ran : Ran) (m : Moment) (s : Stream)
    → m.write_error ≡ none
    → run_call c ran m s ≡ record (release c.request_id s) {
      written =
          (release c.request_id s).written
          ++ new_response_packet c.request_id c.method ran.data_set (response_error ran) ∷ [];
    }
unfolding run_call write
run_call_lem c ran m s e = rw (write, e) refl

-- What a write does: its result, and what is written then.
abbrev pub sent : Option WriteError → Packet → List Packet → IoRet × List Packet
sent none p written = (io_success, written ++ p ∷ [])
sent (some e) p written = (io_err, written)

write_lem :
    (m : Moment) (p : Packet) (s : Stream)
    → result_of_write (write m p s) ≡ (
      (sent m.write_error p s.written).0,
      record s { written = (sent m.write_error p s.written).1 },
    )
unfolding write
write_lem m p s = elim (Option-cases m.write_error) [
  | inl q ↦ rw (write, q) refl
  | inr (e, q) ↦ rw (write, q) refl
]

-- The answer to a request without an RPC.
abbrev pub refusal : PacketHeader → MessageData → Packet
refusal h d = new_response_packet h.packet_id d.key [] (some (no_such_rpc ++ d.key))

pub refused_lem :
    (h : PacketHeader) (d : MessageData) (m : Moment) (s : Stream)
    → choose_rpc d.key s ≡ none
    → handle_in_request_packet h d m s ≡ (
      (sent m.write_error (refusal h d) s.written).0,
      record (drop_call h.packet_id (length s.contexts) (set_up h.packet_id d s)) {
        written = (sent m.write_error (refusal h d) s.written).1;
      },
    )
unfolding handle_in_request_packet set_up
refused_lem h d m s e =
    rw (handle_in_request_packet, choose_rpc-set_up h.packet_id d s, e)
      (write_lem m (refusal h d)
        (drop_call h.packet_id (length s.contexts) (set_up h.packet_id d s)))

-- A time that is the sooner of the two deadlines of a request, where zero is none; none when neither is set.
abbrev pub IsSooner : MessageData → Option ℕ → Type 0
IsSooner d none = (d.deadline ≡ 0) × (d.context_deadline ≡ 0)
IsSooner d (some t) =
    ((t ≡ d.deadline) ⊎ (t ≡ d.context_deadline))
    × (0 < t)
    × (0 < d.deadline → t ≤ d.deadline)
    × (0 < d.context_deadline → t ≤ d.context_deadline)

deadline_of-IsSooner : (d : MessageData) → IsSooner d (deadline_of d)
unfolding deadline_of
deadline_of-IsSooner d = elim (Bool-cases (d.deadline == 0)) [
  | inl p ↦ elim (Bool-cases (d.context_deadline == 0)) [
    | inl q ↦ rw (p, q) (ground arith, ground arith)
    | inr q ↦ rw (p, q) (inr refl, ground arith, λ l. ground arith, λ l. ground arith)
  ]
  | inr p ↦ elim (Bool-cases (d.context_deadline == 0)) [
    | inl q ↦ rw (p, q) (inl refl, ground arith, λ l. ground arith, λ l. ground arith)
    | inr q ↦ elim (Bool-cases (ltb d.context_deadline d.deadline)) [
      | inl r ↦ rw (p, q, r) (inr refl, ground arith, λ l. ground arith, λ l. ground arith)
      | inr r ↦ rw (p, q, r) (inl refl, ground arith, λ l. ground arith, λ l. ground arith)
    ]
  ]
]

-- What an RPC leaves: its data, its error, and the text of its panic if it panics.
abbrev pub returning : List ℕ → Option (List ℕ) → Ran
returning data_set e = record { data_set = data_set; error_set = e; panicked = none }

abbrev pub panicking : List ℕ → Option (List ℕ) → List ℕ → Ran
panicking data_set e text = record { data_set = data_set; error_set = e; panicked = some text }

-- A request for whose method an RPC is chosen starts one call of it, with a new context, not cancelled, that
-- has the sooner of the deadlines set, or none when none is set. Then a cancel packet with the request's
-- identifier cancels that context, and leaves no cancel function for the identifier. When instead the call
-- runs to its end and its write succeeds, the context is cancelled, no cancel function is left, and exactly
-- one packet is written, the response with the request's identifier and method, the data set and an error:
-- that set when the RPC returns, and one that carries the panic's text when it panics, whatever it had set.
pub handle_in_request_packet-Answers :
    (h : PacketHeader) (d : MessageData) (rpc : Rpc) (m : Moment) (s : Stream) (data_set : List ℕ)
    (e : Option (List ℕ)) (text : List ℕ) (later : Moment)
    → choose_rpc d.key s ≡ some rpc
    → later.write_error ≡ none
    → let k = length s.contexts in
      let a = (handle_in_request_packet h d m s).1 in
      let c = call_of h d rpc s in
      ((handle_in_request_packet h d m s).0 ≡ io_success)
      × (a.calls ≡ s.calls ++ c ∷ [])
      × ((t : Option ℕ) × IsSooner d t
          × (a.contexts ≡ s.contexts ++ record { deadline = t; cancelled = false } ∷ []))
      × (a.written ≡ s.written)
      × IsReleased h.packet_id k d (handle_in_request_cancel_packet h a).1
      × IsReleased h.packet_id k d (run_call c (returning data_set e) later a)
      × ((run_call c (returning data_set e) later a).written
          ≡ s.written ++ new_response_packet h.packet_id d.key data_set e ∷ [])
      × IsReleased h.packet_id k d (run_call c (panicking data_set e text) later a)
      × ((run_call c (panicking data_set e text) later a).written
          ≡ s.written
            ++ new_response_packet h.packet_id d.key data_set (some (rpc_handler_panic ++ text))
              ∷ [])
unfolding handle_in_request_cancel_packet set_up
handle_in_request_packet-Answers h d rpc m s data_set e text later q w =
    let done = drop_call-IsReleased h.packet_id d s in
    let a = asked h d rpc s in
    let c = call_of h d rpc s in
    rw (asked_lem h d rpc m s q) (
      rw
        (
          run_call_lem c (returning data_set e) later a w,
          run_call_lem c (panicking data_set e text) later a w,
          handle_in_request_cancel_packet,
          release-asked h d rpc s,
        )
        (
          refl,
          refl,
          (deadline_of d, deadline_of-IsSooner d, refl),
          refl,
          done,
          done,
          refl,
          done,
          refl,
        ))

-- A request for whose method no RPC is chosen starts no call, its context is cancelled, and no cancel
-- function stays for it. When the write succeeds, exactly one packet is written, the response with the
-- request's identifier and an error that names the method; when it fails, none, and the result is IOErr.
pub handle_in_request_packet-Refuses :
    (h : PacketHeader) (d : MessageData) (m : Moment) (s : Stream)
    → choose_rpc d.key s ≡ none
    → IsReleased h.packet_id (length s.contexts) d (handle_in_request_packet h d m s).1
      × ((handle_in_request_packet h d m s).1.calls ≡ s.calls)
      × ((handle_in_request_packet h d m s).0 ≡ (sent m.write_error (refusal h d) s.written).0)
      × ((handle_in_request_packet h d m s).1.written
          ≡ (sent m.write_error (refusal h d) s.written).1)
unfolding set_up
handle_in_request_packet-Refuses h d m s e =
    rw (refused_lem h d m s e) (drop_call-IsReleased h.packet_id d s, refl, refl, refl)
