-- ===== src/Stream/Requests.antt =====
-- Requests: the choice of an RPC, its context, its cancelling and the answer.
use geminio.Common.{
  ℕ, Bool, true, false, not, ◌&&◌, ◌||◌, ltb, ◌==◌, List, [], ◌∷◌, ◌++◌, length, Option, none, some,
  if◌then◌else◌,
}
use geminio.Packet.{Packet, PacketHeader, MessageData}
use geminio.Packet.Factory.{new_response_packet}
use geminio.Machine.{IoRet, io_success, io_err}
use geminio.Manager.Maps.{lookup, insert, delete, update}
use geminio.Stream.{WriteError, Rpc, hijack_rpc, local_rpc, Call, Ran, Moment, Stream}

-- Equality of two Go strings.
unfoldable pub same : List ℕ → List ℕ → Bool
same [] [] = true
same [] (y ∷ ys) = false
same (x ∷ xs) [] = false
same (x ∷ xs) (y ∷ ys) = x == y && same xs ys

unfoldable pub has_method : List ℕ → List (List ℕ) → Bool
unfolding same
has_method x [] = false
has_method x (y ∷ ys) = same x y || has_method x ys

-- dg.Write and dg.WriteWait.
unfoldable pub write : Moment → Packet → Stream → Option WriteError × Stream
write m p s = elim m.write_error [
  | none ↦ (none, record s { written = s.written ++ p ∷ [] })
  | some e ↦ (some e, s)
]

-- The sooner of the two deadlines that are set.
unfoldable pub deadline_of : MessageData → Option ℕ
deadline_of d =
    if not (d.deadline == 0) || not (d.context_deadline == 0)
    then some (
        if d.deadline == 0
          || (not (d.deadline == 0)
              && not (d.context_deadline == 0)
              && ltb d.context_deadline d.deadline)
        then d.context_deadline
        else d.deadline)
    else none

abbrev pub find_local : List ℕ → Stream → Option Rpc
find_local method s = if has_method method s.local_rpcs then some (local_rpc method) else none

-- The RPC of a method: the hijacking one, when there is one that takes the method, else the local one.
unfoldable pub choose_rpc : List ℕ → Stream → Option Rpc
unfolding has_method
choose_rpc method s = elim s.hijack [
  | none ↦ find_local method s
  | some h ↦ elim h.pattern [
    | none ↦ some hijack_rpc
    | some takes ↦
        let matched = takes method in
        if (h.matching && matched) || (not h.matching && not matched)
        then some hijack_rpc
        else find_local method s
  ]
]

-- `delete(sm.rpcCancels, pkt.ID())` and `cancel()`
abbrev pub drop_call : ℕ → ℕ → Stream → Stream
drop_call id place s = record s {
  rpc_cancels = delete id s.rpc_cancels;
  contexts = update place (λ c. record c { cancelled = true }) s.contexts;
}

-- The same for the cancel function that rpcCancels has, if any.
unfoldable pub release : ℕ → Stream → Stream
unfolding lookup delete update
release id s = elim (lookup id s.rpc_cancels) [ none ↦ s | some place ↦ drop_call id place s ]

-- "no such rpc: "
abbrev pub no_such_rpc : List ℕ
no_such_rpc = 110 ∷ 111 ∷ 32 ∷ 115 ∷ 117 ∷ 99 ∷ 104 ∷ 32 ∷ 114 ∷ 112 ∷ 99 ∷ 58 ∷ 32 ∷ []

-- "rpc handler panic: "
abbrev pub rpc_handler_panic : List ℕ
rpc_handler_panic =
    114 ∷ 112 ∷ 99 ∷ 32 ∷ 104 ∷ 97 ∷ 110 ∷ 100 ∷ 108 ∷ 101 ∷ 114 ∷ 32 ∷ 112 ∷ 97 ∷ 110 ∷ 105 ∷ 99
    ∷ 58 ∷ 32 ∷ []

-- A new context, and its cancel function in rpcCancels.
unfoldable pub set_up : ℕ → MessageData → Stream → Stream
unfolding insert deadline_of
set_up id d s = record s {
  rpc_cancels = insert id (length s.contexts) s.rpc_cancels;
  contexts = s.contexts ++ record { deadline = deadline_of d; cancelled = false } ∷ [];
}

abbrev pub result_of_write : Option WriteError × Stream → IoRet × Stream
result_of_write (none, s) = (io_success, s)
result_of_write (some e, s) = (io_err, s)

unfoldable pub handle_in_request_packet :
    PacketHeader → MessageData → Moment → Stream → IoRet × Stream
unfolding set_up choose_rpc delete update write
handle_in_request_packet h d m s =
    let id = h.packet_id in
    let place = length s.contexts in
    let ready = set_up id d s in
    elim (choose_rpc d.key ready) [
      | some rpc ↦ (
        io_success,
        record ready {
          calls =
              ready.calls
              ++ record { request_id = id; method = d.key; context = place; rpc = rpc } ∷ [];
        },
      )
      | none ↦ result_of_write (
          write m (new_response_packet id d.key [] (some (no_such_rpc ++ d.key)))
            (drop_call id place ready))
    ]

unfoldable pub handle_in_request_cancel_packet : PacketHeader → Stream → IoRet × Stream
unfolding release
handle_in_request_cancel_packet h s = (io_success, release h.packet_id s)

-- rsp.err after the deferred recover.
abbrev pub response_error : Ran → Option (List ℕ)
response_error ran = elim ran.panicked [
  | none ↦ ran.error_set
  | some text ↦ some (rpc_handler_panic ++ text)
]

-- The goroutine of doRPC, with what the RPC did.
unfoldable pub run_call : Call → Ran → Moment → Stream → Stream
unfolding release write
run_call c ran m s =
    (write m (new_response_packet c.request_id c.method ran.data_set (response_error ran))
      (release c.request_id s)).1
