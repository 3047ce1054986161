-- ===== src/Manager/Packets.antt =====
-- handlePkt: which dialogue a packet of the connection reaches.
use geminio.Common.{
  ℕ, Bool, ◌&&◌, [], ◌∷◌, ◌++◌, length, Option, none, some, Outcome, ok, ◌>>=◌, if◌then◌else◌,
}
use geminio.Packet.{
  Packet, conn, conn_ack, dis_conn, dis_conn_ack, heartbeat, heartbeat_ack, session, session_ack,
  dismiss, dismiss_ack, message, message_ack, stream, request, response, request_cancel, register,
  register_ack,
}
use geminio.Dialogue.{Dialogue}
use geminio.Manager.{Manager}
use geminio.Manager.Maps.{lookup, update}
use geminio.Manager.Calls.{open_begin, open_register}

-- SessionID of a SessionAbove; `none` for a packet that is none.
unfoldable pub session_id : Packet → Option ℕ
session_id (conn h f id d) = none
session_id (conn_ack h r id d) = none
session_id (dis_conn h) = none
session_id (dis_conn_ack h r d) = none
session_id (heartbeat h) = none
session_id (heartbeat_ack h) = none
session_id (session h f id d) = some id
session_id (session_ack h f n id d) = some id
session_id (dismiss h id d) = some id
session_id (dismiss_ack h id d) = some id
session_id (message h id d) = some id
session_id (message_ack h id d) = some id
session_id (stream h id bs) = some id
session_id (request h id d) = some id
session_id (response h id d) = some id
session_id (request_cancel h id t) = some id
session_id (register h id bs) = some id
session_id (register_ack h id d) = some id

-- `select { case <-dg.ctx.Done(): case readInCh <- pkt: }`
unfoldable pub receive : Bool → Packet → Dialogue → Dialogue
receive takes_done p dg =
    if dg.cancelled && takes_done then dg else record dg { read_in = dg.read_in ++ p ∷ [] }

unfoldable pub hand_to : Bool → Packet → ℕ → Manager → Manager
unfolding receive update
hand_to takes_done p place g = record g { store = update place (receive takes_done p) g.store }

-- The dialogue of a session identifier: a ready one, or else one that negotiates.
unfoldable pub find : ℕ → Manager → Option ℕ
unfolding lookup
find id g = elim (lookup id g.dialogues) [ none ↦ lookup id g.negotiating | some k ↦ some k ]

-- A packet whose dialogue was looked up.
abbrev pub hand_found : Bool → Packet → Option ℕ → Manager → Manager
hand_found takes_done p none g = g
hand_found takes_done p (some k) g = hand_to takes_done p k g

unfoldable pub handle_pkt : ℕ → Bool → Packet → Manager → Outcome Manager
unfolding open_begin open_register hand_to find session_id
handle_pkt unix takes_done (session h f id d) g = open_begin unix d.meta d.peer g >>= λ (i, made).
    let place = length g.store in
    ok (hand_to takes_done (session h f id d) place (open_register i place made))
handle_pkt unix takes_done (session_ack h f n id d) g =
    ok (hand_found takes_done (session_ack h f n id d) (lookup n g.negotiating) g)
handle_pkt unix takes_done p g = elim (session_id p) [
  | none ↦ ok g
  | some id ↦ ok (hand_found takes_done p (find id g) g)
]
