-- ===== src/Packet/Ids.antt =====
-- The methods that every packet struct has from its header, and the layer of a packet.
use geminio.Common.{length, ℕ, Bool, true, false}
use geminio.Packet.{
  Packet, PacketHeader, conn, conn_ack, dis_conn, dis_conn_ack, heartbeat, heartbeat_ack, session,
  session_ack, dismiss, dismiss_ack, message, message_ack, stream, request, response,
  request_cancel, register, register_ack,
}

-- The header of a packet's struct.
unfoldable pub packet_header : Packet → PacketHeader
packet_header (conn h f id d) = h
packet_header (conn_ack h r id d) = h
packet_header (dis_conn h) = h
packet_header (dis_conn_ack h r d) = h
packet_header (heartbeat h) = h
packet_header (heartbeat_ack h) = h
packet_header (session h f id d) = h
packet_header (session_ack h f n id d) = h
packet_header (dismiss h id d) = h
packet_header (dismiss_ack h id d) = h
packet_header (message h id d) = h
packet_header (message_ack h id d) = h
packet_header (stream h id bs) = h
packet_header (request h id d) = h
packet_header (response h id d) = h
packet_header (request_cancel h id t) = h
packet_header (register h id m) = h
packet_header (register_ack h id d) = h

-- ID: the identifier in the header.
unfoldable pub packet_id : Packet → ℕ
unfolding packet_header
packet_id p = (packet_header p).packet_id

-- Length: that of the header, which two structs override.
unfoldable pub packet_length : Packet → ℕ
unfolding packet_header
packet_length (stream h id bs) = length bs
packet_length (register h id m) = length m
packet_length p = (packet_header p).packet_len

-- SessionLayer
unfoldable pub session_layer : Packet → Bool
session_layer (session h f id d) = true
session_layer (session_ack h f negotiate_id id d) = true
session_layer (dismiss h id d) = true
session_layer (dismiss_ack h id d) = true
session_layer _ = false

-- Whether a packet is a SessionAbove: it has SessionID and SetSessionID.
unfoldable pub session_above : Packet → Bool
session_above (conn h f id d) = false
session_above (conn_ack h r id d) = false
session_above (dis_conn h) = false
session_above (dis_conn_ack h r d) = false
session_above (heartbeat h) = false
session_above (heartbeat_ack h) = false
session_above _ = true

-- ConnLayer
unfoldable pub conn_layer : Packet → Bool
conn_layer (conn h f id d) = true
conn_layer (conn_ack h r id d) = true
conn_layer (dis_conn h) = true
conn_layer (dis_conn_ack h r d) = true
conn_layer (heartbeat h) = true
conn_layer (heartbeat_ack h) = true
conn_layer _ = false
