-- ===== src/Packet/Factory/Products.antt =====
-- What the calls of a packet factory give, and that a peer can receive it.
use geminio.Common.{
  ℕ, ◌+◌, ◌-◌, ◌^◌, ◌≤◌, ◌<◌, ◌≡◌, refl, Bool, true, false, List, [], ◌++◌, length, Option, none,
  some, arith, ◌∙◌, ok, err, panic, if◌then◌else◌,
}
use geminio.IdCounter.{IdCounter, get_id}
use geminio.Packet.{
  Env, Packet, conn, conn_ack, dis_conn, dis_conn_ack, heartbeat, heartbeat_ack, session,
  session_ack, dismiss, dismiss_ack, message, message_ack, stream, request, response,
  request_cancel, register, register_ack,
}
use geminio.Packet.Ids.{packet_id}
use geminio.Packet.Encode.{encode}
use geminio.Packet.Reader.{decode_from_reader, max_decodable_packet_len}
use geminio.Packet.RoundTrip.Flags.{IsNamedHeartbeat}
use geminio.Packet.RoundTrip.Peer.{as_received, IsSendable, IsId}
use geminio.Packet.RoundTrip.Received.{decode_from_reader-encode}
use geminio.Packet.Factory.{
  Made, conn_data, error_text, session_data, message_data, with_new_id, set_session_id,
  set_packet_id,
}
use geminio.Packet.Factory.Calls.{
  Call, make, for_conn, for_conn_ack, for_dis_conn, for_dis_conn_ack, for_heartbeat,
  for_heartbeat_ack, for_session, for_session_ack, for_dismiss, for_dismiss_ack, for_message,
  for_message_of, for_message_in, for_message_ack, for_message_ack_in, for_request,
  for_request_cancel, for_request_of, for_response, for_stream, for_stream_in, for_register,
  for_register_in, for_register_ack, for_register_ack_in,
}

-- The identifier that a call is given, where it is given one.
abbrev pub given_id : Call → Option ℕ
given_id (for_conn_ack id client_id e) = some id
given_id (for_dis_conn_ack id e) = some id
given_id (for_heartbeat_ack id) = some id
given_id (for_session_ack id n s e) = some id
given_id (for_dismiss_ack id s e) = some id
given_id (for_message_of id s key value) = some id
given_id (for_message_ack id e) = some id
given_id (for_message_ack_in s id e) = some id
given_id (for_request_cancel id s cancel_type) = some id
given_id (for_request_of id s key value) = some id
given_id (for_response id key value e) = some id
given_id (for_register_ack id e) = some id
given_id (for_register_ack_in s id e) = some id
given_id _ = none

-- Whether a call draws an identifier from the counter. Two of those that are given one do so too,
-- and throw theirs away.
abbrev pub draws : Call → Bool
draws (for_message_of id s key value) = true
draws (for_request_of id s key value) = true
draws call = elim (given_id call) [ none ↦ true | some id ↦ false ]

-- What the arguments must satisfy: identifiers of 64 bits, a cancel type of 16, a named heartbeat,
-- and payload data that JSON carries.
abbrev pub IsAllowed : Env → Call → Type 0
IsAllowed env (for_conn wanted acquire beat meta) =
    IsNamedHeartbeat beat × IsId wanted × env.conn_json.Lossless (conn_data meta none)
IsAllowed env (for_conn_ack id client_id e) =
    IsId id × IsId client_id × env.conn_json.Lossless (conn_data [] e)
IsAllowed env (for_dis_conn) = Unit {0}
IsAllowed env (for_dis_conn_ack id e) = IsId id × env.conn_json.Lossless (conn_data [] e)
IsAllowed env (for_heartbeat) = Unit {0}
IsAllowed env (for_heartbeat_ack id) = IsId id
IsAllowed env (for_session n acquire meta peer) =
    IsId n × env.session_json.Lossless (session_data meta [] peer)
IsAllowed env (for_session_ack id n s e) =
    IsId id × IsId n × IsId s × env.session_json.Lossless (session_data [] (error_text e) [])
IsAllowed env (for_dismiss s) = IsId s × env.session_json.Lossless (session_data [] [] [])
IsAllowed env (for_dismiss_ack id s e) =
    IsId id × IsId s × env.session_json.Lossless (session_data [] (error_text e) [])
IsAllowed env (for_message key value) = env.message_json.Lossless (message_data key value [])
IsAllowed env (for_message_of id s key value) =
    IsId id × IsId s × env.message_json.Lossless (message_data key value [])
IsAllowed env (for_message_in s key value custom) =
    IsId s × env.message_json.Lossless (message_data key value [])
IsAllowed env (for_message_ack id e) =
    IsId id × env.message_json.Lossless (message_data [] [] (error_text e))
IsAllowed env (for_message_ack_in s id e) =
    IsId s × IsId id × env.message_json.Lossless (message_data [] [] (error_text e))
IsAllowed env (for_request key value) = env.message_json.Lossless (message_data key value [])
IsAllowed env (for_request_cancel id s cancel_type) = IsId id × IsId s × (cancel_type < 2 ^ 16)
IsAllowed env (for_request_of id s key value) =
    IsId id × IsId s × env.message_json.Lossless (message_data key value [])
IsAllowed env (for_response id key value e) =
    IsId id × env.message_json.Lossless (message_data key value (error_text e))
IsAllowed env (for_stream bytes) = Unit {0}
IsAllowed env (for_stream_in s bytes) = IsId s
IsAllowed env (for_register method) = Unit {0}
IsAllowed env (for_register_in s method) = IsId s
IsAllowed env (for_register_ack id e) =
    IsId id × env.register_json.Lossless (record { error = error_text e })
IsAllowed env (for_register_ack_in s id e) =
    IsId s × IsId id × env.register_json.Lossless (record { error = error_text e })

-- A call's result: the packet can be sent and has the given identifier or the drawn one, and the
-- counter has moved just when the call draws.
abbrev pub Sends : Env → ℕ → IdCounter → IdCounter → Call → Made → Type 0
Sends env i c d call (ok p, after) =
    IsSendable env p
    × (packet_id p ≡ elim (given_id call) [ none ↦ i | some id ↦ id ])
    × (after ≡ (if draws call then d else c))
Sends env i c d call (err x, after) = ⊥
Sends env i c d call (panic, after) = ⊥

module _ (env : Env) (u i : ℕ) (c d : IdCounter) (e : get_id u c ≡ (ok i, d)) (hi : IsId i) where
  -- A call with allowed arguments, on a counter whose GetID gives `i` and leaves `d`, makes a packet
  -- that can be sent. Its identifier is the given one, or else `i`; the counter becomes `d` if the
  -- call draws, and stays otherwise.
  pub make-Sends : (call : Call) → IsAllowed env call → Sends env i c d call (make u c call)
  unfolding make set_session_id set_packet_id packet_id with_new_id
  make-Sends (for_conn wanted acquire beat meta) (hb, hw, l) =
      rw e (((refl, hi), hb, hw, l), refl, refl)
  make-Sends (for_conn_ack id s x) (h, hs, l) = (((refl, h), hs, l), refl, refl)
  make-Sends (for_dis_conn) h = rw e (((refl, hi), refl), refl, refl)
  make-Sends (for_dis_conn_ack id x) (h, l) = (((refl, h), l), refl, refl)
  make-Sends (for_heartbeat) h = rw e (((refl, hi), refl), refl, refl)
  make-Sends (for_heartbeat_ack id) h = (((refl, h), refl), refl, refl)
  make-Sends (for_session n acquire meta peer) (hn, l) =
      rw e (((refl, hi), omega arith, hn, l), refl, refl)
  make-Sends (for_session_ack id n s x) (h, hn, hs, l) = (((refl, h), hn, hs, l), refl, refl)
  make-Sends (for_dismiss s) (hs, l) = rw e (((refl, hi), hs, l), refl, refl)
  make-Sends (for_dismiss_ack id s x) (h, hs, l) = (((refl, h), hs, l), refl, refl)
  make-Sends (for_message key value) l = rw e (((refl, hi), omega arith, l), refl, refl)
  make-Sends (for_message_of id s key value) (h, hs, l) = rw e (((refl, h), hs, l), refl, refl)
  make-Sends (for_message_in s key value custom) (hs, l) = rw e (((refl, hi), hs, l), refl, refl)
  make-Sends (for_message_ack id x) (h, l) = (((refl, h), omega arith, l), refl, refl)
  make-Sends (for_message_ack_in s id x) (hs, h, l) = (((refl, h), hs, l), refl, refl)
  make-Sends (for_request key value) l = rw e (((refl, hi), omega arith, l), refl, refl)
  make-Sends (for_request_cancel id s t) (h, hs, ht) = (((refl, h), hs, ht), refl, refl)
  make-Sends (for_request_of id s key value) (h, hs, l) = rw e (((refl, h), hs, l), refl, refl)
  make-Sends (for_response id key value x) (h, l) = (((refl, h), omega arith, l), refl, refl)
  make-Sends (for_stream bytes) h = rw e (((refl, hi), omega arith), refl, refl)
  make-Sends (for_stream_in s bytes) hs = rw e (((refl, hi), hs), refl, refl)
  make-Sends (for_register method) h = rw e (((refl, hi), omega arith), refl, refl)
  make-Sends (for_register_in s method) hs = rw e (((refl, hi), hs), refl, refl)
  make-Sends (for_register_ack id x) (h, l) = (((refl, h), omega arith, l), refl, refl)
  make-Sends (for_register_ack_in s id x) (hs, h, l) = (((refl, h), hs, l), refl, refl)

packet_id-as_received : (n : ℕ) (p : Packet) → packet_id (as_received n p) ≡ packet_id p
unfolding packet_id as_received
packet_id-as_received n (conn h f id d) = refl
packet_id-as_received n (conn_ack h r id d) = refl
packet_id-as_received n (dis_conn h) = refl
packet_id-as_received n (dis_conn_ack h r d) = refl
packet_id-as_received n (heartbeat h) = refl
packet_id-as_received n (heartbeat_ack h) = refl
packet_id-as_received n (session h f id d) = refl
packet_id-as_received n (session_ack h f m id d) = refl
packet_id-as_received n (dismiss h id d) = refl
packet_id-as_received n (dismiss_ack h id d) = refl
packet_id-as_received n (message h id d) = refl
packet_id-as_received n (message_ack h id d) = refl
packet_id-as_received n (stream h id bs) = refl
packet_id-as_received n (request h id d) = refl
packet_id-as_received n (response h id d) = refl
packet_id-as_received n (request_cancel h id t) = refl
packet_id-as_received n (register h id m) = refl
packet_id-as_received n (register_ack h id d) = refl

-- Whatever an allowed call makes, once it is encoded within the reader's cap, reaches a peer that
-- reads it from a stream: the peer holds `as_received` of it, under the given identifier or the
-- drawn one, and the reader stops where the packet ends.
pub decode_from_reader-make :
    (env : Env) (u i : ℕ) (c d : IdCounter) (call : Call) (p : Packet) (after : IdCounter)
    (bs rest : List ℕ)
    → get_id u c ≡ (ok i, d)
    → IsId i
    → IsAllowed env call
    → make u c call ≡ (ok p, after)
    → encode env p ≡ ok bs
    → length bs ≤ 14 + max_decodable_packet_len
    → (decode_from_reader env (bs ++ rest) ≡ (ok (as_received (length bs - 14) p), rest))
      × (packet_id (as_received (length bs - 14) p)
          ≡ elim (given_id call) [ none ↦ i | some id ↦ id ])
decode_from_reader-make env u i c d call p after bs rest e hi a m w b =
    let (s, same, moved) : Sends env i c d call (ok p, after) =
      rw m at (make-Sends env u i c d e hi call a) in
    (decode_from_reader-encode env p bs rest s w b, packet_id-as_received (length bs - 14) p ∙ same)
