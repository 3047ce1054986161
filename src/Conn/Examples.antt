-- ===== src/Conn/Examples.antt =====
-- A machine that looks its transitions up, and runs of connections with it.
use geminio.Common.{
  ℕ, ◌+◌, ◌*◌, ◌^◌, ◌≡◌, refl, true, false, [], ◌∷◌, ◌++◌, some, none, ok, arith, List, Outcome,
}
use geminio.Machine.{registered}
use geminio.IdCounter.{IdCounter, inc, get_id}
use geminio.Wire.{put_uint32, put_uint64}
use geminio.Packet.{Packet, stream, heartbeat, type_byte, type_stream, type_heartbeat}
use geminio.Packet.Header.{encode_header, framed}
use geminio.Packet.Encode.{encode}
use geminio.Packet.Reader.{decode_from_reader}
use geminio.Packet.RoundTrip.Peer.{as_received}
use geminio.Packet.Ids.{conn_layer}
use geminio.Packet.RoundTrip.Received.{decode_from_reader-encode}
use geminio.Packet.Examples.{simple}
use geminio.Packet.Factory.{header, at_least_once}
use geminio.Conn.{initiator_side, recipient_side, Fsm, event_code, state_code, Moment, Conn}
use geminio.Conn.Client
use geminio.Conn.Server
use geminio.Conn.Loop.{
  new_server_conn, Step, stay, step, lost, read, read_packet, route, end_read, end_loop, on_read_in,
}
use geminio.Conn.Opening.{handshake}
use geminio.Conn.Handshake.{AreConned, IsRefused, connect_accepted, connect-IsRefused}
use geminio.Conn.Keeping.{lasting}
use geminio.Conn.Offline.{FinishesOnce, Steps-FinishesOnce}
use geminio.Conn.Reading.{read_pkt, read_packet-route, read_pkt_total, read_pkt-encode}
use geminio.Conn.Draining.{told, end_loop-told}
use geminio.Conn.Heartbeat.{quiet, IsAlive, exchange, exchange-IsAlive}
use geminio.Conn.Dismissal.{parting}
use geminio.Conn.Parting.{AreFinished, idle, close_finishes}

abbrev table_fsm : Fsm
table_fsm = record {
  emit_event = registered event_code state_code;
  emit_event_registered = λ t e s d. refl;
}

abbrev counting : ℕ → IdCounter
counting n = record { counter = n; once = false; ids = some []; mode = inc }

first_id : get_id 2 (counting 6) ≡ (ok (2 * 2 ^ 32 + 7), counting 7)
unfolding get_id
first_id = refl

second_id : get_id 2 (counting 7) ≡ (ok (2 * 2 ^ 32 + 8), counting 8)
unfolding get_id
second_id = refl

abbrev plain : Moment
plain = record {
  unix = 2;
  takes_done = true;
  write_ok = true;
  has_delegate = false;
  online_error = none;
  given_id = 0;
  given_error = none;
}

abbrev delegated : Moment
delegated = record plain { has_delegate = true }

abbrev unwilling : Moment
unwilling = record delegated { online_error = some (33 ∷ []) }

-- The server's own option and its delegate give no identifier.
connect_accepted_example : AreConned (2 * 2 ^ 32 + 7) (2 * 2 ^ 32 + 8) (104 ∷ []) true (
    handshake table_fsm plain delegated 18 18
      (Client.new_client_conn (counting 6) 3 (104 ∷ []))
      (Server.wait (new_server_conn (counting 0) (counting 7) 5 none)))
connect_accepted_example =
    connect_accepted table_fsm plain delegated 18 18 (2 * 2 ^ 32 + 7) (2 * 2 ^ 32 + 8) 5
      (counting 6) (counting 7) (counting 0) (counting 7) (counting 8) (104 ∷ []) 3 none first_id
      second_id refl refl refl refl

connect-IsRefused_example :
    IsRefused (2 * 2 ^ 32 + 7) (2 * 2 ^ 32 + 8) (2 * 2 ^ 32 + 8) (2 * 2 ^ 32 + 7) (
      handshake table_fsm plain unwilling 18 18
        (Client.new_client_conn (counting 6) 3 (104 ∷ []))
        (Server.wait (new_server_conn (counting 6) (counting 7) 5 none)))
connect-IsRefused_example =
    connect-IsRefused table_fsm plain unwilling 18 18 (2 * 2 ^ 32 + 7) (2 * 2 ^ 32 + 8)
      (2 * 2 ^ 32 + 8) (2 * 2 ^ 32 + 7) 5 33 [] (counting 6) (counting 7) (counting 8) (counting 6)
      (counting 7) (counting 7) (counting 8) (104 ∷ []) 3 none first_id second_id second_id first_id
      refl refl refl refl refl

abbrev client : Conn
client = Client.new_client_conn (counting 6) 0 []

abbrev server : Conn
server = new_server_conn (counting 7) (counting 0) 5 none

close_finishes_example : AreFinished (2 * 2 ^ 32 + 7) (2 * 2 ^ 32 + 8) (
    parting table_fsm plain plain
      (λ k. 20)
      (idle initiator_side client)
      (idle recipient_side server))
unfolding Client.new_client_conn Client.new_conn new_server_conn
close_finishes_example =
    close_finishes table_fsm plain plain (λ k. 20) initiator_side recipient_side (2 * 2 ^ 32 + 7)
      (2 * 2 ^ 32 + 8) (counting 7) (counting 8) client server first_id second_id refl refl

abbrev data_of : ℕ → Packet
data_of b = stream (header type_stream 7 at_least_once) 1 (b ∷ [])

abbrev pulse : Packet
pulse = heartbeat (header type_heartbeat 9 at_least_once)

abbrev busy : Conn
busy = record (new_server_conn (counting 7) (counting 0) 5 (some [])) {
  write_in = pulse ∷ data_of 3 ∷ [];
  write_out = data_of 4 ∷ pulse ∷ [];
}

-- The heartbeats are not told to failedCh.
end_loop-told_example :
    told (end_loop table_fsm plain busy) ≡ (some (data_of 3 ∷ data_of 4 ∷ []), [], [])
unfolding new_server_conn Client.new_conn conn_layer
end_loop-told_example = end_loop-told table_fsm plain busy [] refl

abbrev ended : Conn
ended = end_loop table_fsm plain (end_read server)

ended_step : Step table_fsm (end_read server) ended
unfolding on_read_in new_server_conn Client.new_conn end_read
ended_step = read plain refl refl

-- A server that loses its client before the first packet.
Steps-FinishesOnce_example : FinishesOnce (lasting ended)
unfolding Client.new_conn new_server_conn
Steps-FinishesOnce_example =
    Steps-FinishesOnce table_fsm server ended
      (step (end_read server) (step server stay lost) ended_step) (refl, λ f. cc, omega arith)

abbrev beat_bytes : List ℕ
beat_bytes = 1 ∷ 0x21 ∷ 0 ∷ 0 ∷ 0 ∷ 0 ∷ 0 ∷ 0 ∷ 0 ∷ 9 ∷ 0 ∷ 0 ∷ 0 ∷ 0 ∷ []

abbrev data_bytes : List ℕ
data_bytes =
    1 ∷ 0x61 ∷ 0 ∷ 0 ∷ 0 ∷ 0 ∷ 0 ∷ 0 ∷ 0 ∷ 7 ∷ 0 ∷ 0 ∷ 0 ∷ 9 ∷ 0 ∷ 0 ∷ 0 ∷ 0 ∷ 0 ∷ 0 ∷ 0 ∷ 1 ∷ 3
    ∷ []

encode-data : encode simple (data_of 3) ≡ ok data_bytes
unfolding encode framed encode_header put_uint64 put_uint32 type_byte
encode-data = refl

encode-pulse : encode simple pulse ≡ ok beat_bytes
unfolding encode framed encode_header put_uint64 put_uint32 type_byte
encode-pulse = refl

read_pkt-encode_example :
    read_pkt simple 3 (data_bytes ++ beat_bytes) client
    ≡ some (ok (end_read (route (as_received 0 pulse) (route (as_received 9 (data_of 3)) client))))
unfolding type_byte
read_pkt-encode_example =
    read_pkt-encode simple 3 (data_of 3 ∷ pulse ∷ []) (data_bytes ∷ beat_bytes ∷ []) client
      (
        ((refl, omega arith), omega arith),
        encode-data,
        omega arith,
        (((refl, omega arith), refl), encode-pulse, omega arith, tt),
      )
      (omega arith)

-- Bytes that are no packet.
read_pkt_total_example : (o : Outcome Conn) × (read_pkt simple 4 (1 ∷ 2 ∷ 3 ∷ []) client ≡ some o)
read_pkt_total_example = read_pkt_total simple 4 (1 ∷ 2 ∷ 3 ∷ []) client (omega arith)

abbrev beat_received : Packet
beat_received = as_received 0 pulse

decode-pulse : decode_from_reader simple beat_bytes ≡ (ok beat_received, [])
unfolding type_byte
decode-pulse =
    decode_from_reader-encode simple pulse beat_bytes [] ((refl, omega arith), refl) encode-pulse
      (omega arith)

read_packet-route_example : read_packet beat_received client ≡ route beat_received client
read_packet-route_example = read_packet-route simple beat_bytes [] beat_received client decode-pulse

exchange-IsAlive_example : IsAlive (2 * 2 ^ 32 + 7) server (
    exchange table_fsm plain delegated 0 0
      (record (quiet client) { side = initiator_side })
      (record (quiet server) { side = recipient_side }))
unfolding Client.new_client_conn Client.new_conn new_server_conn
exchange-IsAlive_example =
    exchange-IsAlive table_fsm plain delegated 0 0 (2 * 2 ^ 32 + 7) (counting 7) client server
      first_id refl refl
