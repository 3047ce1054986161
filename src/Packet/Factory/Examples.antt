-- ===== src/Packet/Factory/Examples.antt =====
-- Runs of the packet factory.
use geminio.Common.{ℕ, ◌+◌, ◌*◌, ◌^◌, ◌≡◌, refl, true, false, List, [], ◌∷◌, ◌++◌, some, ok, arith}
use geminio.Wire.{put_uint32, put_uint64}
use geminio.IdCounter.{IdCounter, inc, get_id}
use geminio.Packet.{Packet, session, type_byte, type_session}
use geminio.Packet.Header.{encode_header, framed}
use geminio.Packet.Encode.{encode, session_flag_byte}
use geminio.Packet.Reader.{decode_from_reader}
use geminio.Packet.RoundTrip.Peer.{as_received}
use geminio.Packet.Ids.{packet_id}
use geminio.Packet.Examples.{simple}
use geminio.Packet.Factory.{header, new_session_flags, session_data, with_new_id}
use geminio.Packet.Factory.Calls.{make, for_session, for_request_of}
use geminio.Packet.Factory.Products.{Sends, make-Sends, decode_from_reader-make}

abbrev counting : ℕ → IdCounter
counting n = record { counter = n; once = false; ids = some []; mode = inc }

get_id-counting : get_id 2 (counting 6) ≡ (ok (2 * 2 ^ 32 + 7), counting 7)
unfolding get_id
get_id-counting = refl

-- A request with an identifier of its own still moves the counter.
make-Sends_example :
    Sends simple
      (2 * 2 ^ 32 + 7)
      (counting 6)
      (counting 7)
      (for_request_of 40 3 [] (9 ∷ []))
      (make 2 (counting 6) (for_request_of 40 3 [] (9 ∷ [])))
make-Sends_example =
    make-Sends simple 2 (2 * 2 ^ 32 + 7) (counting 6) (counting 7) get_id-counting (omega arith)
      (for_request_of 40 3 [] (9 ∷ [])) (omega arith, omega arith, refl)

abbrev opening : Packet
opening =
    session (header type_session (2 * 2 ^ 32 + 7) 2) (new_session_flags true) 5
      (session_data (104 ∷ 105 ∷ []) [] [])

make-opening :
    make 2 (counting 6) (for_session 5 true (104 ∷ 105 ∷ []) []) ≡ (ok opening, counting 7)
unfolding make with_new_id get_id
make-opening = refl

abbrev opening_bytes : List ℕ
opening_bytes =
    1 ∷ 0x31 ∷ 0 ∷ 0 ∷ 0 ∷ 2 ∷ 0 ∷ 0 ∷ 0 ∷ 7 ∷ 0 ∷ 0 ∷ 0 ∷ 12 ∷ 0 ∷ 0x10 ∷ 0 ∷ 0 ∷ 0 ∷ 0 ∷ 0 ∷ 0 ∷ 0
    ∷ 5 ∷ 104 ∷ 105 ∷ []

encode-opening : encode simple opening ≡ ok opening_bytes
unfolding encode framed encode_header put_uint64 put_uint32 session_flag_byte type_byte
encode-opening = refl

decode_from_reader-make_example :
    (decode_from_reader simple (opening_bytes ++ 1 ∷ []) ≡ (ok (as_received 12 opening), 1 ∷ []))
    × (packet_id (as_received 12 opening) ≡ 2 * 2 ^ 32 + 7)
decode_from_reader-make_example =
    decode_from_reader-make simple 2 (2 * 2 ^ 32 + 7) (counting 6) (counting 7)
      (for_session 5 true (104 ∷ 105 ∷ []) []) opening (counting 7) opening_bytes (1 ∷ [])
      get_id-counting (omega arith) (omega arith, refl) make-opening encode-opening (omega arith)
