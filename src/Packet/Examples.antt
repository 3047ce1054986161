-- ===== src/Packet/Examples.antt =====
-- A simple payload codec in the place of encoding/json, and runs of the packet code with it.
use geminio.Common.{
  Bool, false, ℕ, ◌+◌, ◌*◌, ◌^◌, ◌≤◌, ◌<◌, ◌≡◌, refl, sym, List, [], ◌∷◌, ◌++◌, take, drop, length,
  take-append, drop-append, Option, some, none, ok, err, arith, ltb, if◌then◌else◌, true, ap, Error,
}
use geminio.Wire.{full, put_uint32, put_uint64}
use geminio.Packet.{
  Env, Json, PacketHeader, PacketType, ConnData, SessionData, MessageData, RegisterData, Packet,
  session, type_byte, type_of_byte, type_session_ack,
}
use geminio.Packet.Header.{encode_header, header_fields, framed}
use geminio.Packet.Encode.{encode, session_flag_byte}
use geminio.Packet.Decode.{decode, decoded}
use geminio.Packet.Reader.{decode_from_reader, max_decodable_packet_len}
use geminio.Packet.Writer.{Writer}
use geminio.Packet.RoundTrip.Headers.{header_bytes}
use geminio.Packet.RoundTrip.Peer.{as_received}
use geminio.Packet.RoundTrip.Received.{decode_from_reader-encode}
use geminio.Packet.RoundTrip.Decoded.{decode-encode}
use geminio.Packet.Safety.Reads.{panics}
use geminio.Packet.Safety.Panics.{panics-decode_from_reader}
use geminio.Packet.Safety.Consumption.{
  Consumes, wire_size, decode_from_reader-Consumes, decode_from_reader_conn_underflow,
}

-- Two texts, the first behind its length.
abbrev conn_unmarshal : List ℕ → Option ConnData
conn_unmarshal [] = none
conn_unmarshal (n ∷ bs) = some (record { meta = take n bs; error = drop n bs })

pub conn_unmarshal-marshal :
    (d : ConnData) (bs : List ℕ)
    → Unit {0}
    → ◌≡◌ {A = Option (List ℕ)} (some (length d.meta ∷ d.meta ++ d.error)) (some bs)
    → conn_unmarshal bs ≡ some d
conn_unmarshal-marshal d bs l e =
    let same : length d.meta ∷ d.meta ++ d.error ≡ bs = cc in
    rw (← same) (
      rw (
        take-append d.meta d.error (length d.meta) refl,
        drop-append d.meta d.error (length d.meta) refl,
      ))

abbrev conn_codec : Json ConnData
conn_codec = record {
  marshal = λ d. some (length d.meta ∷ d.meta ++ d.error);
  unmarshal = conn_unmarshal;
  Lossless = λ d. Unit {0};
  unmarshal-marshal = conn_unmarshal-marshal;
}

abbrev session_of : List ℕ → SessionData
session_of bs = record { meta = bs; error = []; peer = [] }

pub session_unmarshal-marshal :
    (d : SessionData) (bs : List ℕ)
    → d ≡ session_of d.meta
    → ◌≡◌ {A = Option (List ℕ)} (some d.meta) (some bs)
    → ◌≡◌ {A = Option SessionData} (some (session_of bs)) (some d)
session_unmarshal-marshal d bs l e = let same : d.meta ≡ bs = cc in rw (← same) (ap some (sym l))

abbrev session_codec : Json SessionData
session_codec = record {
  marshal = λ d. some d.meta;
  unmarshal = λ bs. some (session_of bs);
  Lossless = λ d. d ≡ session_of d.meta;
  unmarshal-marshal = session_unmarshal-marshal;
}

abbrev message_of : List ℕ → MessageData
message_of bs = record {
  key = [];
  value = bs;
  topic = [];
  custom = [];
  error = [];
  timeout = 0;
  deadline = 0;
  context_deadline = 0;
}

pub message_unmarshal-marshal :
    (d : MessageData) (bs : List ℕ)
    → d ≡ message_of d.value
    → ◌≡◌ {A = Option (List ℕ)} (some d.value) (some bs)
    → ◌≡◌ {A = Option MessageData} (some (message_of bs)) (some d)
message_unmarshal-marshal d bs l e = let same : d.value ≡ bs = cc in rw (← same) (ap some (sym l))

abbrev message_codec : Json MessageData
message_codec = record {
  marshal = λ d. some d.value;
  unmarshal = λ bs. some (message_of bs);
  Lossless = λ d. d ≡ message_of d.value;
  unmarshal-marshal = message_unmarshal-marshal;
}

pub register_unmarshal-marshal :
    (d : RegisterData) (bs : List ℕ)
    → Unit {0}
    → ◌≡◌ {A = Option (List ℕ)} (some d.error) (some bs)
    → ◌≡◌ {A = Option RegisterData} (some (record { error = bs })) (some d)
register_unmarshal-marshal d bs l e = let same : d.error ≡ bs = cc in rw (← same)

abbrev register_codec : Json RegisterData
register_codec = record {
  marshal = λ d. some d.error;
  unmarshal = λ bs. some (record { error = bs });
  Lossless = λ d. Unit {0};
  unmarshal-marshal = register_unmarshal-marshal;
}

abbrev small_root : ℕ → ℕ
small_root h = if ltb h 5 then 0 else if ltb h 80 then 1 else 2

pub small_root_below : (h : ℕ) → h ≤ 320 → 5 * small_root h ^ 4 ≤ h
small_root_below h b = ground arith

pub small_root_above : (h : ℕ) → h ≤ 320 → h < 5 * (small_root h + 1) ^ 4
small_root_above h b = ground arith

abbrev pub simple : Env
simple = record {
  conn_json = conn_codec;
  session_json = session_codec;
  message_json = message_codec;
  register_json = register_codec;
  fourth_root = small_root;
  fourth_root_below = small_root_below;
  fourth_root_above = small_root_above;
}

abbrev header_of : ℕ → PacketHeader
header_of typ = record { version = 1; typ = typ; packet_id = 7; packet_len = 0; cnss = 2 }

abbrev hello : Packet
hello =
    session (header_of 0x31) (record { priority = 1; qos = 0x35; session_id_acquire = true }) 3
      (session_of (104 ∷ 105 ∷ []))

abbrev hello_bytes : List ℕ
hello_bytes =
    1 ∷ 0x31 ∷ 0 ∷ 0 ∷ 0 ∷ 0 ∷ 0 ∷ 0 ∷ 0 ∷ 7 ∷ 0 ∷ 0 ∷ 0 ∷ 12 ∷ 1 ∷ 0x15 ∷ 0 ∷ 0 ∷ 0 ∷ 0 ∷ 0 ∷ 0 ∷ 0
    ∷ 3 ∷ 104 ∷ 105 ∷ []

encode-hello : encode simple hello ≡ ok hello_bytes
unfolding encode framed encode_header put_uint64 put_uint32 session_flag_byte
encode-hello = refl

-- What is not on the wire does not come back: the upper bits of the Qos, and Cnss.
received_hello :
    as_received 12 hello
    ≡ session
        (record { version = 1; typ = 0x31; packet_id = 7; packet_len = 12; cnss = 0 })
        (record { priority = 1; qos = 5; session_id_acquire = true })
        3
        (session_of (104 ∷ 105 ∷ []))
unfolding as_received
received_hello = refl

decode_from_reader-encode_example :
    decode_from_reader simple (hello_bytes ++ 1 ∷ []) ≡ (ok (as_received 12 hello), 1 ∷ [])
unfolding type_byte
decode_from_reader-encode_example =
    decode_from_reader-encode simple hello hello_bytes (1 ∷ [])
      ((refl, omega arith), omega arith, omega arith, refl) encode-hello (omega arith)

decode-encode_example :
    decode simple (record { elems = hello_bytes; spare = 0 ∷ [] })
    ≡ decoded (as_received 12 hello) 12
unfolding type_byte
decode-encode_example =
    decode-encode simple hello hello_bytes (0 ∷ [])
      ((refl, omega arith), omega arith, omega arith, refl) refl encode-hello (omega arith)

-- A session ack of one byte.
panics-decode_from_reader_example :
    panics (decode_from_reader simple (header_bytes (header_of 0x32) 1 ++ 9 ∷ [])).0 ≡ true
unfolding type_byte
panics-decode_from_reader_example =
    panics-decode_from_reader simple (header_of 0x32) type_session_ack 1 (9 ∷ [])
      (refl, omega arith) (omega arith)

decode_from_reader_conn_underflow_example :
    (x : Error) × (decode_from_reader simple (header_bytes (header_of 0x01) 9 ++ 9 ∷ 9 ∷ [])
      ≡ (err x, []))
unfolding type_byte
decode_from_reader_conn_underflow_example =
    decode_from_reader_conn_underflow simple (header_of 0x01) 9 (9 ∷ 9 ∷ []) (refl, omega arith)
      (omega arith) (omega arith)

decode_from_reader-Consumes_example :
    (h : PacketHeader) × (t : PacketType) × (header_fields (full (take 14 (hello_bytes ++ 1 ∷ [])))
      ≡ ok h)
    × (type_of_byte h.typ ≡ some t)
    × (h.packet_len ≤ max_decodable_packet_len)
    × Consumes (hello_bytes ++ 1 ∷ []) (1 ∷ []) (14 + wire_size t h.packet_len)
decode_from_reader-Consumes_example =
    decode_from_reader-Consumes simple (hello_bytes ++ 1 ∷ []) (1 ∷ []) (as_received 12 hello)
      decode_from_reader-encode_example

-- A writer that takes one byte at a time.
abbrev one_byte : List ℕ → List ℕ → ℕ × Bool × List ℕ
one_byte [] s = (0, false, s)
one_byte (b ∷ bs) s = (1, false, s ++ b ∷ [])

one_byte_takes :
    (bs s : List ℕ)
    → 1 ≤ length bs
    → (one_byte bs s).1 ≡ false
    → (1 ≤ (one_byte bs s).0)
      × ((one_byte bs s).0 ≤ length bs)
      × ((one_byte bs s).2 ≡ s ++ take (one_byte bs s).0 bs)
one_byte_takes [] s l e = absurd (omega arith)
one_byte_takes (b ∷ bs) s l e = (omega arith, omega arith, refl)

abbrev slow_writer : Writer
slow_writer = record {
  State = List ℕ;
  write = one_byte;
  taken = λ s. s;
  write_takes = one_byte_takes;
}
