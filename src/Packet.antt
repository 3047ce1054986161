-- ===== src/Packet.antt =====
-- packet/packet.go, packet_conn.go, packet_sess.go and packet_data.go: the data of a packet.
-- A Go []byte or string is a list of bytes; an unsigned integer is a number below its power of two.
pub mod Header
pub mod Body
pub mod Ids
pub mod Encode
pub mod Decode
pub mod Reader
pub mod Writer
pub mod RoundTrip
pub mod Factory
pub mod Safety
pub mod Examples
use geminio.Common.{
  ℕ, Bool, Option, none, some, ◌≡◌, List, ◌==◌, if◌then◌else◌, ◌≤◌, ◌<◌, ◌*◌, ◌+◌, ◌^◌,
}

-- The constants of `Type` that the decoders know.
pub data PacketType : Type 0 where
  type_conn type_conn_ack type_dis_conn type_dis_conn_ack : PacketType
  type_heartbeat type_heartbeat_ack : PacketType
  type_session type_session_ack type_dismiss type_dismiss_ack : PacketType
  type_message type_message_ack type_stream : PacketType
  type_request type_response type_request_cancel : PacketType
  type_register type_register_ack : PacketType

-- The byte of each constant.
unfoldable pub type_byte : PacketType → ℕ
type_byte type_conn = 0x01
type_byte type_conn_ack = 0x02
type_byte type_dis_conn = 0x11
type_byte type_dis_conn_ack = 0x12
type_byte type_heartbeat = 0x21
type_byte type_heartbeat_ack = 0x22
type_byte type_session = 0x31
type_byte type_session_ack = 0x32
type_byte type_dismiss = 0x41
type_byte type_dismiss_ack = 0x42
type_byte type_message = 0x51
type_byte type_message_ack = 0x52
type_byte type_stream = 0x61
type_byte type_request = 0x71
type_byte type_response = 0x72
type_byte type_request_cancel = 0x73
type_byte type_register = 0x81
type_byte type_register_ack = 0x82

-- The cases of the decoders' `switch pktHdr.Typ`, in its order; `none` is `default`.
unfoldable pub type_of_byte : ℕ → Option PacketType
type_of_byte b =
    if b == 0x01
    then some type_conn
    else if b == 0x02
    then some type_conn_ack
    else if b == 0x11
    then some type_dis_conn
    else if b == 0x12
    then some type_dis_conn_ack
    else if b == 0x21
    then some type_heartbeat
    else if b == 0x22
    then some type_heartbeat_ack
    else if b == 0x31
    then some type_session
    else if b == 0x32
    then some type_session_ack
    else if b == 0x41
    then some type_dismiss
    else if b == 0x42
    then some type_dismiss_ack
    else if b == 0x51
    then some type_message
    else if b == 0x52
    then some type_message_ack
    else if b == 0x61
    then some type_stream
    else if b == 0x81
    then some type_register
    else if b == 0x82
    then some type_register_ack
    else if b == 0x71
    then some type_request
    else if b == 0x72
    then some type_response
    else if b == 0x73
    then some type_request_cancel
    else none

-- `cnss` is not on the wire.
pub record PacketHeader : Type 0 where
  pub version : ℕ  -- byte
  pub typ : ℕ  -- byte
  pub packet_id : ℕ  -- uint64
  pub packet_len : ℕ  -- uint32
  pub cnss : ℕ  -- byte

pub record ConnFlags : Type 0 where
  pub heartbeat : ℕ  -- a time.Duration; negative values are left out
  pub client_id_acquire : Bool
  pub packet_id_acquire : Bool
  pub retain : Bool
  pub clear : Bool

pub record ConnData : Type 0 where
  pub meta : List ℕ
  pub error : List ℕ

pub record SessionFlags : Type 0 where
  pub priority : ℕ  -- uint8
  pub qos : ℕ  -- int8, as its bit pattern
  pub session_id_acquire : Bool

pub record SessionData : Type 0 where
  pub meta : List ℕ
  pub error : List ℕ
  pub peer : List ℕ

-- The times are instants: nanoseconds since the zero time.Time.
pub record MessageData : Type 0 where
  pub key : List ℕ
  pub value : List ℕ
  pub topic : List ℕ
  pub custom : List ℕ
  pub error : List ℕ
  pub timeout : ℕ
  pub deadline : ℕ
  pub context_deadline : ℕ

pub record RegisterData : Type 0 where
  pub error : List ℕ

-- One constructor for each packet struct, with the fields in their order. The pointers to payload
-- data are never nil: every constructor of factory.go and every decoder sets them.
pub data Packet : Type 0 where
  conn : PacketHeader → ConnFlags → ℕ → ConnData → Packet
  conn_ack : PacketHeader → ℕ → ℕ → ConnData → Packet
  dis_conn : PacketHeader → Packet
  dis_conn_ack : PacketHeader → ℕ → ConnData → Packet
  heartbeat : PacketHeader → Packet
  heartbeat_ack : PacketHeader → Packet
  session : PacketHeader → SessionFlags → ℕ → SessionData → Packet
  session_ack : PacketHeader → SessionFlags → ℕ → ℕ → SessionData → Packet
  dismiss : PacketHeader → ℕ → SessionData → Packet
  dismiss_ack : PacketHeader → ℕ → SessionData → Packet
  message : PacketHeader → ℕ → MessageData → Packet
  message_ack : PacketHeader → ℕ → MessageData → Packet
  stream : PacketHeader → ℕ → List ℕ → Packet
  request : PacketHeader → ℕ → MessageData → Packet
  response : PacketHeader → ℕ → MessageData → Packet
  request_cancel : PacketHeader → ℕ → ℕ → Packet
  register : PacketHeader → ℕ → List ℕ → Packet
  register_ack : PacketHeader → ℕ → RegisterData → Packet

-- encoding/json on one payload type. Not every value survives it (text that is not UTF-8 does
-- not): `Lossless` is the set of those that do.
pub record Json (D : Type 0) : Type 1 where
  pub marshal : D → Option (List ℕ)
  pub unmarshal : List ℕ → Option D
  pub Lossless : D → Type 0
  pub unmarshal-marshal :
      (d : D) (bs : List ℕ) → Lossless d → marshal d ≡ some bs → unmarshal bs ≡ some d

-- What the packet code calls and does not define: encoding/json at its four payload types, and
-- `byte(math.Pow(float64(h)/5, 0.25))`, for the named heartbeats the integral part of a fourth root.
pub record Env : Type 1 where
  pub conn_json : Json ConnData
  pub session_json : Json SessionData
  pub message_json : Json MessageData
  pub register_json : Json RegisterData
  pub fourth_root : ℕ → ℕ
  pub fourth_root_below : (h : ℕ) → h ≤ 320 → 5 * fourth_root h ^ 4 ≤ h
  pub fourth_root_above : (h : ℕ) → h ≤ 320 → h < 5 * (fourth_root h + 1) ^ 4
