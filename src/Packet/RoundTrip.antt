-- ===== src/Packet/RoundTrip.antt =====
-- What a peer decodes of an encoded packet.
pub mod Headers
pub mod Fields
pub mod Flags
pub mod Payloads
pub mod Peer
pub mod Frames
pub mod ReadFrames
pub mod Received
pub mod DecodeFrames
pub mod Decoded
use geminio.Common.{ℕ, List}
use geminio.Packet.{PacketHeader}
