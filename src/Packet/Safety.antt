-- ===== src/Packet/Safety.antt =====
-- What DecodeFromReader does on any input, well formed or not.
pub mod Reads
pub mod Fields
pub mod Panics
pub mod Consumption
pub mod Sizes
