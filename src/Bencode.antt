-- ===== src/Bencode.antt =====
-- src/bencode.rs: values, the decoder over a byte slice and an index, and the encoder.
pub mod Value
pub mod Decode
pub mod Encode
pub mod Cursor
pub mod Text
pub mod Atoms
pub mod Append
pub mod RoundTrip
pub mod Collect
pub mod Sound
mod Tests
