-- ===== src/Wire.antt =====
-- src/wire.rs: the messages between peers and the download of a torrent's metadata, as functions
-- on the bytes that the socket carries. `Frame` has the framing and the handshake, `Download` the
-- loop of `fetch_metadata`, one message at a time.
pub mod Frame
pub mod FrameLaws
pub mod Download
pub mod Safety
pub mod Queue
pub mod QueueLaws
pub mod Fetch
pub mod FetchLaws
pub mod Ends
pub mod FetchEnds
pub mod Pieces
pub mod Serving
pub mod Served
mod Tests
