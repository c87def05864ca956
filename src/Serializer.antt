-- ===== src/Serializer.antt =====
-- packages/serializer/src: the byte-level primitives and the frame codec.
pub mod Varint
pub mod Frame
pub mod Zigzag
pub mod Text
pub mod Reader
pub mod Writer
pub mod Stream
mod Runs
