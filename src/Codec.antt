-- ===== src/Codec.antt =====
-- The `schema` codec of the state stream: packages/serializer/src/schema-codec.ts, the class table
-- of state-codec.ts and the field types of packages/types/src/wire.ts.
pub mod FieldType
pub mod Tables
pub mod Platform
pub mod Values
pub mod Coded
pub mod Ops
pub mod Encoder
pub mod Decoder
pub mod Session
mod Runs
