-- ===== src/Codec.antt =====
-- src/persistence.rs: the binary codec of WAL payloads and of the collection's metadata file.
pub mod Decoder
pub mod Encoder
pub mod Reads
pub mod RoundTrip
pub mod Payload
