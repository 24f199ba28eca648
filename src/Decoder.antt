-- ===== src/Decoder.antt =====
-- pkg/decoder: what is read out of the parameters of a request and of a runtime's metadata. The
-- SCALE library, the hash functions and the hexadecimal conversion are parameters.
pub mod Era
pub mod Hex
pub mod Extrinsic
pub mod Hash
pub mod Storage
pub mod Events
