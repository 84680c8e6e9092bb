-- ===== src/Wire.antt =====
-- binary_serialization.hpp and the bit buffers under it.
pub mod Bits
pub mod Buffer
pub mod Ballotin
pub mod Ordered
pub mod Serializer
pub mod Codec
pub mod Advance
