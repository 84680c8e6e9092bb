-- ===== src/Wire/Codec.antt =====
-- What a serializer of binary_serialization.hpp promises: the bits that it appends for a value, and
-- that it reads the value back from them wherever they stand.
pub mod Laws
pub mod Scalars
pub mod Sequences
pub mod Maps
