-- ===== src/Reader/Generated.antt =====
-- The reader and the generated functions together: what serializeWithHeader writes is a frame.
pub mod Rounding
pub mod Header
pub mod Message
pub mod Sequenced
pub mod Answers
pub mod Delivery
pub mod Callbacks
pub mod Termination
