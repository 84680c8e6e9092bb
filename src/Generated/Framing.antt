-- ===== src/Generated/Framing.antt =====
-- What the generated functions put on the wire and read back from it.
pub mod Layout
pub mod Write
pub mod Read
pub mod Sequenced
pub mod Request
