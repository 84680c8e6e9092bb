-- ===== src/Generated.antt =====
-- The C++ code that internal/cpp_protocol.cpp generates for a protocol.
pub mod Metadata
pub mod Message
pub mod Request
pub mod Response
pub mod Payload
pub mod Registration
pub mod Callback
pub mod Forward
pub mod Framing
