-- ===== src/App/ProtocolCodec.antt =====
-- ProtocolCodec.hpp and ProtocolCodec.cpp, over a JSON library.
pub mod Decode
pub mod Encode
pub mod Requests
pub mod Messages
pub mod Events
pub mod Failures
pub mod Tests
