-- ===== src/App.antt =====
-- include/buzzweb/app and src/app: the use cases, the dispatcher of control messages and the codec.
pub mod Result
pub mod RoomServiceTypes
pub mod RoomService
pub mod Messages
pub mod ControlDispatcher
pub mod Json
pub mod ProtocolCodec
