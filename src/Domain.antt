-- ===== src/Domain.antt =====
-- include/buzzweb/domain and src/domain: participants, rooms and the storage of rooms.
pub mod Participant
pub mod Room
pub mod RoomRepository
pub mod InMemory
pub mod Tests
