-- ===== src/Net.antt =====
-- include/buzzweb/net and src/net: the sessions of the clients and what runs them.
pub mod SessionRegistry
pub mod WriteQueue
pub mod Session
pub mod Listener
pub mod EventLoop
pub mod Connection
pub mod System
pub mod Server
pub mod Tests
