-- ===== src/Mutex.antt =====
-- colock/src/mutex/mod.rs: `Mutex<T>`, over what it asks of its raw lock.
pub mod Raw
pub mod Guard
pub mod Balance
pub mod Strong
pub mod Solo
pub mod Tests
