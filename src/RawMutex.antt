-- ===== src/RawMutex.antt =====
-- colock/src/mutex/raw_mutex.rs: the mutex, its state byte and its queue of sleepers.
pub mod Flags
pub mod Queue
pub mod Thread
pub mod System
pub mod Plain
pub mod Schedule
pub mod Hazards
pub mod Poller
pub mod Timed
pub mod Tasks
pub mod Mixed
pub mod Deadline
