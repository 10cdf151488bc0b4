-- ===== src/MiniLock.antt =====
-- mini_lock/src/lib.rs: the small lock under each list, and how a thread goes through it.
pub mod Word
pub mod Thread
pub mod System
pub mod Schedule
pub mod Exclusion
pub mod Spec
pub mod Stack
pub mod Still
pub mod Change
pub mod Waking
