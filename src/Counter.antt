-- ===== src/Counter.antt =====
-- The test `do_lots_and_lots` of colock/src/mutex/mod.rs and mini_lock/src/lib.rs: threads that
-- add to one number under a lock, a step of the lock or an access to the number at a time.
pub mod Exclusive
pub mod Client
pub mod Sum
pub mod Locks
pub mod Async
