-- ===== src/RawMutex/Plain.antt =====
-- What holds of the mutex while its clients use `lock`, `try_lock` and `unlock`.
pub mod Defs
pub mod Excluded
pub mod Popping
pub mod Sleepers
pub mod Wakers
pub mod Sleeping
pub mod Waking
pub mod Safety
