-- ===== src/Intrusive.antt =====
-- intrusive_list/src/lib.rs: the doubly linked list whose nodes live with their owners.
pub mod Heap
pub mod Defs
pub mod Chain
pub mod Returns
pub mod Access
pub mod Push
pub mod Remove
pub mod Unlink
pub mod Pop
pub mod Concurrent
pub mod Dirty
pub mod Early
pub mod Fresh
pub mod Visit
pub mod Sweep
pub mod Scan
pub mod Fifo
