-- ===== src/Examples.antt =====
-- The theorems at concrete inputs, and runs of the code.
mod Async
mod Mixed
mod Count
mod Guards
mod Lists
mod Mini
mod Mutex
mod Park
mod Rounds
mod Small
mod Hand
