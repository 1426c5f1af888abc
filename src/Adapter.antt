-- ===== src/Adapter.antt =====
-- internal/prod/io.go: the adapter that answers a node's requests with goroutines and timers.
pub mod Dispatch
pub mod Timers
pub mod Cancelled
pub mod Table
pub mod Loop
mod Tests
