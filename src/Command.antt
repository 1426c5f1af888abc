-- ===== src/Command.antt =====
-- cmd/election/main.go: the example command.
pub mod Peers
pub mod Listed
pub mod Http
pub mod Main
pub mod Exit
mod Tests
