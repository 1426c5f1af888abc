-- ===== src/Node/Tests.antt =====
-- election.go: sample runs, and the theorems at concrete inputs.
mod Machine
mod Samples
mod Runs
mod Ballots
mod Reports
