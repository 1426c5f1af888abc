-- ===== src/Sim/Tests.antt =====
-- internal/sim: sample heaps and runs, and the theorems at concrete inputs.
mod Heaps
mod Runs
