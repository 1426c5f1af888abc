-- ===== src/Sim/Clock.antt =====
-- internal/sim/clock.go: the virtual clock. A time is counted from the start of the simulation.
use election_go.Base.{ℕ, ◌+◌, ◌-◌, ◌≡◌, ltb, arith, if◌then◌else◌}

-- A `time.Duration` with its sign.
pub data Duration : Type 0 where
  forward back : ℕ → Duration

-- `Time.Sub`
abbrev pub sub : ℕ → ℕ → Duration
sub t u = if ltb t u then back (u - t) else forward (t - u)

-- `Advance` adds the duration, and goes back by a negative one. No time is before the start.
abbrev pub advance : Duration → ℕ → ℕ
advance (forward d) now = now + d
advance (back d) now = now - d

pub advance-sub : (t now : ℕ) → advance (sub t now) now ≡ t
advance-sub t now = ground arith
