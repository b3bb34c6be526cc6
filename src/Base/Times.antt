-- ===== src/Base/Times.antt =====
-- Go's time.Time as nanoseconds since the zero time, and time.Duration as nanoseconds. The program
-- adds positive durations only. A clock is the list of answers that time.Now gives in turn: what
-- reads it several times takes the readings by position.
use Prim.Native.Nat.{ℕ, ◌+◌}
use mathlib.Core.Bool.{Bool}
use go_ddd_template.Base.Tests.{ltb, ◌==◌}

abbrev pub Time : Type 0
Time = ℕ

abbrev pub Duration : Type 0
Duration = ℕ

abbrev pub Clock : Type 0
Clock = ℕ → Time

-- The value of time.Time{}.
abbrev pub zero_time : Time
zero_time = 0

abbrev pub is_zero_time : Time → Bool
is_zero_time t = t == 0

-- t.Before(u)
abbrev pub before : Time → Time → Bool
before t u = ltb t u

-- The clock after `n` readings.
abbrev pub after : ℕ → Clock → Clock
after n clk i = clk (n + i)
