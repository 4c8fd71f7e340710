-- ===== src/Prelude/Instants.antt =====
-- Go's time.Time, as far as it goes through a number of seconds. An instant is its nanoseconds after
-- 1970, a point in seconds is a signed number; their arithmetic does not overflow.
use Prim.Native.Nat.{ℕ, ◌-◌, ◌*◌, ◌/◌, ◌%◌, ◌^◌, ◌<◌}
use mathlib.Core.Path.{◌≡◌}
use mathlib.Core.Bool.{Bool, true, false}
use native.Mathlib.Omega.{arith}
use meshp.Prelude.Int.{ℤ, pos, negsuc}
use meshp.Prelude.Tests.{ltb, if◌then◌else◌}

abbrev pub second : ℕ
second = 1000000000

-- uint64(t.Unix())
abbrev pub to_unix : ℕ → ℕ
to_unix t = (t / second) % 2 ^ 64

-- int64(n) of a uint64
abbrev pub to_int64 : ℕ → ℤ
to_int64 n = if ltb n (2 ^ 63) then pos n else negsuc (2 ^ 64 - 1 - n)

-- Whether an instant is after one given in seconds.
abbrev pub after : ℕ → ℤ → Bool
after now (pos s) = ltb (s * second) now
after now (negsuc s) = true

-- Whether an instant is before one given in seconds.
abbrev pub before : ℕ → ℤ → Bool
before now (pos s) = ltb now (s * second)
before now (negsuc s) = false

pub to_int64-to_unix : (t : ℕ) → t / second < 2 ^ 63 → to_int64 (to_unix t) ≡ pos (t / second)
to_int64-to_unix t h = ground arith
