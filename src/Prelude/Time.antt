-- ===== src/Prelude/Time.antt =====
-- Go's `time`: an instant is the number of nanoseconds since the zero time, a duration an int64
-- number of nanoseconds.
use Prim.Native.Nat.{◌+◌, ◌-◌, ◌*◌}
use mathlib.Core.Path.{◌≡◌}
use mathlib.Core.Logic.{◌↔◌}
use native.Mathlib.Omega.{arith}
use mathlib.Core.Bool.{Bool, false}
use velkir.Prelude.Int.{
  ◌≤ℤ◌, ◌<ℤ◌, ◌<ℤ◌, ◌≤ℤ◌, ℤ, pos, negsuc, ◌+ℤ◌, ◌-ℤ◌, ltb_ℤ, eq_ℤ, min_ℤ, max_ℤ,
}

abbrev pub Time : Type 0
Time = ℤ

abbrev pub Duration : Type 0
Duration = ℤ

abbrev pub second : Duration
second = pos 1_000_000_000

-- A count of seconds as a duration: `time.Duration(n) * time.Second`, for a 32-bit count, so that
-- the product fits.
unfoldable pub scale : ℤ → Duration
scale (pos n) = pos (n * 1_000_000_000)
scale (negsuc n) = negsuc ((n + 1) * 1_000_000_000 - 1)

abbrev pub zero_time : Time
zero_time = pos 0

abbrev pub is_zero : Time → Bool
is_zero t = eq_ℤ t zero_time

abbrev pub max_duration : Duration
max_duration = pos 9_223_372_036_854_775_807

abbrev pub min_duration : Duration
min_duration = negsuc 9_223_372_036_854_775_807

-- `t.Sub(u)`: the difference, held at the ends of the range of a duration.
unfoldable pub time_sub : Time → Time → Duration
time_sub t u = max_ℤ min_duration (min_ℤ max_duration (t -ℤ u))

-- `t.Add(d)`.
abbrev pub time_add : Time → Duration → Time
time_add t d = t +ℤ d

abbrev pub before : Time → Time → Bool
before t u = ltb_ℤ t u

abbrev pub after : Time → Time → Bool
after t u = ltb_ℤ u t

-- A bound below the longest duration does not see where the difference is held.
pub time_sub_le :
    (t u : Time) (d : Duration)
    → pos 0 ≤ℤ d
    → d <ℤ max_duration
    → (time_sub t u ≤ℤ d) ↔ (t -ℤ u ≤ℤ d)
unfolding time_sub
time_sub_le t u d lo hi = (ground arith, ground arith)

-- A difference that reaches a positive bound reaches it before it is held.
pub time_sub_ge :
    (t u : Time) (d : Duration) → pos 0 <ℤ d → ltb_ℤ (time_sub t u) d ≡ false → d ≤ℤ t -ℤ u
unfolding time_sub
time_sub_ge t u d lo h = ground (arith, h)
