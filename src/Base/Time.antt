-- ===== src/Base/Time.antt =====
-- Go's `time.Time` and `time.Duration`, in nanoseconds. A time counts from Go's zero time, so
-- `time.Time{}` is 0; differences are exact, where Go stops at about 292 years.
use Prim.Native.Nat.{ℕ, ◌*◌, ◌+◌, ◌-◌, ◌%◌, ◌^◌}
use mathlib.Core.Bool.{Bool}
use llm_proxy.Base.Tests.{ltb, if◌then◌else◌}
use llm_proxy.Base.Int.{ℤ, sub_ℕ, pos, negsuc}

abbrev pub Time : Type 0
Time = ℕ

abbrev pub Duration : Type 0
Duration = ℤ

abbrev pub nanos : ℕ
nanos = 1000000000

abbrev pub int64_top : ℕ
int64_top = 2 ^ 63

-- The 64-bit integer of these bits.
abbrev pub int64 : ℕ → ℤ
int64 bits = if ltb bits int64_top then pos bits else sub_ℕ bits (2 * int64_top)

-- time.Duration(n) * time.Second, for n seconds, which wraps around at 64 bits
abbrev pub seconds : ℤ → Duration
seconds (pos n) = int64 (n * nanos % (2 * int64_top))
seconds (negsuc n) = int64 ((2 * int64_top - (n + 1) * nanos % (2 * int64_top)) % (2 * int64_top))

-- now.Sub(t), which is time.Since(t) at the time `now`
abbrev pub since : Time → Time → Duration
since now t = sub_ℕ now t

-- t.Add(d) for a duration that is not negative
abbrev pub add_time : Time → ℕ → Time
add_time t d = t + d

-- a.Before(b), and so b.After(a)
abbrev pub before : Time → Time → Bool
before a b = ltb a b
