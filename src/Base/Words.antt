-- ===== src/Base/Words.antt =====
-- Go's unsigned counters, with their wrap-around, and its times.
use Prim.Native.Nat.{ℕ, ◌%◌, ◌^◌, ◌≤◌}
use mathlib.Core.List.{List, [], ◌∷◌}

abbrev pub u32 : ℕ → ℕ
u32 n = n % 2 ^ 32

abbrev pub u64 : ℕ → ℕ
u64 n = n % 2 ^ 64

-- `time.Duration`, in nanoseconds; the model's durations are not negative.
abbrev pub Duration : Type 0
Duration = ℕ

-- `time.Time`, in nanoseconds from Go's zero time.
abbrev pub Time : Type 0
Time = ℕ

abbrev pub millisecond : Duration
millisecond = 1000000

abbrev pub second : Duration
second = 1000000000

-- Each time is at or after the one before it.
abbrev pub IsOrdered : Time → List Time → Type 0
IsOrdered from [] = Unit {0}
IsOrdered from (t ∷ ts) = (from ≤ t) × IsOrdered t ts
