-- ===== src/Prelude/Int.antt =====
-- Signed steps, as an `int` argument gives them. `negsuc n` is -(n + 1).
use Prim.Native.Nat.{ℕ, ◌+◌, ◌-◌}
use mathlib.Core.Bool.{Bool, true}
use ime_fcitx.Prelude.Tests.{ltb, if◌then◌else◌}

pub data ℤ : Type 0 where
  pos : ℕ → ℤ
  negsuc : ℕ → ℤ

-- `n + d`
abbrev pub shifted : ℕ → ℤ → ℤ
shifted n (pos d) = pos (n + d)
shifted n (negsuc d) = if ltb d n then pos (n - (d + 1)) else negsuc (d - n)

-- `z < n`
abbrev pub is_below : ℤ → ℕ → Bool
is_below (pos k) n = ltb k n
is_below (negsuc k) n = true

-- `std::clamp(z, 0, hi)`
abbrev pub clamped : ℤ → ℕ → ℕ
clamped (pos k) hi = if ltb hi k then hi else k
clamped (negsuc k) hi = 0

-- The value, where it is not negative.
abbrev pub magnitude : ℤ → ℕ
magnitude (pos k) = k
magnitude (negsuc k) = 0
