-- ===== src/Prelude/Lists.antt =====
-- Lists measured and indexed by native numbers, under the library's names.
use Prim.Native.Nat.{ℕ, zero, suc, ◌+◌}
use Prim.Native.Char.{code}
use Prim.Native.String.{String}
use mathlib.Core.Bool.{Bool, true, false, ◌||◌, ◌&&◌}
use mathlib.Core.List.{List, [], ◌∷◌, ◌++◌}
use mathlib.Core.Path.{◌≡◌, refl}
use native.Mathlib.Omega.{arith}
use mathlib.Core.Option.{Option, none, some}
use ime_fcitx.Prelude.Tests.{◌==◌}

-- The code points of a text.
abbrev pub codes : String → List ℕ
codes String.[] = []
codes (String.◌∷◌ c s) = code c ∷ codes s

module _ {ℓ} {A : Type ℓ} where
  abbrev pub length : List A → ℕ
  length [] = 0
  length (x ∷ xs) = suc (length xs)

  abbrev pub get_elem? : List A → ℕ → Option A
  get_elem? [] i = none
  get_elem? (x ∷ xs) zero = some x
  get_elem? (x ∷ xs) (suc i) = get_elem? xs i

  abbrev pub take : ℕ → List A → List A
  take zero xs = []
  take (suc n) [] = []
  take (suc n) (x ∷ xs) = x ∷ take n xs

  abbrev pub drop : ℕ → List A → List A
  drop zero xs = xs
  drop (suc n) [] = []
  drop (suc n) (x ∷ xs) = drop n xs

  abbrev pub All {κ} : (A → Type κ) → List A → Type κ
  All P [] = Unit
  All P (x ∷ xs) = P x × All P xs

  pub length-append : (xs ys : List A) → length (xs ++ ys) ≡ length xs + length ys
  length-append [] ys = omega arith
  length-append (x ∷ xs) ys = omega (arith, length-append xs ys)

-- Membership in a set of code points.
unfoldable pub contains : List ℕ → ℕ → Bool
contains [] c = false
contains (x ∷ xs) c = c == x || contains xs c

-- `==` of two strings of code units.
unfoldable pub eq_codes : List ℕ → List ℕ → Bool
eq_codes [] [] = true
eq_codes [] (_ ∷ _) = false
eq_codes (_ ∷ _) [] = false
eq_codes (x ∷ xs) (y ∷ ys) = x == y && eq_codes xs ys

pub eq_codes→eq : (xs ys : List ℕ) → eq_codes xs ys ≡ true → xs ≡ ys
unfolding eq_codes
eq_codes→eq [] [] h = refl
eq_codes→eq [] (y ∷ ys) h = cc
eq_codes→eq (x ∷ xs) [] h = cc
eq_codes→eq (x ∷ xs) (y ∷ ys) h = ground (arith, eq_codes→eq xs ys)

pub eq_codes_refl : (xs : List ℕ) → eq_codes xs xs ≡ true
unfolding eq_codes
eq_codes_refl [] = refl
eq_codes_refl (x ∷ xs) = ground (arith, eq_codes_refl xs)
