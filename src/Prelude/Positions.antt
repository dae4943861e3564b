-- ===== src/Prelude/Positions.antt =====
-- Insertion, removal and update at a position, as `std::vector` does them within its bounds.
use Prim.Native.Nat.{ℕ, zero, suc, ◌≤◌, ◌<◌}
use mathlib.Core.Path.{◌≡◌, refl, ap, subst}
use mathlib.Core.Logic.{◌≢◌}
use mathlib.Core.List.{List, [], ◌∷◌}
use mathlib.Core.Option.{some}
use native.Mathlib.Omega.{arith}
use ime_fcitx.Prelude.Lists.{length, get_elem?, take, All}

module _ {ℓ} {A : Type ℓ} where
  -- `insert(begin() + i, x)`
  unfoldable pub insert_idx : ℕ → A → List A → List A
  insert_idx zero y xs = y ∷ xs
  insert_idx (suc i) y [] = y ∷ []
  insert_idx (suc i) y (x ∷ xs) = x ∷ insert_idx i y xs

  -- `erase(begin() + i)`
  unfoldable pub erase_idx : ℕ → List A → List A
  erase_idx i [] = []
  erase_idx zero (x ∷ xs) = xs
  erase_idx (suc i) (x ∷ xs) = x ∷ erase_idx i xs

  -- A change of the element at `i` through a reference.
  unfoldable pub modify : ℕ → (A → A) → List A → List A
  modify i f [] = []
  modify zero f (x ∷ xs) = f x ∷ xs
  modify (suc i) f (x ∷ xs) = x ∷ modify i f xs

  pub length-insert_idx :
      (i : ℕ) (y : A) (xs : List A) → length (insert_idx i y xs) ≡ suc (length xs)
  unfolding insert_idx
  length-insert_idx zero y xs = refl
  length-insert_idx (suc i) y [] = refl
  length-insert_idx (suc i) y (x ∷ xs) = ap suc (length-insert_idx i y xs)

  pub length-erase_idx :
      (i : ℕ) (xs : List A) → i < length xs → suc (length (erase_idx i xs)) ≡ length xs
  unfolding erase_idx
  length-erase_idx i [] h = elim h [ ]
  length-erase_idx zero (x ∷ xs) h = refl
  length-erase_idx (suc i) (x ∷ xs) h = ap suc (length-erase_idx i xs (omega arith))

  pub length-modify : (i : ℕ) (f : A → A) (xs : List A) → length (modify i f xs) ≡ length xs
  unfolding modify
  length-modify i f [] = refl
  length-modify zero f (x ∷ xs) = refl
  length-modify (suc i) f (x ∷ xs) = ap suc (length-modify i f xs)

  pub get_elem?-modify_self :
      (i : ℕ) (f : A → A) (xs : List A) {x : A}
      → get_elem? xs i ≡ some x
      → get_elem? (modify i f xs) i ≡ some (f x)
  unfolding modify
  get_elem?-modify_self i f [] h = cc
  get_elem?-modify_self zero f (x ∷ xs) h = cc
  get_elem?-modify_self (suc i) f (x ∷ xs) h = get_elem?-modify_self i f xs h

  pub get_elem?-modify_ne :
      (i j : ℕ) (f : A → A) (xs : List A) → i ≢ j → get_elem? (modify i f xs) j ≡ get_elem? xs j
  unfolding modify
  get_elem?-modify_ne i j f [] h = refl
  get_elem?-modify_ne zero zero f (x ∷ xs) h = absurd (h refl)
  get_elem?-modify_ne zero (suc j) f (x ∷ xs) h = refl
  get_elem?-modify_ne (suc i) zero f (x ∷ xs) h = refl
  get_elem?-modify_ne (suc i) (suc j) f (x ∷ xs) h =
      get_elem?-modify_ne i j f xs (λ e. h (ap suc e))

  pub lt-length_of_get_elem? :
      (xs : List A) (i : ℕ) {x : A} → get_elem? xs i ≡ some x → i < length xs
  lt-length_of_get_elem? [] i h = cc
  lt-length_of_get_elem? (x ∷ xs) zero h = omega arith
  lt-length_of_get_elem? (x ∷ xs) (suc i) h = omega (arith, lt-length_of_get_elem? xs i h)

  pub get_elem?_of_lt : (xs : List A) (i : ℕ) → i < length xs → (x : A) × (get_elem? xs i ≡ some x)
  get_elem?_of_lt [] i h = elim h [ ]
  get_elem?_of_lt (x ∷ xs) zero h = (x, refl)
  get_elem?_of_lt (x ∷ xs) (suc i) h = get_elem?_of_lt xs i (omega arith)

  -- What happens at `i` or behind it leaves the first elements alone.
  pub take-insert_idx :
      (n i : ℕ) (y : A) (xs : List A)
      → n ≤ i
      → i ≤ length xs
      → take n (insert_idx i y xs) ≡ take n xs
  unfolding insert_idx
  take-insert_idx zero i y xs h k = refl
  take-insert_idx (suc n) zero y xs h k = absurd (omega arith)
  take-insert_idx (suc n) (suc i) y [] h k = absurd (omega arith)
  take-insert_idx (suc n) (suc i) y (x ∷ xs) h k =
      ap (x ∷◌) (take-insert_idx n i y xs (omega arith) (omega arith))

  pub take-modify : (n i : ℕ) (f : A → A) (xs : List A) → n ≤ i → take n (modify i f xs) ≡ take n xs
  unfolding modify
  take-modify zero i f xs h = refl
  take-modify (suc n) i f [] h = refl
  take-modify (suc n) zero f (x ∷ xs) h = absurd (omega arith)
  take-modify (suc n) (suc i) f (x ∷ xs) h = ap (x ∷◌) (take-modify n i f xs (omega arith))

  pub take-length : (xs : List A) → take (length xs) xs ≡ xs
  take-length [] = refl
  take-length (x ∷ xs) = ap (x ∷◌) (take-length xs)

module _ {ℓ κ} {A : Type ℓ} (P : A → Type κ) where
  pub All-get_elem? : (xs : List A) (i : ℕ) {x : A} → All P xs → get_elem? xs i ≡ some x → P x
  All-get_elem? [] i h e = cc
  All-get_elem? (x ∷ xs) zero h e = subst P (cc) h.0
  All-get_elem? (x ∷ xs) (suc i) h e = All-get_elem? xs i h.1 e

  pub All-insert_idx : (i : ℕ) (y : A) (xs : List A) → P y → All P xs → All P (insert_idx i y xs)
  unfolding insert_idx
  All-insert_idx zero y xs p h = (p, h)
  All-insert_idx (suc i) y [] p h = (p, h)
  All-insert_idx (suc i) y (x ∷ xs) p h = (h.0, All-insert_idx i y xs p h.1)

  pub All-erase_idx : (i : ℕ) (xs : List A) → All P xs → All P (erase_idx i xs)
  unfolding erase_idx
  All-erase_idx i [] h = h
  All-erase_idx zero (x ∷ xs) h = h.1
  All-erase_idx (suc i) (x ∷ xs) h = (h.0, All-erase_idx i xs h.1)

  pub All-modify :
      (i : ℕ) (f : A → A) (xs : List A)
      → All P xs
      → ((x : A) → get_elem? xs i ≡ some x → P x → P (f x))
      → All P (modify i f xs)
  unfolding modify
  All-modify i f [] h k = h
  All-modify zero f (x ∷ xs) h k = (k x refl h.0, h.1)
  All-modify (suc i) f (x ∷ xs) h k = (h.0, All-modify i f xs h.1 k)
