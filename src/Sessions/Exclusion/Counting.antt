-- ===== src/Sessions/Exclusion/Counting.antt =====
-- Sums over the calls, and how they change with one call.
use ime_fcitx.Prelude.{ℕ, zero, suc, ◌+◌, ◌≤◌, some, List, [], ◌∷◌, get_elem?, modify, ◌≡◌, arith}

module _ {A : Type 0} (f : A → ℕ) where
  unfoldable pub total : List A → ℕ
  total [] = 0
  total (x ∷ xs) = f x + total xs

  -- One summand for another.
  pub total-modify :
      (i : ℕ) (g : A → A) (xs : List A) (x : A)
      → get_elem? xs i ≡ some x
      → total (modify i g xs) + f x ≡ total xs + f (g x)
  unfolding total modify
  total-modify i g [] x e = absurd (cc)
  total-modify zero g (y ∷ xs) x e = let same : y ≡ x = cc in rw same (omega arith)
  total-modify (suc i) g (y ∷ xs) x e = let later = total-modify i g xs x e in omega arith

  -- One summand is no more than the sum.
  pub le_total : (i : ℕ) (xs : List A) (x : A) → get_elem? xs i ≡ some x → f x ≤ total xs
  unfolding total
  le_total i [] x e = absurd (cc)
  le_total zero (y ∷ xs) x e = let same : y ≡ x = cc in rw (← same) (omega arith)
  le_total (suc i) (y ∷ xs) x e = let later = le_total i xs x e in omega arith
