-- ===== src/Phrases/Lines/Fuel.antt =====
-- The length of the text is fuel enough for `split_readings` of engine/src/phrase_override/
-- phrase_override_store.cpp.
use ime_fcitx.Prelude.{
  ℕ, zero, suc, ◌≤◌, List, [], ◌∷◌, length, drop, ◌≡◌, refl, arith, Option-cases, inl, inr, ◌⊎◌,
}
use ime_fcitx.Text.Utf16.{utf8_to_u16}
use ime_fcitx.Phrases.Lines.{separator_length, until_separator, split_loop}

until_separator-length : (text : List ℕ) → length (until_separator text).1 ≤ length text
unfolding until_separator
until_separator-length [] = omega arith
until_separator-length (c ∷ text) = ground (arith, until_separator-length text)

until_separator-shrinks :
    (c : ℕ) (text : List ℕ)
    → separator_length (c ∷ text) ≡ 0
    → length (until_separator (c ∷ text)).1 ≤ length text
unfolding until_separator
until_separator-shrinks c text h = ground (arith, until_separator-length text)

length-drop : (n : ℕ) (text : List ℕ) → length (drop n text) ≤ length text
length-drop zero text = omega arith
length-drop (suc n) [] = omega arith
length-drop (suc n) (c ∷ text) = omega (arith, length-drop n text)

zero_or_suc : (n : ℕ) → (n ≡ 0) ⊎ ((m : ℕ) × (n ≡ suc m))
zero_or_suc zero = inl refl
zero_or_suc (suc m) = inr (m, refl)

-- Two amounts of fuel that reach the length of the text give the same result.
split_loop_enough :
    (fuel more : ℕ) (text : List ℕ)
    → length text ≤ fuel
    → length text ≤ more
    → split_loop fuel text ≡ split_loop more text
unfolding split_loop
split_loop_enough fuel more [] h k = refl
split_loop_enough zero more (c ∷ text) h k = ground arith
split_loop_enough (suc fuel) zero (c ∷ text) h k = ground arith
split_loop_enough (suc fuel) (suc more) (c ∷ text) h k =
    elim (zero_or_suc (separator_length (c ∷ text))) [
      | inl e ↦
          let shorter = until_separator-shrinks c text e in
          let same =
            split_loop_enough fuel more (until_separator (c ∷ text)).1 (omega arith)
              (omega arith) in
          elim (Option-cases (utf8_to_u16 (until_separator (c ∷ text)).0)) [
            | inl f ↦ rw (split_loop, e, f) refl
            | inr (reading, f) ↦ rw (split_loop, e, f, same) refl
          ]
      | inr (m, e) ↦
          let shorter = length-drop m text in
          rw (split_loop, e, split_loop_enough fuel more (drop m text) (omega arith) (omega arith))
            refl
    ]
