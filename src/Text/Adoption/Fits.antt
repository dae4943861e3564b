-- ===== src/Text/Adoption/Fits.antt =====
-- When a candidate fits the front of a text, for engine/src/context/sample_adoption.hpp.
use ime_fcitx.Prelude.{
  ℕ, zero, suc, ◌+◌, ◌≤◌, ◌<◌, Bool, true, List, [], ◌∷◌, ◌++◌, length, length-append, take, drop,
  eq_codes, eq_codes→eq, eq_codes_refl, leb, ◌≡◌, ◌≢◌, ◌⊎◌, refl, ap, sym, ◌∙◌, Bool-cases, inl,
  inr, arith,
}
use ime_fcitx.Text.Adoption.{Shown}
use ime_fcitx.Text.Adoption.Table.{fits}

split_at : (n : ℕ) (text : List ℕ) → text ≡ take n text ++ drop n text
split_at zero text = refl
split_at (suc n) [] = refl
split_at (suc n) (u ∷ text) = ap (λ xs. u ∷ xs) (split_at n text)

length-drop : (n : ℕ) (text : List ℕ) → length text ≤ n + length (drop n text)
length-drop zero text = omega arith
length-drop (suc n) [] = omega arith
length-drop (suc n) (u ∷ text) = omega (arith, length-drop n text)

nonempty_length : (xs : List ℕ) → xs ≢ [] → 0 < length xs
nonempty_length [] h = absurd (h refl)
nonempty_length (x ∷ xs) h = omega arith

length_nonempty : (xs : List ℕ) → 0 < length xs → xs ≢ []
length_nonempty xs h e = let same : length xs ≡ 0 = ap length e in omega arith

take-append : (c rest : List ℕ) → take (length c) (c ++ rest) ≡ c
take-append [] rest = refl
take-append (x ∷ c) rest = ap (λ xs. x ∷ xs) (take-append c rest)

drop-append : (c rest : List ℕ) → drop (length c) (c ++ rest) ≡ rest
drop-append [] rest = refl
drop-append (x ∷ c) rest = drop-append c rest

-- A candidate fits when the text starts with it and the rest is explained, or ends inside it.
pub fits_cases :
    (state : Shown) (candidate : List ℕ) (later : List ℕ → Bool) (rest : List ℕ)
    → fits state candidate later rest ≡ true
    → ((candidate ≢ [])
        × (rest ≡ candidate ++ drop (length candidate) rest)
        × (later (drop (length candidate) rest) ≡ true))
      ⊎ ((more : List ℕ) × (rest ≢ []) × (more ≢ []) × (state.reading ≡ rest ++ more))
unfolding fits
fits_cases state candidate later rest e = elim (Bool-cases (leb (length candidate) (length rest))) [
  | inl h ↦
      let some_units : 0 < length candidate = ground arith in
      let front : eq_codes (take (length candidate) rest) candidate ≡ true = ground arith in
      inl (
        length_nonempty candidate some_units,
        split_at (length candidate) rest
            ∙ ap (λ xs. xs ++ drop (length candidate) rest)
                (eq_codes→eq (take (length candidate) rest) candidate front),
        ground arith,
      )
  | inr h ↦
      let some_units : 0 < length rest = ground arith in
      let reading : eq_codes candidate state.reading ≡ true = ground arith in
      let front : eq_codes (take (length rest) candidate) rest ≡ true = ground arith in
      let left : 0 < length (drop (length rest) candidate) =
        ground (arith, length-drop (length rest) candidate) in
      inr (
        drop (length rest) candidate,
        length_nonempty rest some_units,
        length_nonempty (drop (length rest) candidate) left,
        sym (eq_codes→eq candidate state.reading reading)
            ∙ split_at (length rest) candidate
            ∙ ap (λ xs. xs ++ drop (length rest) candidate)
                (eq_codes→eq (take (length rest) candidate) rest front),
      )
]

pub fits_whole :
    (state : Shown) (candidate : List ℕ) (later : List ℕ → Bool) (rest : List ℕ)
    → candidate ≢ []
    → later rest ≡ true
    → fits state candidate later (candidate ++ rest) ≡ true
unfolding fits
fits_whole state candidate later rest h e =
    let some_units = nonempty_length candidate h in
    let whole = length-append candidate rest in
    rw (take-append candidate rest, drop-append candidate rest)
      (ground (arith, eq_codes_refl candidate))

pub fits_part :
    (state : Shown) (later : List ℕ → Bool) (text more : List ℕ)
    → text ≢ []
    → more ≢ []
    → state.reading ≡ text ++ more
    → fits state state.reading later text ≡ true
unfolding fits
fits_part state later text more h k e =
    let some_units = nonempty_length text h in
    let some_more = nonempty_length more k in
    let whole = length-append text more in
    rw (e, take-append text more) (ground (arith, eq_codes_refl text, eq_codes_refl (text ++ more)))
