-- ===== src/Phrases/Dashes.antt =====
-- A key of engine/src/phrase_override/phrase_override_store.cpp has a '-' between its readings.
use ime_fcitx.Prelude.{
  ℕ, ◌+◌, true, false, none, some, List, [], ◌∷◌, ◌++◌, length, contains, Option-cases, inl, inr,
  ◌≡◌, ◌≢◌, refl, ◌==◌, arith, if◌then◌else◌,
}
use ime_fcitx.Phrases.Lines.{separators, has_any, key_part, join_key, valid_entry}
use ime_fcitx.Phrases.Store.{Entry}

-- How many '-' there are.
unfoldable pub dashes : List ℕ → ℕ
dashes [] = 0
dashes (c ∷ text) = (if c == 45 then 1 else 0) + dashes text

abbrev pub IsWellKeyed : Entry → Type 0
IsWellKeyed e = valid_entry e.phrase (dashes e.key + 1) ≡ true

dashes-append : (xs ys : List ℕ) → dashes (xs ++ ys) ≡ dashes xs + dashes ys
unfolding dashes
dashes-append [] ys = omega arith
dashes-append (x ∷ xs) ys = let rest = dashes-append xs ys in omega arith

dashes_none : (text : List ℕ) → has_any separators text ≡ false → dashes text ≡ 0
unfolding dashes has_any contains
dashes_none [] h = refl
dashes_none (c ∷ text) h = ground (arith, dashes_none text)

dashes-key_part :
    (reading : List ℕ) {part : List ℕ} → key_part reading ≡ some part → dashes part ≡ 0
unfolding key_part
dashes-key_part reading {part} e = dashes_none part (ground arith)

nothing_joined : {key : List ℕ} → none ≢ some key
nothing_joined e = cc

join_key_cases :
    (r q : List ℕ) (readings : List (List ℕ)) {key : List ℕ}
    → join_key (r ∷ q ∷ readings) ≡ some key
    → (part : List ℕ) × (rest : List ℕ) × (key_part r ≡ some part)
      × (join_key (q ∷ readings) ≡ some rest)
      × (key ≡ part ++ 45 ∷ rest)
unfolding join_key
join_key_cases r q readings {key} e = elim (Option-cases (key_part r)) [
  | inl f ↦ absurd (ground arith)
  | inr (part, f) ↦ elim (Option-cases (join_key (q ∷ readings))) [
    | inl g ↦ absurd (ground arith)
    | inr (rest, g) ↦ (part, rest, f, g, ground arith)
  ]
]

pub dashes-join_key :
    (readings : List (List ℕ)) {key : List ℕ}
    → join_key readings ≡ some key
    → length readings ≢ 0
    → dashes key + 1 ≡ length readings
unfolding join_key dashes
dashes-join_key [] e h = absurd (h refl)
dashes-join_key (r ∷ []) e h = ground (arith, dashes-key_part r e)
dashes-join_key (r ∷ q ∷ readings) e h =
    let (part, rest, first, later, same) = join_key_cases r q readings e in
    let here = dashes-key_part r first in
    let there = dashes-join_key (q ∷ readings) later (λ k. ground arith) in
    let all = dashes-append part (45 ∷ rest) in rw same (omega arith)
