-- ===== src/Text/Adoption/Table.antt =====
-- The table of `strip_preedit_suffix`, engine/src/context/sample_adoption.hpp, against a recursion
-- on the segments.
use ime_fcitx.Prelude.{
  ℕ, zero, suc, ◌≤◌, Bool, false, not, ◌&&◌, ◌||◌, List, [], ◌∷◌, length, take, drop, eq_codes, leb,
  ◌==◌, ◌≡◌, refl, ap, Bool-cases, inl, inr, arith, if◌then◌else◌,
}
use ime_fcitx.Text.Adoption.{Shown, last_column, cell, try_candidate, can, column, table}

-- Whether a candidate explains the front of the text, `later` being asked for what follows.
unfoldable pub fits : Shown → List ℕ → (List ℕ → Bool) → List ℕ → Bool
fits state candidate later rest =
    if length candidate == 0
    then false
    else if leb (length candidate) (length rest)
    then eq_codes (take (length candidate) rest) candidate && later (drop (length candidate) rest)
    else not (length rest == 0)
      && eq_codes candidate state.reading
      && eq_codes (take (length rest) candidate) rest

-- Whether the text is explained by the segments.
unfoldable pub explained : List Shown → List ℕ → Bool
explained [] rest = length rest == 0
explained (state ∷ segments) rest =
    fits state state.rendered (explained segments) rest
    || fits state state.reading (explained segments) rest

-- A function on the rests of a text, at each place.
unfoldable pub tabulate : (List ℕ → Bool) → List ℕ → List Bool
tabulate f [] = f [] ∷ []
tabulate f (unit ∷ rest) = f (unit ∷ rest) ∷ tabulate f rest

cell-tabulate :
    (f : List ℕ → Bool) (n : ℕ) (rest : List ℕ)
    → n ≤ length rest
    → cell (tabulate f rest) n ≡ f (drop n rest)
unfolding cell tabulate
cell-tabulate f zero [] h = refl
cell-tabulate f zero (u ∷ rest) h = refl
cell-tabulate f (suc n) [] h = ground arith
cell-tabulate f (suc n) (u ∷ rest) h = cell-tabulate f n rest (omega arith)

try_candidate-tabulate :
    (state : Shown) (candidate : List ℕ) (f : List ℕ → Bool) (rest : List ℕ)
    → try_candidate state candidate (tabulate f rest) rest ≡ fits state candidate f rest
unfolding try_candidate fits
try_candidate-tabulate state candidate f rest =
    elim (Bool-cases (leb (length candidate) (length rest))) [
      | inl h ↦ rw (cell-tabulate f (length candidate) rest (ground arith)) refl
      | inr h ↦ rw h refl
    ]

column-tabulate :
    (state : Shown) (segments : List Shown) (rest : List ℕ)
    → column state (tabulate (explained segments) rest) rest
      ≡ tabulate (explained (state ∷ segments)) rest
unfolding column tabulate can explained
column-tabulate state segments [] =
    rw
      (
        try_candidate-tabulate state state.rendered (explained segments) [],
        try_candidate-tabulate state state.reading (explained segments) [],
      )
      refl
column-tabulate state segments (u ∷ rest) =
    rw
      (
        try_candidate-tabulate state state.rendered (explained segments) (u ∷ rest),
        try_candidate-tabulate state state.reading (explained segments) (u ∷ rest),
        column-tabulate state segments rest,
      )
      refl

last_column-tabulate : (sample : List ℕ) → last_column sample ≡ tabulate (explained []) sample
unfolding last_column tabulate explained
last_column-tabulate [] = refl
last_column-tabulate (u ∷ sample) =
    rw (last_column-tabulate sample) (ap (λ b. b ∷ tabulate (explained []) sample) (ground arith))

-- Every cell of the first column of the table says whether the text from there on is explained.
pub table-explained :
    (segments : List Shown) (sample : List ℕ)
    → table segments sample ≡ tabulate (explained segments) sample
unfolding table
table-explained [] sample = last_column-tabulate sample
table-explained (state ∷ segments) sample =
    rw (table-explained segments sample) (column-tabulate state segments sample)
