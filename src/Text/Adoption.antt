-- ===== src/Text/Adoption.antt =====
-- `strip_preedit_suffix`, engine/src/context/sample_adoption.hpp: the committed text in front of the
-- composition in a sample of the focused widget.
pub mod Fits
pub mod Table
pub mod Explained
pub mod Contribution
use ime_fcitx.Prelude.{
  ℕ, zero, suc, ◌+◌, Bool, true, false, not, ◌&&◌, ◌||◌, Option, none, some, List, [], ◌∷◌, length,
  take, drop, get_elem?, eq_codes, leb, ◌==◌, if◌then◌else◌,
}

-- `PreeditSegmentState`
pub record Shown : Type 0 where
  pub rendered : List ℕ
  pub reading : List ℕ

-- The last column: only the empty rest is explained by no segment.
unfoldable pub last_column : List ℕ → List Bool
last_column [] = true ∷ []
last_column (unit ∷ rest) = false ∷ last_column rest

-- The cell of a column, false past its end.
unfoldable pub cell : List Bool → ℕ → Bool
cell column i = elim (get_elem? column i) [ none ↦ false | some value ↦ value ]

-- One candidate of a segment at a place: `next` is the column of the following segment from there on.
unfoldable pub try_candidate : Shown → List ℕ → List Bool → List ℕ → Bool
try_candidate state candidate next rest =
    if length candidate == 0
    then false
    else if leb (length candidate) (length rest)
    then eq_codes (take (length candidate) rest) candidate && cell next (length candidate)
    else not (length rest == 0)
      && eq_codes candidate state.reading
      && eq_codes (take (length rest) candidate) rest

-- The loop over the two candidates, left at the first that succeeds.
unfoldable pub can : Shown → List Bool → List ℕ → Bool
can state next rest =
    try_candidate state state.rendered next rest || try_candidate state state.reading next rest

-- The column of a segment, from the column of the next one.
unfoldable pub column : Shown → List Bool → List ℕ → List Bool
column state [] rest = []
column state (cell ∷ next) [] = can state (cell ∷ next) [] ∷ []
column state (cell ∷ next) (unit ∷ rest) =
    can state (cell ∷ next) (unit ∷ rest) ∷ column state next rest

-- The first column of the table.
unfoldable pub table : List Shown → List ℕ → List Bool
table [] sample = last_column sample
table (state ∷ segments) sample = column state (table segments sample) sample

-- The text in front of the first place, before the end, that the column marks.
unfoldable pub first_start : List Bool → List ℕ → Option (List ℕ)
first_start marks [] = none
first_start [] (unit ∷ rest) = none
first_start (true ∷ marks) (unit ∷ rest) = some []
first_start (false ∷ marks) (unit ∷ rest) = elim (first_start marks rest) [
  | none ↦ none
  | some front ↦ some (unit ∷ front)
]

unfoldable pub strip_preedit_suffix : List ℕ → List Shown → Option (List ℕ)
strip_preedit_suffix sample [] = some sample
strip_preedit_suffix [] (state ∷ segments) = some []
strip_preedit_suffix (unit ∷ sample) (state ∷ segments) =
    first_start (table (state ∷ segments) (unit ∷ sample)) (unit ∷ sample)
