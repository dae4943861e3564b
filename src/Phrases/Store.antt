-- ===== src/Phrases/Store.antt =====
-- `PhraseOverrideStore`, engine/src/phrase_override/phrase_override_store.cpp. The file is outside of the
-- model: `add` and `replace` take the answer of `save`.
pub mod Saving
use ime_fcitx.Prelude.{
  ℕ, Bool, true, false, not, ◌||◌, ◌&&◌, Option, none, some, List, [], ◌∷◌, length, eq_codes, ltb,
  ◌==◌, if◌then◌else◌,
}
use ime_fcitx.Phrases.Lines.{PhraseOverrideRecord, reading_key, valid_entry, split_readings}

pub record Entry : Type 0 where
  pub key : List ℕ
  pub phrase : List ℕ

-- `phrases_`, in the order of the keys.
abbrev pub Phrases : Type 0
Phrases = List Entry

unfoldable pub find : List ℕ → Phrases → Option (List ℕ)
find key [] = none
find key (e ∷ rest) = if eq_codes key e.key then some e.phrase else find key rest

-- The order of strings of bytes.
unfoldable pub before : List ℕ → List ℕ → Bool
before xs [] = false
before [] (y ∷ ys) = true
before (x ∷ xs) (y ∷ ys) = ltb x y || x == y && before xs ys

-- A new key at its place.
unfoldable pub insert_new : List ℕ → List ℕ → Phrases → Phrases
insert_new key phrase [] = record { key = key; phrase = phrase } ∷ []
insert_new key phrase (e ∷ rest) =
    if before key e.key
    then record { key = key; phrase = phrase } ∷ e ∷ rest
    else e ∷ insert_new key phrase rest

-- Another phrase for a key that is there.
unfoldable pub update : List ℕ → List ℕ → Phrases → Phrases
update key phrase [] = []
update key phrase (e ∷ rest) =
    if eq_codes key e.key
    then record { key = e.key; phrase = phrase } ∷ rest
    else e ∷ update key phrase rest

-- `phrases_[key] = phrase`
unfoldable pub assign : List ℕ → List ℕ → Phrases → Phrases
assign key phrase phrases = elim (find key phrases) [
  | none ↦ insert_new key phrase phrases
  | some old ↦ update key phrase phrases
]

unfoldable pub erase : List ℕ → Phrases → Phrases
erase key [] = []
erase key (e ∷ rest) = if eq_codes key e.key then rest else e ∷ erase key rest

-- What `add` puts back when saving fails.
unfoldable pub restore : List ℕ → Option (List ℕ) → Phrases → Phrases
restore key none phrases = erase key phrases
restore key (some old) phrases = assign key old phrases

unfoldable pub add : List ℕ → List (List ℕ) → Bool → Phrases → Phrases × Bool
add phrase readings saved phrases = elim (reading_key readings) [
  | none ↦ (phrases, false)
  | some key ↦
      if not (valid_entry phrase (length readings))
      then (phrases, false)
      else if saved
      then (assign key phrase phrases, true)
      else (restore key (find key phrases) (assign key phrase phrases), false)
]

-- The loop of `replace`, none where a record is refused.
unfoldable pub collect : Phrases → List PhraseOverrideRecord → Option Phrases
collect replacement [] = some replacement
collect replacement (r ∷ records) = elim (reading_key r.readings) [
  | none ↦ none
  | some key ↦
      if not (valid_entry r.phrase (length r.readings))
      then none
      else collect (assign key r.phrase replacement) records
]

unfoldable pub replace : List PhraseOverrideRecord → Bool → Phrases → Phrases × Bool
replace records saved phrases = elim (collect [] records) [
  | none ↦ (phrases, false)
  | some replacement ↦ if saved then (replacement, true) else (phrases, false)
]

unfoldable pub lookup : List (List ℕ) → Phrases → Option (List ℕ)
lookup readings phrases = elim (reading_key readings) [ none ↦ none | some key ↦ find key phrases ]

unfoldable pub entries : Phrases → List PhraseOverrideRecord
entries [] = []
entries (e ∷ rest) = elim (split_readings e.key) [
  | none ↦ entries rest
  | some readings ↦ record { phrase = e.phrase; readings = readings } ∷ entries rest
]
