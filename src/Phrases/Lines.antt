-- ===== src/Phrases/Lines.antt =====
-- The lines of the file, and the key of a list of readings, engine/src/phrase_override/
-- phrase_override_store.cpp. Bytes and code units are numbers; `none` is a refusal, or an exception that
-- the code catches.
mod Fuel
use ime_fcitx.Prelude.{
  ℕ, zero, suc, Bool, false, not, ◌&&◌, ◌||◌, Option, none, some, List, [], ◌∷◌, ◌++◌, length, take,
  drop, contains, eq_codes, ltb, leb, ◌==◌, if◌then◌else◌,
}
use ime_fcitx.Text.Utf8.{utf8_to_u32}
use ime_fcitx.Text.Utf16.{u16_to_utf8, utf8_to_u16}

-- `PhraseOverrideRecord`
pub record PhraseOverrideRecord : Type 0 where
  pub phrase : List ℕ
  pub readings : List (List ℕ)

abbrev pub min_readings : ℕ
min_readings = 2

abbrev pub max_readings : ℕ
max_readings = 8

-- U+3000 in UTF-8
abbrev pub ideographic_space : List ℕ
ideographic_space = 0xE3 ∷ 0x80 ∷ 0x80 ∷ []

-- '-', ' ', '\t', '\r', '\n'
abbrev pub separators : List ℕ
separators = 45 ∷ 32 ∷ 9 ∷ 13 ∷ 10 ∷ []

-- ' ', '\t', '\r', '\n'
abbrev pub spaces : List ℕ
spaces = 32 ∷ 9 ∷ 13 ∷ 10 ∷ []

-- `find_first_of(characters) != npos`
unfoldable pub has_any : List ℕ → List ℕ → Bool
has_any characters [] = false
has_any characters (c ∷ text) = contains characters c || has_any characters text

-- The separator at the front of the text.
unfoldable pub separator_length : List ℕ → ℕ
separator_length [] = 0
separator_length (c ∷ text) =
    if contains separators c
    then 1
    else if eq_codes (take 3 (c ∷ text)) ideographic_space
    then 3
    else 0

-- The bytes up to the next separator, and what is left from there.
unfoldable pub until_separator : List ℕ → List ℕ × List ℕ
until_separator [] = ([], [])
until_separator (c ∷ text) =
    if separator_length (c ∷ text) == 0
    then (c ∷ (until_separator text).0, (until_separator text).1)
    else ([], c ∷ text)

-- The loop of `split_readings`; a round takes a byte at least.
unfoldable pub split_loop : ℕ → List ℕ → Option (List (List ℕ))
split_loop fuel [] = some []
split_loop zero (c ∷ text) = none
split_loop (suc fuel) (c ∷ text) = elim (separator_length (c ∷ text)) [
  | zero ↦ elim (utf8_to_u16 (until_separator (c ∷ text)).0) [
    | none ↦ none
    | some reading ↦ elim (split_loop fuel (until_separator (c ∷ text)).1) [
      | none ↦ none
      | some readings ↦ some (reading ∷ readings)
    ]
  ]
  | suc n ↦ split_loop fuel (drop (suc n) (c ∷ text))
]

unfoldable pub split_readings : List ℕ → Option (List (List ℕ))
split_readings text = elim (split_loop (length text) text) [
  | none ↦ none
  | some [] ↦ none
  | some (r ∷ readings) ↦ some (r ∷ readings)
]

unfoldable pub valid_entry : List ℕ → ℕ → Bool
valid_entry phrase reading_count = elim (u16_to_utf8 phrase) [
  | none ↦ false
  | some utf8 ↦
      not (has_any spaces utf8)
      && leb min_readings reading_count
      && leb reading_count max_readings
      && elim (utf8_to_u32 utf8) [
        | none ↦ false
        | some codepoints ↦ length codepoints == reading_count
      ]
]

-- Without the spaces in front.
unfoldable pub trim_front : List ℕ → List ℕ
trim_front [] = []
trim_front (c ∷ text) = if c == 32 then trim_front text else c ∷ text

-- Without the spaces at the end.
unfoldable pub trim_back : List ℕ → List ℕ
trim_back [] = []
trim_back (c ∷ text) = if c == 32 && length (trim_back text) == 0 then [] else c ∷ trim_back text

-- The part of a reading in a key.
unfoldable pub key_part : List ℕ → Option (List ℕ)
key_part reading =
    let trimmed = trim_back (trim_front reading) in
    if length trimmed == 0 then none else elim (u16_to_utf8 trimmed) [
      | none ↦ none
      | some utf8 ↦ if has_any separators utf8 then none else some utf8
    ]

-- The parts joined by '-'.
unfoldable pub join_key : List (List ℕ) → Option (List ℕ)
join_key [] = some []
join_key (reading ∷ []) = key_part reading
join_key (reading ∷ next ∷ readings) = elim (key_part reading) [
  | none ↦ none
  | some part ↦ elim (join_key (next ∷ readings)) [
    | none ↦ none
    | some key ↦ some (part ++ 45 ∷ key)
  ]
]

unfoldable pub reading_key : List (List ℕ) → Option (List ℕ)
reading_key readings =
    if ltb (length readings) min_readings || ltb max_readings (length readings)
    then none
    else join_key readings
