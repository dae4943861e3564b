-- ===== src/Phrases/Reading.antt =====
-- Reading and writing the lines of the file, engine/src/phrase_override/phrase_override_store.cpp. What the
-- file system answers is an argument of `load`.
use ime_fcitx.Prelude.{
  ℕ, Bool, true, false, not, ◌||◌, ◌&&◌, Option, none, some, List, [], ◌∷◌, ◌++◌, length, contains,
  ◌==◌, if◌then◌else◌,
}
use ime_fcitx.Text.Utf16.{u16_to_utf8, utf8_to_u16}
use ime_fcitx.Phrases.Lines.{PhraseOverrideRecord, reading_key, valid_entry, split_readings}
use ime_fcitx.Phrases.Store.{Phrases, assign}

-- Without the '\r' at the end.
unfoldable pub strip_return : List ℕ → List ℕ
strip_return [] = []
strip_return (c ∷ line) = if c == 13 && length line == 0 then [] else c ∷ strip_return line

-- ' ' and '\t'
abbrev pub blanks : List ℕ
blanks = 32 ∷ 9 ∷ []

-- The bytes up to the first blank, and what is left from there.
unfoldable pub until_blank : List ℕ → List ℕ × List ℕ
until_blank [] = ([], [])
until_blank (c ∷ line) =
    if contains blanks c then ([], c ∷ line) else (c ∷ (until_blank line).0, (until_blank line).1)

unfoldable pub skip_blanks : List ℕ → List ℕ
skip_blanks [] = []
skip_blanks (c ∷ line) = if contains blanks c then skip_blanks line else c ∷ line

-- The record of a phrase and its readings, each none where it is refused.
unfoldable pub make_record : Option (List (List ℕ)) → Option (List ℕ) → Option PhraseOverrideRecord
make_record none phrase = none
make_record (some readings) none = none
make_record (some readings) (some phrase) = elim (reading_key readings) [
  | none ↦ none
  | some key ↦ some (record { phrase = phrase; readings = readings })
]

unfoldable pub parse_line : List ℕ → Option PhraseOverrideRecord
parse_line line =
    let parts = until_blank (strip_return line) in
    let readings = skip_blanks parts.1 in
    if length parts.1 == 0 || length readings == 0
    then none
    else make_record (split_readings readings) (utf8_to_u16 parts.0)

unfoldable pub format_line : List ℕ → List ℕ → Option (List ℕ)
format_line phrase key = elim (u16_to_utf8 phrase) [
  | none ↦ none
  | some utf8 ↦ some (utf8 ++ 32 ∷ key)
]

-- The loop of `format_readings`, with the result so far.
unfoldable pub join_readings : List ℕ → List (List ℕ) → Option (List ℕ)
join_readings result [] = some result
join_readings result (reading ∷ readings) =
    let start = if length result == 0 then result else result ++ 45 ∷ [] in
    elim (u16_to_utf8 reading) [ none ↦ none | some utf8 ↦ join_readings (start ++ utf8) readings ]

unfoldable pub format_readings : List (List ℕ) → Option (List ℕ)
format_readings readings = join_readings [] readings

-- An empty line, or one that '#' opens.
unfoldable pub is_skipped : List ℕ → Bool
is_skipped [] = true
is_skipped (c ∷ line) = c == 35

-- The phrases after the record of a line.
unfoldable pub load_record : Phrases → Option PhraseOverrideRecord → Phrases
load_record loaded none = loaded
load_record loaded (some r) =
    if not (valid_entry r.phrase (length r.readings))
    then loaded
    else elim (reading_key r.readings) [ none ↦ loaded | some key ↦ assign key r.phrase loaded ]

unfoldable pub load_lines : Phrases → List (List ℕ) → Phrases
load_lines loaded [] = loaded
load_lines loaded (line ∷ lines) =
    load_lines (if is_skipped line then loaded else load_record loaded (parse_line line)) lines

-- What the file system answers: there is no file, it cannot tell, the file does not open, it has these
-- lines, or reading it broke off.
pub data FileAnswer : Type 0 where
  missing unknown unopened broken : FileAnswer
  contents : List (List ℕ) → FileAnswer

unfoldable pub load : FileAnswer → Phrases → Phrases × Bool
load missing phrases = ([], true)
load unknown phrases = (phrases, false)
load unopened phrases = (phrases, false)
load broken phrases = (phrases, false)
load (contents lines) phrases = (load_lines [] lines, true)
