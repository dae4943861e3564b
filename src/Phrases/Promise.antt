-- ===== src/Phrases/Promise.antt =====
-- What the store of phrase overrides promises, without its table: engine/src/phrase_override/
-- phrase_override_store.cpp.
use ime_fcitx.Prelude.{
  ℕ, Bool, true, false, ◌&&◌, Option, none, some, List, [], ◌∷◌, length, eq_codes, if◌then◌else◌,
}
use ime_fcitx.Phrases.Lines.{PhraseOverrideRecord, reading_key, valid_entry}
use ime_fcitx.Phrases.Reading.{parse_line, is_skipped, missing, unknown, unopened, broken, contents}
use ime_fcitx.Phrases.Keys.{Operation, loaded, added, replaced}

-- The record is accepted.
unfoldable pub is_accepted : PhraseOverrideRecord → Bool
is_accepted r =
    valid_entry r.phrase (length r.readings)
    && elim (reading_key r.readings) [ none ↦ false | some key ↦ true ]

-- The record is accepted and stands under this key.
unfoldable pub names_key : List ℕ → PhraseOverrideRecord → Bool
names_key key r =
    valid_entry r.phrase (length r.readings)
    && elim (reading_key r.readings) [ none ↦ false | some own ↦ eq_codes key own ]

-- The phrase of the last record under this key, or what there was before.
unfoldable pub latest : List ℕ → List PhraseOverrideRecord → Option (List ℕ) → Option (List ℕ)
latest key [] former = former
latest key (r ∷ records) former =
    latest key records (if names_key key r then some r.phrase else former)

unfoldable pub all_accepted : List PhraseOverrideRecord → Bool
all_accepted [] = true
all_accepted (r ∷ records) = is_accepted r && all_accepted records

-- The records in the lines of a file.
unfoldable pub records_of : List (List ℕ) → List PhraseOverrideRecord
records_of [] = []
records_of (line ∷ lines) =
    let rest = records_of lines in
    if is_skipped line then rest else elim (parse_line line) [ none ↦ rest | some r ↦ r ∷ rest ]

-- The phrase under a key after the operation, by the one before it.
unfoldable pub promise : List ℕ → Operation → Option (List ℕ) → Option (List ℕ)
promise key (loaded missing) former = none
promise key (loaded unknown) former = former
promise key (loaded unopened) former = former
promise key (loaded broken) former = former
promise key (loaded (contents lines)) former = latest key (records_of lines) none
promise key (added phrase readings saved) former =
    if saved
    then latest key (record { phrase = phrase; readings = readings } ∷ []) former
    else former
promise key (replaced records saved) former =
    if saved && all_accepted records then latest key records none else former

unfoldable pub promise_all : List ℕ → List Operation → Option (List ℕ) → Option (List ℕ)
promise_all key [] former = former
promise_all key (o ∷ os) former = promise_all key os (promise key o former)

-- Whether the operation succeeds; the table has no part in it.
unfoldable pub promised_success : Operation → Bool
promised_success (loaded missing) = true
promised_success (loaded unknown) = false
promised_success (loaded unopened) = false
promised_success (loaded broken) = false
promised_success (loaded (contents lines)) = true
promised_success (added phrase readings saved) =
    saved && is_accepted (record { phrase = phrase; readings = readings })
promised_success (replaced records saved) = saved && all_accepted records
