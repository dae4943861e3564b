-- ===== src/Tests/Phrases.antt =====
-- Runs of the theorems on the store of phrase overrides.
use ime_fcitx.Prelude.{
  ℕ, true, false, none, some, List, [], ◌∷◌, ◌≡◌, refl, codes, contains, map, All,
}
use ime_fcitx.Text.Utf8.{
  is_scalar, utf8_bytes, append_utf8, lead_byte, continuation_bytes, is_shortest, visit_one,
  visit_utf8, utf8_to_u32,
}
use ime_fcitx.Text.Utf16.{u16_to_utf8, encode_units, is_high_surrogate, is_low_surrogate}
use ime_fcitx.Phrases.Lines.{
  has_any, valid_entry, trim_front, trim_back, key_part, join_key, reading_key,
}
use ime_fcitx.Phrases.Store.{add}
use ime_fcitx.Phrases.Store.{find}
use ime_fcitx.Phrases.Promise.{promise_all, promised_success}
use ime_fcitx.Phrases.Refinement.{successes, operate_all-promise_all}
use ime_fcitx.Phrases.Store.Saving.{add_fails}
use ime_fcitx.Phrases.Reading.{contents, is_skipped, format_line}
use ime_fcitx.Phrases.Dashes.{IsWellKeyed}
use ime_fcitx.Phrases.Keys.{Operation, loaded, added, operate_all, operate_all-IsWellKeyed}

abbrev phrase : List ℕ
phrase = codes "你好"

abbrev readings : List (List ℕ)
readings = codes "ㄋㄧˇ" ∷ codes "ㄏㄠˇ" ∷ []

abbrev key_bytes : List ℕ
key_bytes =
    0xE3 ∷ 0x84 ∷ 0x8B ∷ 0xE3 ∷ 0x84 ∷ 0xA7 ∷ 0xCB ∷ 0x87 ∷ 45 ∷ 0xE3 ∷ 0x84 ∷ 0x8F ∷ 0xE3 ∷ 0x84
    ∷ 0xA0 ∷ 0xCB ∷ 0x87 ∷ []

readings_key : reading_key readings ≡ some key_bytes
unfolding reading_key join_key key_part trim_front trim_back u16_to_utf8 encode_units
    is_high_surrogate is_low_surrogate append_utf8 is_scalar utf8_bytes has_any contains
readings_key = refl

phrase_valid : valid_entry phrase 2 ≡ true
unfolding valid_entry u16_to_utf8 encode_units is_high_surrogate is_low_surrogate append_utf8
    is_scalar utf8_bytes has_any contains utf8_to_u32 visit_utf8 visit_one lead_byte
    continuation_bytes is_shortest
phrase_valid = refl

added_now : (add phrase readings true []).1 ≡ true
unfolding add
added_now = rw (add, readings_key, phrase_valid) refl

not_saved : (add phrase readings false []).1 ≡ false
unfolding add
not_saved = rw (add, readings_key, phrase_valid) refl

add_fails_example : (add phrase readings false []).0 ≡ []
add_fails_example = add_fails phrase readings false [] not_saved

operate_all-IsWellKeyed_example :
    All IsWellKeyed
      (operate_all (loaded (contents (codes "#" ∷ [])) ∷ added phrase readings true ∷ []) [])
operate_all-IsWellKeyed_example =
    operate_all-IsWellKeyed (loaded (contents (codes "#" ∷ [])) ∷ added phrase readings true ∷ [])
      [] tt

abbrev operations : List Operation
operations = loaded (contents (codes "#" ∷ [])) ∷ added phrase readings true ∷ []

operate_all-promise_all_example :
    (find key_bytes (operate_all operations [])
      ≡ promise_all key_bytes operations (find key_bytes []))
    × (successes operations [] ≡ map promised_success operations)
operate_all-promise_all_example = operate_all-promise_all key_bytes operations []

abbrev hash_phrase : List ℕ
hash_phrase = codes "#一"

-- A phrase that '#' opens is accepted.
hash_accepted : valid_entry hash_phrase 2 ≡ true
unfolding valid_entry u16_to_utf8 encode_units is_high_surrogate is_low_surrogate append_utf8
    is_scalar utf8_bytes has_any contains utf8_to_u32 visit_utf8 visit_one lead_byte
    continuation_bytes is_shortest
hash_accepted = refl

-- Its line in the file is taken for a comment.
hash_skipped :
    elim (format_line hash_phrase key_bytes) [ none ↦ false | some line ↦ is_skipped line ] ≡ true
unfolding format_line is_skipped u16_to_utf8 encode_units is_high_surrogate is_low_surrogate
    append_utf8 is_scalar utf8_bytes
hash_skipped = refl
