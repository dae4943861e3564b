-- ===== src/Tests/Text.antt =====
-- Runs of the theorems on the text encodings and the context samples.
use ime_fcitx.Prelude.{
  ◌⊎◌, ℕ, ◌+◌, ◌≤◌, min, none, some, List, [], ◌∷◌, ◌++◌, ◌≡◌, ◌≢◌, refl, length, take, drop, codes,
  eq_codes, ◌-◌, All, arith,
}
use ime_fcitx.Text.Utf8.{
  is_scalar, utf8_bytes, append_utf8, lead_byte, continuation_bytes, is_shortest, visit_one,
  visit_utf8, utf8_to_u32,
}
use ime_fcitx.Text.Utf8.RoundTrip.{IsByte}
use ime_fcitx.Text.Utf16.{
  IsUnit, u16_to_utf8, utf8_to_u16, utf16_tail, encode_units, is_high_surrogate, is_low_surrogate,
  u16_units, u32_to_u16,
}
use ime_fcitx.Text.Utf16.RoundTrip.{utf8_to_u16-u16_to_utf8, u16_to_utf8-utf8_to_u16}
use ime_fcitx.Text.Utf16.Tail.{utf16_tail-encodable}
use ime_fcitx.Text.Sampler
use ime_fcitx.Text.Sampler.{Sampler, set_text}
use ime_fcitx.Text.Sampler.Window.{set_text_window}
use ime_fcitx.Text.Adoption.{
  Shown, strip_preedit_suffix, table, first_start, column, last_column, can, try_candidate, cell,
}
use ime_fcitx.Text.Adoption.Contribution.{
  Shows, StopsEarly, rendered, typed, strip_preedit_suffix-reaches,
  strip_preedit_suffix-contributes,
}

-- "a", the pair of U+1F600, "ㄅ".
abbrev units : List ℕ
units = 97 ∷ 0xD83D ∷ 0xDE00 ∷ 0x3105 ∷ []

abbrev bytes : List ℕ
bytes = 97 ∷ 0xF0 ∷ 0x9F ∷ 0x98 ∷ 0x80 ∷ 0xE3 ∷ 0x84 ∷ 0x85 ∷ []

units-IsUnit : All IsUnit units
units-IsUnit = (omega arith, (omega arith, (omega arith, (omega arith, tt))))

bytes-IsByte : All IsByte bytes
bytes-IsByte = (
  omega arith,
  (
    omega arith,
    (omega arith, (omega arith, (omega arith, (omega arith, (omega arith, (omega arith, tt)))))),
  ),
)

units_written : u16_to_utf8 units ≡ some bytes
unfolding u16_to_utf8 encode_units is_high_surrogate is_low_surrogate append_utf8 is_scalar
    utf8_bytes
units_written = refl

bytes_read : utf8_to_u16 bytes ≡ some units
unfolding utf8_to_u16 utf8_to_u32 visit_utf8 visit_one lead_byte continuation_bytes is_shortest
    u32_to_u16 u16_units
bytes_read = refl

utf8_to_u16-u16_to_utf8_example : utf8_to_u16 bytes ≡ some units
utf8_to_u16-u16_to_utf8_example = utf8_to_u16-u16_to_utf8 units units-IsUnit units_written

u16_to_utf8-utf8_to_u16_example : u16_to_utf8 units ≡ some bytes
u16_to_utf8-utf8_to_u16_example = u16_to_utf8-utf8_to_u16 bytes bytes-IsByte bytes_read

utf16_tail-encodable_example :
    (u16_to_utf8 (utf16_tail units 2) ≢ none)
    × (utf16_tail units 2 ≡ drop (length units - length (utf16_tail units 2)) units)
    × (length (utf16_tail units 2) ≤ 2)
    × (min 2 (length units) ≤ length (utf16_tail units 2) + 1)
utf16_tail-encodable_example = utf16_tail-encodable units 2 units-IsUnit units_written

-- The caret stands inside the pair.
abbrev sample : Sampler
sample = set_text units 2 (Sampler.new 8)

set_text_window_example :
    (u16_to_utf8 sample.text_before_caret ≢ none)
    × (sample.text_before_caret
        ≡ drop sample.window_start
            (take (sample.window_start + length sample.text_before_caret) units))
    × (length sample.text_before_caret ≤ 8)
    × (sample.window_start + length sample.text_before_caret ≤ 2)
    × (min 2 (length units) ≤ sample.window_start + length sample.text_before_caret + 1)
    × (min 8 (sample.window_start + length sample.text_before_caret)
        ≤ length sample.text_before_caret + 1)
set_text_window_example = set_text_window units 2 (Sampler.new 8) units-IsUnit units_written

abbrev rendered_ni : Shown
rendered_ni = record { rendered = codes "你"; reading = codes "ㄋㄧˇ" }

abbrev typed_hao : Shown
typed_hao = record { rendered = codes "ㄏㄠ"; reading = codes "ㄏㄠ" }

shows_typing : Shows (rendered_ni ∷ typed_hao ∷ []) (codes "你ㄏ")
shows_typing =
    rendered rendered_ni (typed_hao ∷ []) (codes "ㄏ") (codes "你ㄏ") (λ e. cc) refl
      (typed typed_hao (codes "ㄠ") (codes "ㄏ") (λ e. cc) (λ e. cc) refl)

strip_preedit_suffix-reaches_example :
    (front : List ℕ) × (rest : List ℕ) × (strip_preedit_suffix
        (codes "我" ++ codes "你ㄏ")
        (rendered_ni ∷ typed_hao ∷ [])
      ≡ some front)
    × (codes "我" ++ codes "你ㄏ" ≡ front ++ rest)
    × (Shows (rendered_ni ∷ typed_hao ∷ []) rest ⊎ StopsEarly (rendered_ni ∷ typed_hao ∷ []) rest)
    × (length front ≤ length (codes "我"))
strip_preedit_suffix-reaches_example =
    strip_preedit_suffix-reaches rendered_ni (typed_hao ∷ []) (codes "我") (codes "你ㄏ") (λ e. cc)
      shows_typing

committed : strip_preedit_suffix (codes "我你ㄏ") (rendered_ni ∷ typed_hao ∷ []) ≡ some (codes "我")
unfolding strip_preedit_suffix table first_start column last_column can try_candidate cell eq_codes
committed = refl

strip_preedit_suffix-contributes_example :
    (rest : List ℕ) × (codes "我你ㄏ" ≡ codes "我" ++ rest)
    × (rest ≢ [])
    × (Shows (rendered_ni ∷ typed_hao ∷ []) rest ⊎ StopsEarly (rendered_ni ∷ typed_hao ∷ []) rest)
strip_preedit_suffix-contributes_example =
    strip_preedit_suffix-contributes rendered_ni (typed_hao ∷ []) (codes "我你ㄏ") (λ e. cc) committed

-- The second segment contributes nothing.
stopped_early : strip_preedit_suffix (codes "我ㄋ") (rendered_ni ∷ typed_hao ∷ []) ≡ some (codes "我")
unfolding strip_preedit_suffix table first_start column last_column can try_candidate cell eq_codes
stopped_early = refl
