-- ===== src/Text/Utf16.antt =====
-- The UTF-16 half of engine/src/text/utf.cpp. `none` is the exception.
pub mod Bytes
pub mod RoundTrip
pub mod Paired
pub mod Tail
use ime_fcitx.Prelude.{
  ℕ, zero, suc, ◌+◌, ◌<◌, ◌-◌, ◌*◌, ◌/◌, ◌%◌, Bool, true, false, not, ◌&&◌, ◌||◌, Option, none,
  some, List, [], ◌∷◌, ◌++◌, ◌==◌, ltb, leb, between, length, drop, get_elem?, if◌then◌else◌,
}
use ime_fcitx.Text.Utf8.{append_utf8, prepend, utf8_to_u32}

-- A code unit of 16 bits.
abbrev pub IsUnit : ℕ → Type 0
IsUnit unit = unit < 0x10000

unfoldable pub is_high_surrogate : ℕ → Bool
is_high_surrogate unit = between 0xD800 0xDBFF unit

unfoldable pub is_low_surrogate : ℕ → Bool
is_low_surrogate unit = between 0xDC00 0xDFFF unit

-- The code units of a code point.
unfoldable pub u16_units : ℕ → List ℕ
u16_units codepoint =
    if leb codepoint 0xFFFF
    then codepoint ∷ []
    else (0xD800 + (codepoint - 0x10000) / 1024) ∷ (0xDC00 + (codepoint - 0x10000) % 1024) ∷ []

unfoldable pub u32_to_u16 : List ℕ → List ℕ
u32_to_u16 [] = []
u32_to_u16 (codepoint ∷ input) = u16_units codepoint ++ u32_to_u16 input

unfoldable pub utf8_to_u16 : List ℕ → Option (List ℕ)
utf8_to_u16 input = elim (utf8_to_u32 input) [
  | none ↦ none
  | some codepoints ↦ some (u32_to_u16 codepoints)
]

-- The code point of a surrogate pair.
abbrev pub paired : ℕ → ℕ → ℕ
paired high low = 0x10000 + ((high - 0xD800) * 1024 + (low - 0xDC00))

-- The loop, with the output so far.
unfoldable pub encode_units : List ℕ → List ℕ → Option (List ℕ)
encode_units output [] = some output
encode_units output (unit ∷ []) =
    if is_high_surrogate unit
    then none
    else if is_low_surrogate unit
    then none
    else append_utf8 output unit
encode_units output (unit ∷ low ∷ input) =
    if is_high_surrogate unit
    then if is_low_surrogate low
      then elim (append_utf8 output (paired unit low)) [
        | none ↦ none
        | some longer ↦ encode_units longer input
      ]
      else none
    else if is_low_surrogate unit
    then none
    else elim (append_utf8 output unit) [
      | none ↦ none
      | some longer ↦ encode_units longer (low ∷ input)
    ]

unfoldable pub u16_to_utf8 : List ℕ → Option (List ℕ)
u16_to_utf8 input = encode_units [] input

-- The unit at a place, 0 past the end.
unfoldable pub unit_at : List ℕ → ℕ → ℕ
unit_at input i = elim (get_elem? input i) [ none ↦ 0 | some unit ↦ unit ]

-- Whether a cut at this place separates a pair.
unfoldable pub splits_pair : List ℕ → ℕ → Bool
splits_pair input start =
    ltb 0 start
    && is_low_surrogate (unit_at input start)
    && is_high_surrogate (unit_at input (start - 1))

unfoldable pub utf16_tail : List ℕ → ℕ → List ℕ
utf16_tail input limit =
    let start = length input - limit in
    if limit == 0 || length input == 0
    then []
    else if leb (length input) limit
    then input
    else if splits_pair input start
    then drop (start + 1) input
    else drop start input
