-- ===== src/Text/Utf8.antt =====
-- The UTF-8 half of engine/src/text/utf.cpp. Bytes and code points are numbers, a mask is a remainder, a
-- shift a quotient or a product, and the fields that the code joins by `|` do not overlap, so it is `+`.
-- `none` is the exception.
pub mod RoundTrip
use ime_fcitx.Prelude.{
  ℕ, zero, suc, ◌+◌, ◌-◌, ◌*◌, ◌/◌, ◌%◌, Bool, true, false, not, ◌&&◌, ◌||◌, Option, none, some,
  List, [], ◌∷◌, ◌++◌, ◌==◌, ltb, leb, between, length, if◌then◌else◌,
}

unfoldable pub is_scalar : ℕ → Bool
is_scalar codepoint = not (between 0xD800 0xDFFF codepoint || ltb 0x10FFFF codepoint)

-- The bytes of a code point.
unfoldable pub utf8_bytes : ℕ → List ℕ
utf8_bytes codepoint =
    if leb codepoint 0x7F
    then codepoint ∷ []
    else if leb codepoint 0x7FF
    then (0xC0 + codepoint / 64) ∷ (0x80 + codepoint % 64) ∷ []
    else if leb codepoint 0xFFFF
    then (0xE0 + codepoint / 4096) ∷ (0x80 + codepoint / 64 % 64) ∷ (0x80 + codepoint % 64) ∷ []
    else (0xF0 + codepoint / 262144)
      ∷ (0x80 + codepoint / 4096 % 64)
      ∷ (0x80 + codepoint / 64 % 64)
      ∷ (0x80 + codepoint % 64)
      ∷ []

unfoldable pub append_utf8 : List ℕ → ℕ → Option (List ℕ)
append_utf8 output codepoint =
    if is_scalar codepoint then some (output ++ utf8_bytes codepoint) else none

-- The length that a lead byte announces, and the bits that it carries.
unfoldable pub lead_byte : ℕ → Option (ℕ × ℕ)
lead_byte byte =
    if byte / 128 == 0
    then some (1, byte)
    else if byte / 32 == 6
    then some (2, byte % 32)
    else if byte / 16 == 14
    then some (3, byte % 16)
    else if byte / 8 == 30
    then some (4, byte % 8)
    else none

-- The loop over the continuation bytes: how many are left, the code point so far, the input.
unfoldable pub continuation_bytes : ℕ → ℕ → List ℕ → Option (ℕ × List ℕ)
continuation_bytes zero codepoint input = some (codepoint, input)
continuation_bytes (suc n) codepoint [] = none
continuation_bytes (suc n) codepoint (byte ∷ input) =
    if byte / 64 == 2 then continuation_bytes n (codepoint * 64 + byte % 64) input else none

-- The test for the shortest form of a scalar value.
unfoldable pub is_shortest : ℕ → ℕ → Bool
is_shortest width codepoint = not (
    width == 2 && ltb codepoint 0x80
    || width == 3 && ltb codepoint 0x800
    || width == 4 && ltb codepoint 0x10000
    || between 0xD800 0xDFFF codepoint
    || ltb 0x10FFFF codepoint)

-- One round of `visit_utf8`: the code point at the head of the input, and the rest.
unfoldable pub visit_one : List ℕ → Option (ℕ × List ℕ)
visit_one [] = none
visit_one (byte ∷ input) = elim (lead_byte byte) [
  | none ↦ none
  | some (width, bits) ↦ elim (continuation_bytes (width - 1) bits input) [
    | none ↦ none
    | some (codepoint, rest) ↦ if is_shortest width codepoint then some (codepoint, rest) else none
  ]
]

abbrev pub prepend : List ℕ → Option (List ℕ) → Option (List ℕ)
prepend xs none = none
prepend xs (some ys) = some (xs ++ ys)

-- `visit_utf8` with a visitor that collects the code points; a round takes a byte at least.
unfoldable pub visit_utf8 : ℕ → List ℕ → Option (List ℕ)
visit_utf8 fuel [] = some []
visit_utf8 zero (byte ∷ input) = none
visit_utf8 (suc fuel) (byte ∷ input) = elim (visit_one (byte ∷ input)) [
  | none ↦ none
  | some (codepoint, rest) ↦ prepend (codepoint ∷ []) (visit_utf8 fuel rest)
]

unfoldable pub utf8_to_u32 : List ℕ → Option (List ℕ)
utf8_to_u32 input = visit_utf8 (length input) input

unfoldable pub char32_to_utf8 : ℕ → Option (List ℕ)
char32_to_utf8 codepoint = if codepoint == 0 then some [] else append_utf8 [] codepoint

unfoldable pub first_utf8_codepoint : List ℕ → Option ℕ
first_utf8_codepoint input = elim (utf8_to_u32 input) [
  | none ↦ none
  | some [] ↦ none
  | some (codepoint ∷ rest) ↦ some codepoint
]
