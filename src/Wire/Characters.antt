-- ===== src/Wire/Characters.antt =====
-- `valid_scalar`, `valid_utf16` and `valid_utf8` of engine/src/protocol/protocol.cpp.
use ime_fcitx.Prelude.{
  ℕ, zero, suc, ◌+◌, ◌-◌, ◌*◌, ◌/◌, ◌%◌, Bool, true, false, not, ◌&&◌, ◌||◌, Option, none, some,
  List, [], ◌∷◌, ◌==◌, leb, ltb, between, length, if◌then◌else◌,
}

unfoldable pub valid_scalar : ℕ → Bool
valid_scalar cp = leb cp 0x10FFFF && not (between 0xD800 0xDFFF cp)

unfoldable pub valid_utf16 : List ℕ → Bool
valid_utf16 [] = true
valid_utf16 (unit ∷ []) = not (between 0xD800 0xDBFF unit) && not (between 0xDC00 0xDFFF unit)
valid_utf16 (unit ∷ low ∷ value) =
    if between 0xD800 0xDBFF unit
    then between 0xDC00 0xDFFF low && valid_utf16 value
    else not (between 0xDC00 0xDFFF unit) && valid_utf16 (low ∷ value)

-- The length that a first byte announces, and its bits.
unfoldable pub first_byte : ℕ → Option (ℕ × ℕ)
first_byte first =
    if leb first 0x7F
    then some (1, first)
    else if between 0xC2 0xDF first
    then some (2, first % 32)
    else if between 0xE0 0xEF first
    then some (3, first % 16)
    else if between 0xF0 0xF4 first
    then some (4, first % 8)
    else none

-- The loop over the bytes that follow, how many are left: the code point, and what is left of the value.
unfoldable pub following_bytes : ℕ → ℕ → List ℕ → Option (ℕ × List ℕ)
following_bytes zero cp value = some (cp, value)
following_bytes (suc n) cp [] = none
following_bytes (suc n) cp (next ∷ value) =
    if next / 64 == 2 then following_bytes n (cp * 64 + next % 64) value else none

-- The test at the end of a sequence; a single byte needs none.
unfoldable pub accepts_sequence : ℕ → ℕ → Bool
accepts_sequence width cp =
    width == 1
    || valid_scalar cp && not (width == 3 && ltb cp 0x800 || width == 4 && ltb cp 0x10000)

-- What is left of the value after its first character.
unfoldable pub skip_character : List ℕ → Option (List ℕ)
skip_character [] = none
skip_character (first ∷ value) = elim (first_byte first) [
  | none ↦ none
  | some (width, bits) ↦ elim (following_bytes (width - 1) bits value) [
    | none ↦ none
    | some (cp, rest) ↦ if accepts_sequence width cp then some rest else none
  ]
]

-- The loop; a round takes a byte at least.
unfoldable pub utf8_loop : ℕ → List ℕ → Bool
utf8_loop fuel [] = true
utf8_loop zero (first ∷ value) = false
utf8_loop (suc fuel) (first ∷ value) = elim (skip_character (first ∷ value)) [
  | none ↦ false
  | some rest ↦ utf8_loop fuel rest
]

unfoldable pub valid_utf8 : List ℕ → Bool
valid_utf8 value = utf8_loop (length value) value
