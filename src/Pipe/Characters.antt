-- ===== src/Pipe/Characters.antt =====
-- `valid_scalar`, `valid_utf16` and `valid_utf8` of ime-unix-service/src/pipe/protocol.cpp.
use ime_fcitx.Prelude.{
  ℕ, zero, suc, ◌+◌, ◌-◌, ◌*◌, ◌/◌, ◌%◌, Bool, true, false, not, ◌&&◌, ◌||◌, Option, none, some,
  List, [], ◌∷◌, ◌==◌, leb, ltb, between, length, if◌then◌else◌,
}

unfoldable pub valid_scalar : ℕ → Bool
valid_scalar raw = leb raw 0x10FFFF && not (leb 0xD800 raw && leb raw 0xDFFF)

unfoldable pub valid_utf16 : List ℕ → Bool
valid_utf16 [] = true
valid_utf16 (unit ∷ []) =
    if between 0xD800 0xDBFF unit then false else not (between 0xDC00 0xDFFF unit)
valid_utf16 (unit ∷ next ∷ value) =
    if between 0xD800 0xDBFF unit
    then not (ltb next 0xDC00 || ltb 0xDFFF next) && valid_utf16 value
    else not (between 0xDC00 0xDFFF unit) && valid_utf16 (next ∷ value)

-- The length that a first byte announces, and its bits.
unfoldable pub leading_byte : ℕ → Option (ℕ × ℕ)
leading_byte first =
    if leb first 0x7F
    then some (1, first)
    else if between 0xC2 0xDF first
    then some (2, first % 32)
    else if between 0xE0 0xEF first
    then some (3, first % 16)
    else if between 0xF0 0xF4 first
    then some (4, first % 8)
    else none

-- The loop over the continuation bytes, how many are left: the code point, and what is left of the value.
unfoldable pub continuation_bytes : ℕ → ℕ → List ℕ → Option (ℕ × List ℕ)
continuation_bytes zero codepoint value = some (codepoint, value)
continuation_bytes (suc n) codepoint [] = none
continuation_bytes (suc n) codepoint (continuation ∷ value) =
    if continuation / 64 == 2
    then continuation_bytes n (codepoint * 64 + continuation % 64) value
    else none

-- The three tests at the end of a sequence; a single byte needs none.
unfoldable pub accepts_codepoint : ℕ → ℕ → Bool
accepts_codepoint width codepoint =
    width == 1
    || valid_scalar codepoint
      && not (width == 3 && ltb codepoint 0x800 || width == 4 && ltb codepoint 0x10000)
      && not (width == 3 && leb 0xD800 codepoint && leb codepoint 0xDFFF)

-- What is left of the value after its first character.
unfoldable pub next_character : List ℕ → Option (List ℕ)
next_character [] = none
next_character (first ∷ value) = elim (leading_byte first) [
  | none ↦ none
  | some (width, bits) ↦ elim (continuation_bytes (width - 1) bits value) [
    | none ↦ none
    | some (codepoint, rest) ↦ if accepts_codepoint width codepoint then some rest else none
  ]
]

-- The loop; a round takes a byte at least.
unfoldable pub characters_loop : ℕ → List ℕ → Bool
characters_loop fuel [] = true
characters_loop zero (first ∷ value) = false
characters_loop (suc fuel) (first ∷ value) = elim (next_character (first ∷ value)) [
  | none ↦ false
  | some rest ↦ characters_loop fuel rest
]

unfoldable pub valid_utf8 : List ℕ → Bool
valid_utf8 value = characters_loop (length value) value
