-- ===== src/Interop/Characters.antt =====
-- The character tests of the two codecs agree: ime-unix-service/src/pipe/protocol.cpp against
-- engine/src/protocol/protocol.cpp.
use ime_fcitx.Prelude.{
  ℕ, zero, suc, ◌+◌, ◌-◌, ◌*◌, ◌%◌, not, ◌&&◌, ◌||◌, Option-cases, List, [], ◌∷◌, ltb, between,
  length, if◌then◌else◌, ◌≡◌, refl, arith, inl, inr,
}
use mathlib.Core.Path.{fun_ext, ap₂}
use ime_fcitx.Wire
use ime_fcitx.Pipe

pub valid_scalar-same : Pipe.Characters.valid_scalar ≡ Wire.Characters.valid_scalar
unfolding Pipe.Characters.valid_scalar Wire.Characters.valid_scalar
valid_scalar-same = fun_ext (λ cp. refl)

between-ltb : (next : ℕ) → not (ltb next 0xDC00 || ltb 0xDFFF next) ≡ between 0xDC00 0xDFFF next
between-ltb next = ground arith

-- The loop; the last unit of a text has a case of its own.
valid_utf16_at :
    (value : List ℕ) → Pipe.Characters.valid_utf16 value ≡ Wire.Characters.valid_utf16 value
unfolding Pipe.Characters.valid_utf16 Wire.Characters.valid_utf16
valid_utf16_at [] = refl
valid_utf16_at (unit ∷ []) = ground arith
valid_utf16_at (unit ∷ next ∷ value) =
    let after_pair = valid_utf16_at value in
    let after_unit = valid_utf16_at (next ∷ value) in
    rw (between-ltb next) (
      ap₂
        (λ pair single.
          if between 0xD800 0xDBFF unit
          then between 0xDC00 0xDFFF next && pair
          else not (between 0xDC00 0xDFFF unit) && single)
        after_pair after_unit)

following_bytes-same :
    (n cp : ℕ) (value : List ℕ)
    → Pipe.Characters.continuation_bytes n cp value ≡ Wire.Characters.following_bytes n cp value
unfolding Pipe.Characters.continuation_bytes Wire.Characters.following_bytes
following_bytes-same zero cp value = refl
following_bytes-same (suc n) cp [] = refl
following_bytes-same (suc n) cp (next ∷ value) =
    rw (following_bytes-same n (cp * 64 + next % 64) value) refl

-- The test against surrogates of the service repeats that of a scalar.
accepts-same :
    (width cp : ℕ)
    → Pipe.Characters.accepts_codepoint width cp ≡ Wire.Characters.accepts_sequence width cp
unfolding Pipe.Characters.accepts_codepoint Wire.Characters.accepts_sequence
    Pipe.Characters.valid_scalar Wire.Characters.valid_scalar
accepts-same width cp = ground arith

leading_byte-same :
    (first : ℕ) → Pipe.Characters.leading_byte first ≡ Wire.Characters.first_byte first
unfolding Pipe.Characters.leading_byte Wire.Characters.first_byte
leading_byte-same first = refl

next_character-same :
    (value : List ℕ) → Pipe.Characters.next_character value ≡ Wire.Characters.skip_character value
unfolding Pipe.Characters.next_character Wire.Characters.skip_character
next_character-same [] = refl
next_character-same (first ∷ value) = elim (Option-cases (Wire.Characters.first_byte first)) [
  | inl e ↦
      rw
        (Pipe.Characters.next_character, Wire.Characters.skip_character, leading_byte-same first, e)
        refl
  | inr ((width, bits), e) ↦
      elim (Option-cases (Wire.Characters.following_bytes (width - 1) bits value)) [
        | inl f ↦
            rw
              (
                Pipe.Characters.next_character,
                Wire.Characters.skip_character,
                leading_byte-same first,
                e,
                following_bytes-same (width - 1) bits value,
                f,
              )
              refl
        | inr ((cp, rest), f) ↦
            rw
              (
                Pipe.Characters.next_character,
                Wire.Characters.skip_character,
                leading_byte-same first,
                e,
                following_bytes-same (width - 1) bits value,
                f,
                accepts-same width cp,
              )
              refl
      ]
]

characters_loop-same :
    (fuel : ℕ) (value : List ℕ)
    → Pipe.Characters.characters_loop fuel value ≡ Wire.Characters.utf8_loop fuel value
unfolding Pipe.Characters.characters_loop Wire.Characters.utf8_loop
characters_loop-same zero [] = refl
characters_loop-same (suc fuel) [] = refl
characters_loop-same zero (first ∷ value) = refl
characters_loop-same (suc fuel) (first ∷ value) =
    elim (Option-cases (Wire.Characters.skip_character (first ∷ value))) [
      | inl e ↦
          rw
            (
              Pipe.Characters.characters_loop,
              Wire.Characters.utf8_loop,
              next_character-same (first ∷ value),
              e,
            )
            refl
      | inr (rest, e) ↦
          rw
            (
              Pipe.Characters.characters_loop,
              Wire.Characters.utf8_loop,
              next_character-same (first ∷ value),
              e,
            )
            (characters_loop-same fuel rest)
    ]

pub valid_utf16-same : Pipe.Characters.valid_utf16 ≡ Wire.Characters.valid_utf16
valid_utf16-same = fun_ext valid_utf16_at

pub valid_utf8-same : Pipe.Characters.valid_utf8 ≡ Wire.Characters.valid_utf8
unfolding Pipe.Characters.valid_utf8 Wire.Characters.valid_utf8
valid_utf8-same = fun_ext (λ value. characters_loop-same (length value) value)
