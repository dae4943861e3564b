-- ===== src/Text/Utf8/RoundTrip.antt =====
-- Encoding a code point and reading it back, and the other way around, for engine/src/text/utf.cpp.
use ime_fcitx.Prelude.{
  ℕ, zero, suc, ◌≤◌, ◌<◌, true, Option-cases, inl, inr, some, List, [], ◌∷◌, ◌++◌, append-nil, ◌≡◌,
  ◌≢◌, refl, ap, sym, ◌∙◌, length, All, arith,
}
use ime_fcitx.Text.Utf8.{
  is_scalar, utf8_bytes, append_utf8, lead_byte, continuation_bytes, is_shortest, visit_one,
  prepend, visit_utf8, utf8_to_u32, char32_to_utf8, first_utf8_codepoint,
}

-- A scalar value that has been encoded is read back, whatever follows.
pub visit_one-utf8_bytes :
    (codepoint : ℕ) (rest : List ℕ)
    → is_scalar codepoint ≡ true
    → visit_one (utf8_bytes codepoint ++ rest) ≡ some (codepoint, rest)
unfolding is_scalar utf8_bytes visit_one lead_byte continuation_bytes is_shortest
visit_one-utf8_bytes codepoint rest scalar = ground arith

abbrev pub IsByte : ℕ → Type 0
IsByte byte = byte < 256

-- What is read is a scalar value in its only encoding.
pub visit_one-inverse :
    (input : List ℕ) {codepoint : ℕ} {rest : List ℕ}
    → All IsByte input
    → visit_one input ≡ some (codepoint, rest)
    → (is_scalar codepoint ≡ true) × (input ≡ utf8_bytes codepoint ++ rest)
unfolding is_scalar utf8_bytes visit_one lead_byte continuation_bytes is_shortest
visit_one-inverse [] bytes e = ground arith
visit_one-inverse (a ∷ []) bytes e = ground arith
visit_one-inverse (a ∷ b ∷ []) bytes e = ground arith
visit_one-inverse (a ∷ b ∷ c ∷ []) bytes e = ground arith
visit_one-inverse (a ∷ b ∷ c ∷ d ∷ input) bytes e = ground arith

pub visit_one-shrinks :
    (input : List ℕ) {codepoint : ℕ} {rest : List ℕ}
    → visit_one input ≡ some (codepoint, rest)
    → length rest < length input
unfolding visit_one lead_byte continuation_bytes
visit_one-shrinks [] e = ground arith
visit_one-shrinks (a ∷ []) e = ground arith
visit_one-shrinks (a ∷ b ∷ []) e = ground arith
visit_one-shrinks (a ∷ b ∷ c ∷ []) e = ground arith
visit_one-shrinks (a ∷ b ∷ c ∷ d ∷ input) e = ground arith

-- Two amounts of fuel that reach the length of the input give the same result.
pub visit_utf8_enough :
    (fuel more : ℕ) (input : List ℕ)
    → length input ≤ fuel
    → length input ≤ more
    → visit_utf8 fuel input ≡ visit_utf8 more input
unfolding visit_utf8
visit_utf8_enough fuel more [] h k = refl
visit_utf8_enough zero more (b ∷ bs) h k = ground arith
visit_utf8_enough (suc fuel) zero (b ∷ bs) h k = ground arith
visit_utf8_enough (suc fuel) (suc more) (b ∷ bs) h k = elim (Option-cases (visit_one (b ∷ bs))) [
  | inl e ↦ rw (visit_utf8, e) refl
  | inr ((c, rest), e) ↦
      let shorter = visit_one-shrinks (b ∷ bs) e in
      rw (visit_utf8, e, visit_utf8_enough fuel more rest (omega arith) (omega arith)) refl
]

visit_one_nothing : {codepoint : ℕ} {rest : List ℕ} → visit_one [] ≢ some (codepoint, rest)
unfolding visit_one
visit_one_nothing e = ground arith

pub utf8_to_u32-step :
    (input : List ℕ) {codepoint : ℕ} {rest : List ℕ}
    → visit_one input ≡ some (codepoint, rest)
    → utf8_to_u32 input ≡ prepend (codepoint ∷ []) (utf8_to_u32 rest)
unfolding utf8_to_u32 visit_utf8
utf8_to_u32-step [] e = absurd (visit_one_nothing e)
utf8_to_u32-step (b ∷ bs) {codepoint} {rest} e =
    let shorter = visit_one-shrinks (b ∷ bs) e in
    rw
      (
        utf8_to_u32,
        visit_utf8,
        e,
        visit_utf8_enough (length bs) (length rest) rest (omega arith) (omega arith),
      )
      refl

pub utf8_to_u32-utf8_bytes :
    (codepoint : ℕ) (rest : List ℕ)
    → is_scalar codepoint ≡ true
    → utf8_to_u32 (utf8_bytes codepoint ++ rest) ≡ prepend (codepoint ∷ []) (utf8_to_u32 rest)
utf8_to_u32-utf8_bytes codepoint rest scalar =
    utf8_to_u32-step (utf8_bytes codepoint ++ rest) (visit_one-utf8_bytes codepoint rest scalar)

-- The character of a scalar value other than 0 is encoded, and its first code point is that value.
pub first_utf8_codepoint-char32_to_utf8 :
    (codepoint : ℕ)
    → is_scalar codepoint ≡ true
    → codepoint ≢ 0
    → (char32_to_utf8 codepoint ≡ some (utf8_bytes codepoint))
      × (first_utf8_codepoint (utf8_bytes codepoint) ≡ some codepoint)
unfolding char32_to_utf8 first_utf8_codepoint append_utf8 utf8_to_u32 visit_utf8
first_utf8_codepoint-char32_to_utf8 codepoint scalar positive =
    let back : utf8_to_u32 (utf8_bytes codepoint) ≡ some (codepoint ∷ []) =
      ap utf8_to_u32 (sym (append-nil (utf8_bytes codepoint)))
      ∙ utf8_to_u32-utf8_bytes codepoint [] scalar in
    ground arith
