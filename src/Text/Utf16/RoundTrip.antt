-- ===== src/Text/Utf16/RoundTrip.antt =====
-- From UTF-16 to UTF-8 and back, for engine/src/text/utf.cpp.
use ime_fcitx.Prelude.{
  ℕ, zero, suc, Option-cases, inl, inr, none, some, List, [], ◌∷◌, ◌++◌, ◌≡◌, ◌≢◌, refl, ap, sym,
  ◌∙◌, length, All, arith,
}
use mathlib.Core.Path.{subst}
use ime_fcitx.Text.Utf8.{utf8_bytes, visit_one, prepend, visit_utf8, utf8_to_u32}
use ime_fcitx.Text.Utf8.RoundTrip.{IsByte, visit_one-inverse}
use ime_fcitx.Text.Utf16.{IsUnit, u32_to_u16, utf8_to_u16, paired, encode_units, u16_to_utf8}
use ime_fcitx.Text.Utf16.Bytes.{
  u16_to_utf8_single, u16_units_pair, u16_to_utf8_pair, u16_to_utf8-u16_units,
  u16_to_utf8_single_cases, u16_to_utf8_cases, prepend-some, read_back, u16_units_single,
}

nothing_read : {output : List ℕ} → u16_to_utf8 [] ≡ some output → utf8_to_u16 output ≡ some []
unfolding u16_to_utf8 encode_units utf8_to_u16 utf8_to_u32 visit_utf8 u32_to_u16
nothing_read e = ground arith

-- The UTF-8 text of UTF-16 units is read as these units.
pub utf8_to_u16-u16_to_utf8 :
    (input : List ℕ) {output : List ℕ}
    → All IsUnit input
    → u16_to_utf8 input ≡ some output
    → utf8_to_u16 output ≡ some input
utf8_to_u16-u16_to_utf8 [] units e = nothing_read e
utf8_to_u16-u16_to_utf8 (u ∷ []) (unit, units) e =
    let scalar = u16_to_utf8_single_cases u unit e in
    read_back u [] scalar (sym (u16_to_utf8_single u [] scalar) ∙ e)
      (λ shorter. utf8_to_u16-u16_to_utf8 [] units)
    ∙ ap (λ us. some (us ++ [])) (u16_units_single u unit)
utf8_to_u16-u16_to_utf8 (u ∷ low ∷ rest) (unit, (low_unit, units)) e =
    elim (u16_to_utf8_cases u low rest unit e) [
      | inl scalar ↦
          read_back u (low ∷ rest) scalar (sym (u16_to_utf8_single u (low ∷ rest) scalar) ∙ e)
            (λ shorter. utf8_to_u16-u16_to_utf8 (low ∷ rest) (low_unit, units))
          ∙ ap (λ us. some (us ++ low ∷ rest)) (u16_units_single u unit)
      | inr (h, l) ↦
          let (scalar, pair) = u16_units_pair u low h l in
          read_back (paired u low) rest scalar (sym (u16_to_utf8_pair u low rest h l) ∙ e)
            (λ shorter. utf8_to_u16-u16_to_utf8 rest units)
          ∙ ap (λ us. some (us ++ rest)) pair
    ]

nothing_written :
    {codepoints : List ℕ}
    → some [] ≡ some codepoints
    → u16_to_utf8 (u32_to_u16 codepoints) ≡ some []
unfolding u16_to_utf8 encode_units u32_to_u16
nothing_written e = ground arith

All-append_right : (xs ys : List ℕ) → All IsByte (xs ++ ys) → All IsByte ys
All-append_right [] ys h = h
All-append_right (x ∷ xs) ys (_, h) = All-append_right xs ys h

none_visited : {codepoints : List ℕ} → none ≢ some codepoints
none_visited e = cc

visit_utf8_stop :
    (fuel byte : ℕ) (input : List ℕ)
    → visit_one (byte ∷ input) ≡ none
    → visit_utf8 (suc fuel) (byte ∷ input) ≡ none
unfolding visit_utf8
visit_utf8_stop fuel byte input e = rw (visit_utf8, e) refl

visit_utf8_step :
    (fuel byte : ℕ) (input : List ℕ) {codepoint : ℕ} {rest : List ℕ}
    → visit_one (byte ∷ input) ≡ some (codepoint, rest)
    → visit_utf8 (suc fuel) (byte ∷ input) ≡ prepend (codepoint ∷ []) (visit_utf8 fuel rest)
unfolding visit_utf8
visit_utf8_step fuel byte input e = rw (visit_utf8, e) refl

visit_utf8_back :
    (fuel : ℕ) (input : List ℕ) {codepoints : List ℕ}
    → All IsByte input
    → visit_utf8 fuel input ≡ some codepoints
    → u16_to_utf8 (u32_to_u16 codepoints) ≡ some input
unfolding visit_utf8 u32_to_u16
visit_utf8_back fuel [] bytes e = nothing_written e
visit_utf8_back zero (b ∷ bs) bytes e = ground arith
visit_utf8_back (suc fuel) (b ∷ bs) {codepoints} bytes e =
    elim (Option-cases (visit_one (b ∷ bs))) [
      | inl f ↦ absurd (none_visited (sym (visit_utf8_stop fuel b bs f) ∙ e))
      | inr ((codepoint, rest), f) ↦
          let (scalar, same) = visit_one-inverse (b ∷ bs) bytes f in
          let kept = All-append_right (utf8_bytes codepoint) rest (subst (All IsByte) same bytes) in
          let found : prepend (codepoint ∷ []) (visit_utf8 fuel rest) ≡ some codepoints =
            sym (visit_utf8_step fuel b bs f) ∙ e in
          let (later, g, all) = prepend-some (codepoint ∷ []) (visit_utf8 fuel rest) found in
          let ih = visit_utf8_back fuel rest kept g in
          ap u16_to_utf8 (ap u32_to_u16 all)
          ∙ u16_to_utf8-u16_units codepoint (u32_to_u16 later) scalar
          ∙ ap (prepend (utf8_bytes codepoint)) ih
          ∙ ap some (sym same)
    ]

utf8_to_u16_cases :
    (input : List ℕ) {units : List ℕ}
    → utf8_to_u16 input ≡ some units
    → (codepoints : List ℕ) × (visit_utf8 (length input) input ≡ some codepoints)
      × (u32_to_u16 codepoints ≡ units)
unfolding utf8_to_u16 utf8_to_u32
utf8_to_u16_cases input {units} e = elim (Option-cases (visit_utf8 (length input) input)) [
  | inl f ↦ absurd (none_visited (sym (stop f) ∙ e))
  | inr (codepoints, f) ↦ (codepoints, f, found codepoints f)
]
  where
    stop : visit_utf8 (length input) input ≡ none → utf8_to_u16 input ≡ none
    stop f = rw (utf8_to_u16, utf8_to_u32, f) refl

    found :
        (codepoints : List ℕ)
        → visit_utf8 (length input) input ≡ some codepoints
        → u32_to_u16 codepoints ≡ units
    found codepoints f =
        let g : utf8_to_u16 input ≡ some (u32_to_u16 codepoints) =
          rw (utf8_to_u16, utf8_to_u32, f) refl in
        cc

-- The units of a UTF-8 text are written as that text: no other bytes are read as the same units.
pub u16_to_utf8-utf8_to_u16 :
    (input : List ℕ) {units : List ℕ}
    → All IsByte input
    → utf8_to_u16 input ≡ some units
    → u16_to_utf8 units ≡ some input
u16_to_utf8-utf8_to_u16 input bytes e =
    let (codepoints, f, same) = utf8_to_u16_cases input e in
    ap u16_to_utf8 (sym same) ∙ visit_utf8_back (length input) input bytes f
