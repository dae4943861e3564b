-- ===== src/Text/Utf16/Bytes.antt =====
-- The bytes of units and the units of bytes, code point by code point, for engine/src/text/utf.cpp.
use ime_fcitx.Prelude.{
  ℕ, ◌+◌, ◌-◌, ◌/◌, ◌%◌, true, Bool-cases, Option-cases, ◌⊎◌, inl, inr, Option, none, some, List,
  [], ◌∷◌, ◌++◌, append_assoc, append-nil, ◌≡◌, refl, ap, sym, ◌∙◌, leb, arith,
}
use ime_fcitx.Text.Utf8.{is_scalar, utf8_bytes, append_utf8, prepend, utf8_to_u32}
use ime_fcitx.Text.Utf8.RoundTrip.{utf8_to_u32-utf8_bytes}
use ime_fcitx.Text.Utf16.{
  IsUnit, is_high_surrogate, is_low_surrogate, u16_units, u32_to_u16, utf8_to_u16, paired,
  encode_units, u16_to_utf8,
}

prepend-prepend :
    (xs ys : List ℕ) (o : Option (List ℕ)) → prepend xs (prepend ys o) ≡ prepend (xs ++ ys) o
prepend-prepend xs ys none = refl
prepend-prepend xs ys (some zs) = ap some (sym (append_assoc xs ys zs))

-- What the loop appends does not depend on the output so far.
pub encode_units-prepend :
    (output input : List ℕ) → encode_units output input ≡ prepend output (encode_units [] input)
unfolding encode_units append_utf8
encode_units-prepend output [] = ap some (sym (append-nil output))
encode_units-prepend output (u ∷ []) = ground arith
encode_units-prepend output (u ∷ v ∷ us) =
    let pair : encode_units (output ++ utf8_bytes (paired u v)) us
        ≡ prepend output (encode_units (utf8_bytes (paired u v)) us) =
      encode_units-prepend (output ++ utf8_bytes (paired u v)) us
      ∙ sym (prepend-prepend output (utf8_bytes (paired u v)) (encode_units [] us))
      ∙ ap (prepend output) (sym (encode_units-prepend (utf8_bytes (paired u v)) us)) in
    let single : encode_units (output ++ utf8_bytes u) (v ∷ us)
        ≡ prepend output (encode_units (utf8_bytes u) (v ∷ us)) =
      encode_units-prepend (output ++ utf8_bytes u) (v ∷ us)
      ∙ sym (prepend-prepend output (utf8_bytes u) (encode_units [] (v ∷ us)))
      ∙ ap (prepend output) (sym (encode_units-prepend (utf8_bytes u) (v ∷ us))) in
    ground arith

pub u16_to_utf8_single :
    (unit : ℕ) (input : List ℕ)
    → is_scalar unit ≡ true
    → u16_to_utf8 (unit ∷ input) ≡ prepend (utf8_bytes unit) (u16_to_utf8 input)
unfolding is_high_surrogate is_low_surrogate u16_to_utf8 encode_units append_utf8 is_scalar
u16_to_utf8_single unit [] scalar = let whole = append-nil (utf8_bytes unit) in ground arith
u16_to_utf8_single unit (v ∷ us) scalar =
    let longer = encode_units-prepend (utf8_bytes unit) (v ∷ us) in ground arith

pub u16_units_pair :
    (high low : ℕ)
    → is_high_surrogate high ≡ true
    → is_low_surrogate low ≡ true
    → (is_scalar (paired high low) ≡ true) × (u16_units (paired high low) ≡ high ∷ low ∷ [])
unfolding is_high_surrogate is_low_surrogate u16_units is_scalar
u16_units_pair high low h l = ground arith

pub u16_to_utf8_pair :
    (high low : ℕ) (input : List ℕ)
    → is_high_surrogate high ≡ true
    → is_low_surrogate low ≡ true
    → u16_to_utf8 (high ∷ low ∷ input) ≡ prepend (utf8_bytes (paired high low)) (u16_to_utf8 input)
unfolding u16_to_utf8 encode_units append_utf8
u16_to_utf8_pair high low input h l =
    let (scalar, _) = u16_units_pair high low h l in
    let longer = encode_units-prepend (utf8_bytes (paired high low)) input in ground arith

-- The units of a scalar value in front of units become its bytes in front of theirs.
pub u16_to_utf8-u16_units :
    (codepoint : ℕ) (input : List ℕ)
    → is_scalar codepoint ≡ true
    → u16_to_utf8 (u16_units codepoint ++ input)
      ≡ prepend (utf8_bytes codepoint) (u16_to_utf8 input)
unfolding is_high_surrogate is_low_surrogate u16_units is_scalar
u16_to_utf8-u16_units codepoint input scalar = elim (Bool-cases (leb codepoint 0xFFFF)) [
  | inl e ↦ rw e (u16_to_utf8_single codepoint input scalar)
  | inr e ↦
      let joined : paired (0xD800 + (codepoint - 0x10000) / 1024)
            (0xDC00 + (codepoint - 0x10000) % 1024)
          ≡ codepoint =
        ground arith in
      let high : is_high_surrogate (0xD800 + (codepoint - 0x10000) / 1024) ≡ true = ground arith in
      let low : is_low_surrogate (0xDC00 + (codepoint - 0x10000) % 1024) ≡ true = ground arith in
      rw e (
        u16_to_utf8_pair (0xD800 + (codepoint - 0x10000) / 1024)
          (0xDC00 + (codepoint - 0x10000) % 1024) input high low
        ∙ ap (λ c. prepend (utf8_bytes c) (u16_to_utf8 input)) joined)
]

pub u16_to_utf8_single_cases :
    (unit : ℕ) {output : List ℕ}
    → IsUnit unit
    → u16_to_utf8 (unit ∷ []) ≡ some output
    → is_scalar unit ≡ true
unfolding is_high_surrogate is_low_surrogate u16_to_utf8 encode_units append_utf8 is_scalar
u16_to_utf8_single_cases unit bound e = ground arith

pub u16_to_utf8_cases :
    (unit low : ℕ) (rest : List ℕ) {output : List ℕ}
    → IsUnit unit
    → u16_to_utf8 (unit ∷ low ∷ rest) ≡ some output
    → (is_scalar unit ≡ true) ⊎ ((is_high_surrogate unit ≡ true) × (is_low_surrogate low ≡ true))
unfolding is_high_surrogate is_low_surrogate u16_to_utf8 encode_units append_utf8 is_scalar
u16_to_utf8_cases unit low rest bound e = elim (Bool-cases (is_scalar unit)) [
  | inl scalar ↦ inl scalar
  | inr surrogate ↦ inr (ground arith, ground arith)
]

pub prepend-some :
    (xs : List ℕ) (o : Option (List ℕ)) {ys : List ℕ}
    → prepend xs o ≡ some ys
    → (zs : List ℕ) × (o ≡ some zs) × (ys ≡ xs ++ zs)
prepend-some xs none e = absurd (cc)
prepend-some xs (some zs) e = (zs, refl, cc)

utf8_to_u16-utf8_bytes :
    (codepoint : ℕ) (rest : List ℕ)
    → is_scalar codepoint ≡ true
    → utf8_to_u16 (utf8_bytes codepoint ++ rest) ≡ prepend (u16_units codepoint) (utf8_to_u16 rest)
unfolding utf8_to_u16 u32_to_u16
utf8_to_u16-utf8_bytes codepoint rest scalar =
    let first = utf8_to_u32-utf8_bytes codepoint rest scalar in
    elim (Option-cases (utf8_to_u32 rest)) [
      | inl e ↦ rw (utf8_to_u16, first, e) refl
      | inr (codepoints, e) ↦ rw (utf8_to_u16, first, e) refl
    ]

-- One code point read back, its bytes in front of bytes that are read back.
pub read_back :
    (codepoint : ℕ) (rest : List ℕ) {output : List ℕ}
    → is_scalar codepoint ≡ true
    → prepend (utf8_bytes codepoint) (u16_to_utf8 rest) ≡ some output
    → ((shorter : List ℕ) → u16_to_utf8 rest ≡ some shorter → utf8_to_u16 shorter ≡ some rest)
    → utf8_to_u16 output ≡ some (u16_units codepoint ++ rest)
read_back codepoint rest scalar e back =
    let (shorter, f, same) = prepend-some (utf8_bytes codepoint) (u16_to_utf8 rest) e in
    rw (same, utf8_to_u16-utf8_bytes codepoint shorter scalar, back shorter f) refl

pub u16_units_single : (unit : ℕ) → IsUnit unit → u16_units unit ≡ unit ∷ []
unfolding u16_units
u16_units_single unit bound = ground arith
