-- ===== src/Text/Utf16/Paired.antt =====
-- Text in which every surrogate stands in a pair, which `u16_to_utf8` of engine/src/text/utf.cpp
-- accepts, and what a cut leaves of it.
use ime_fcitx.Prelude.{
  ℕ, zero, suc, Bool, true, false, not, ◌&&◌, Bool-cases, ◌⊎◌, inl, inr, Option, none, some, List,
  [], ◌∷◌, ◌++◌, ◌≡◌, ◌≢◌, refl, sym, ◌∙◌, drop, All, arith, if◌then◌else◌,
}
use ime_fcitx.Text.Utf8.{is_scalar, utf8_bytes, append_utf8, prepend}
use ime_fcitx.Text.Utf16.{
  is_high_surrogate, is_low_surrogate, paired, encode_units, u16_to_utf8, unit_at, splits_pair,
}
use ime_fcitx.Text.Utf16.{IsUnit}
use ime_fcitx.Text.Utf16.Bytes.{u16_to_utf8_single, u16_to_utf8_pair}

pub surrogates_disjoint : (unit : ℕ) → is_high_surrogate unit ≡ true → is_low_surrogate unit ≡ false
unfolding is_high_surrogate is_low_surrogate
surrogates_disjoint unit h = ground arith

-- Every high surrogate has its low one behind it, and no low one stands alone.
unfoldable pub well_paired : List ℕ → Bool
well_paired [] = true
well_paired (u ∷ []) = not (is_high_surrogate u) && not (is_low_surrogate u)
well_paired (u ∷ v ∷ us) =
    if is_high_surrogate u
    then is_low_surrogate v && well_paired us
    else not (is_low_surrogate u) && well_paired (v ∷ us)

encode_units_cases :
    (output : List ℕ) (u v : ℕ) (us : List ℕ) {bytes : List ℕ}
    → encode_units output (u ∷ v ∷ us) ≡ some bytes
    → ((is_high_surrogate u ≡ true)
        × (is_low_surrogate v ≡ true)
        × (encode_units (output ++ utf8_bytes (paired u v)) us ≡ some bytes))
      ⊎ ((is_high_surrogate u ≡ false)
          × (is_low_surrogate u ≡ false)
          × (encode_units (output ++ utf8_bytes u) (v ∷ us) ≡ some bytes))
unfolding encode_units append_utf8
encode_units_cases output u v us e = elim (Bool-cases (is_high_surrogate u)) [
  | inl h ↦ inl (h, ground arith, ground arith)
  | inr h ↦ inr (h, ground arith, ground arith)
]

pub encode_units-well_paired :
    (output input : List ℕ) {bytes : List ℕ}
    → encode_units output input ≡ some bytes
    → well_paired input ≡ true
unfolding encode_units well_paired append_utf8
encode_units-well_paired output [] e = refl
encode_units-well_paired output (u ∷ []) e = ground arith
encode_units-well_paired output (u ∷ v ∷ us) e = elim (encode_units_cases output u v us e) [
  | inl (h, l, f) ↦
      let kept = encode_units-well_paired (output ++ utf8_bytes (paired u v)) us f in
      rw (well_paired, h, l) kept
  | inr (h, l, f) ↦
      let kept = encode_units-well_paired (output ++ utf8_bytes u) (v ∷ us) f in
      rw (well_paired, h, l) kept
]

pub well_paired_cases :
    (u v : ℕ) (us : List ℕ)
    → well_paired (u ∷ v ∷ us) ≡ true
    → ((is_high_surrogate u ≡ true) × (is_low_surrogate v ≡ true) × (well_paired us ≡ true))
      ⊎ ((is_high_surrogate u ≡ false)
          × (is_low_surrogate u ≡ false)
          × (well_paired (v ∷ us) ≡ true))
unfolding well_paired
well_paired_cases u v us w = elim (Bool-cases (is_high_surrogate u)) [
  | inl h ↦ inl (h, ground arith, ground arith)
  | inr h ↦ inr (h, ground arith, ground arith)
]

pub u16_to_utf8-well_paired :
    (input : List ℕ) {bytes : List ℕ} → u16_to_utf8 input ≡ some bytes → well_paired input ≡ true
unfolding u16_to_utf8
u16_to_utf8-well_paired input e = encode_units-well_paired [] input e

prepend_written : (xs : List ℕ) (o : Option (List ℕ)) → o ≢ none → prepend xs o ≢ none
prepend_written xs none h = h
prepend_written xs (some ys) h = λ e. cc

plain-is_scalar :
    (unit : ℕ)
    → IsUnit unit
    → is_high_surrogate unit ≡ false
    → is_low_surrogate unit ≡ false
    → is_scalar unit ≡ true
unfolding is_scalar is_high_surrogate is_low_surrogate
plain-is_scalar unit bound h l = ground arith

well_paired_last :
    (u : ℕ)
    → well_paired (u ∷ []) ≡ true
    → (is_high_surrogate u ≡ false) × (is_low_surrogate u ≡ false)
unfolding well_paired
well_paired_last u w = ground arith

nothing_written : u16_to_utf8 [] ≢ none
unfolding u16_to_utf8 encode_units
nothing_written e = cc

pub well_paired-u16_to_utf8 :
    (input : List ℕ) → All IsUnit input → well_paired input ≡ true → u16_to_utf8 input ≢ none
well_paired-u16_to_utf8 [] units w = nothing_written
well_paired-u16_to_utf8 (u ∷ []) (unit, units) w =
    let (h, l) = well_paired_last u w in
    rw (u16_to_utf8_single u [] (plain-is_scalar u unit h l))
      (prepend_written (utf8_bytes u) (u16_to_utf8 []) nothing_written)
well_paired-u16_to_utf8 (u ∷ v ∷ us) (unit, (low_unit, units)) w =
    elim (well_paired_cases u v us w) [
      | inl (h, l, kept) ↦ rw (u16_to_utf8_pair u v us h l) (
          prepend_written (utf8_bytes (paired u v)) (u16_to_utf8 us)
            (well_paired-u16_to_utf8 us units kept))
      | inr (h, l, kept) ↦ rw (u16_to_utf8_single u (v ∷ us) (plain-is_scalar u unit h l)) (
          prepend_written (utf8_bytes u) (u16_to_utf8 (v ∷ us))
            (well_paired-u16_to_utf8 (v ∷ us) (low_unit, units) kept))
    ]

splits_pair-suc :
    (u : ℕ) (input : List ℕ) (n : ℕ)
    → splits_pair (u ∷ input) (suc (suc n)) ≡ splits_pair input (suc n)
unfolding splits_pair unit_at
splits_pair-suc u input n = ground arith

splits_pair_one :
    (u v : ℕ) (input : List ℕ)
    → splits_pair (u ∷ v ∷ input) (suc zero) ≡ (is_low_surrogate v && is_high_surrogate u)
unfolding splits_pair unit_at
splits_pair_one u v input = refl

pub empty_paired : well_paired [] ≡ true
unfolding well_paired
empty_paired = refl

pub well_paired-drop :
    (n : ℕ) (input : List ℕ)
    → well_paired input ≡ true
    → splits_pair input n ≡ false
    → well_paired (drop n input) ≡ true
unfolding well_paired
well_paired-drop zero input w s = w
well_paired-drop (suc n) [] w s = refl
well_paired-drop (suc zero) (u ∷ []) w s = refl
well_paired-drop (suc (suc n)) (u ∷ []) w s = refl
well_paired-drop (suc zero) (u ∷ v ∷ us) w s =
    let one = splits_pair_one u v us in
    elim (well_paired_cases u v us w) [ inl (h, l, kept) ↦ ground arith | inr (h, l, kept) ↦ kept ]
well_paired-drop (suc (suc zero)) (u ∷ v ∷ us) w s = elim (well_paired_cases u v us w) [
  | inl (h, l, kept) ↦ kept
  | inr (h, l, kept) ↦
      well_paired-drop (suc zero) (v ∷ us) kept (sym (splits_pair-suc u (v ∷ us) zero) ∙ s)
]
well_paired-drop (suc (suc (suc n))) (u ∷ v ∷ us) w s =
    let later = sym (splits_pair-suc u (v ∷ us) (suc n)) ∙ s in
    elim (well_paired_cases u v us w) [
      | inl (h, l, kept) ↦ well_paired-drop (suc n) us kept (sym (splits_pair-suc v us n) ∙ later)
      | inr (h, l, kept) ↦ well_paired-drop (suc (suc n)) (v ∷ us) kept later
    ]

no_split_at_front : (input : List ℕ) → splits_pair input zero ≢ true
unfolding splits_pair
no_split_at_front input s = cc

no_high_after :
    (low : ℕ) (input : List ℕ)
    → is_low_surrogate low ≡ true
    → splits_pair (low ∷ input) (suc zero) ≢ true
unfolding splits_pair unit_at
no_high_after low input l s = ground (arith, surrogates_disjoint low)

pub well_paired-drop_split :
    (n : ℕ) (input : List ℕ)
    → well_paired input ≡ true
    → splits_pair input n ≡ true
    → well_paired (drop (suc n) input) ≡ true
unfolding well_paired
well_paired-drop_split zero input w s = absurd (no_split_at_front input s)
well_paired-drop_split (suc n) [] w s = refl
well_paired-drop_split (suc zero) (u ∷ []) w s = refl
well_paired-drop_split (suc (suc n)) (u ∷ []) w s = refl
well_paired-drop_split (suc zero) (u ∷ v ∷ us) w s =
    let one = splits_pair_one u v us in
    elim (well_paired_cases u v us w) [ inl (h, l, kept) ↦ kept | inr (h, l, kept) ↦ ground arith ]
well_paired-drop_split (suc (suc zero)) (u ∷ v ∷ us) w s =
    let later = sym (splits_pair-suc u (v ∷ us) zero) ∙ s in
    elim (well_paired_cases u v us w) [
      | inl (h, l, kept) ↦ absurd (no_high_after v us l later)
      | inr (h, l, kept) ↦ well_paired-drop_split (suc zero) (v ∷ us) kept later
    ]
well_paired-drop_split (suc (suc (suc n))) (u ∷ v ∷ us) w s =
    let later = sym (splits_pair-suc u (v ∷ us) (suc n)) ∙ s in
    elim (well_paired_cases u v us w) [
      | inl (h, l, kept) ↦
          well_paired-drop_split (suc n) us kept (sym (splits_pair-suc v us n) ∙ later)
      | inr (h, l, kept) ↦ well_paired-drop_split (suc (suc n)) (v ∷ us) kept later
    ]
