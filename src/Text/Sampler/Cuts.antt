-- ===== src/Text/Sampler/Cuts.antt =====
-- Cuts of a text that keep its surrogate pairs, for engine/src/context/caret_prefix_sampler.hpp.
use ime_fcitx.Prelude.{
  ℕ, zero, suc, ◌+◌, ◌-◌, ◌≤◌, ◌<◌, min, true, false, Bool-cases, inl, inr, List, [], ◌∷◌, ◌≡◌, ◌≢◌,
  refl, ap, ◌∙◌, ltb, length, take, drop, All, arith,
}
use ime_fcitx.Text.Utf16.{is_high_surrogate, is_low_surrogate, unit_at, splits_pair}
use ime_fcitx.Text.Utf16.{IsUnit}
use ime_fcitx.Text.Utf16.Paired.{
  well_paired, well_paired_cases, surrogates_disjoint, empty_paired, well_paired-drop,
  well_paired-drop_split,
}
use ime_fcitx.Text.Sampler.{trimmed, before_caret, window}

zero_not_high : is_high_surrogate 0 ≢ true
unfolding is_high_surrogate
zero_not_high h = cc

not_both : (unit : ℕ) → is_high_surrogate unit ≡ true → is_low_surrogate unit ≢ true
not_both unit h l = ground (arith, surrogates_disjoint unit)

low_not_high : (unit : ℕ) → is_low_surrogate unit ≡ true → is_high_surrogate unit ≡ false
low_not_high unit l = ground (arith, surrogates_disjoint unit)

-- Two high surrogates never stand next to each other.
high_after_high :
    (n : ℕ) (input : List ℕ)
    → well_paired input ≡ true
    → is_high_surrogate (unit_at input (suc n)) ≡ true
    → is_high_surrogate (unit_at input n) ≡ false
unfolding unit_at
high_after_high n [] w h = absurd (zero_not_high h)
high_after_high n (u ∷ []) w h = absurd (zero_not_high h)
high_after_high zero (u ∷ v ∷ us) w h = elim (well_paired_cases u v us w) [
  | inl (hu, lv, kept) ↦ absurd (not_both v h lv)
  | inr (hu, lu, kept) ↦ hu
]
high_after_high (suc zero) (u ∷ v ∷ us) w h = elim (well_paired_cases u v us w) [
  | inl (hu, lv, kept) ↦ low_not_high v lv
  | inr (hu, lu, kept) ↦ high_after_high zero (v ∷ us) kept h
]
high_after_high (suc (suc n)) (u ∷ v ∷ us) w h = elim (well_paired_cases u v us w) [
  | inl (hu, lv, kept) ↦ high_after_high n us kept h
  | inr (hu, lu, kept) ↦ high_after_high (suc n) (v ∷ us) kept h
]

-- A cut that does not end in a high surrogate keeps the pairs.
well_paired-take :
    (n : ℕ) (input : List ℕ)
    → well_paired input ≡ true
    → is_high_surrogate (unit_at input n) ≡ false
    → well_paired (take (suc n) input) ≡ true
unfolding unit_at well_paired
well_paired-take n [] w h = empty_paired
well_paired-take zero (u ∷ []) w h = w
well_paired-take (suc n) (u ∷ []) w h = w
well_paired-take zero (u ∷ v ∷ us) w h = elim (well_paired_cases u v us w) [
  | inl (hu, lv, kept) ↦ ground arith
  | inr (hu, lu, kept) ↦ rw (well_paired, hu, lu) refl
]
well_paired-take (suc zero) (u ∷ v ∷ us) w h = elim (well_paired_cases u v us w) [
  | inl (hu, lv, kept) ↦ rw (well_paired, hu, lv) empty_paired
  | inr (hu, lu, kept) ↦ rw (well_paired, hu, lu) (well_paired-take zero (v ∷ us) kept h)
]
well_paired-take (suc (suc n)) (u ∷ v ∷ us) w h = elim (well_paired_cases u v us w) [
  | inl (hu, lv, kept) ↦ rw (well_paired, hu, lv) (well_paired-take n us kept h)
  | inr (hu, lu, kept) ↦ rw (well_paired, hu, lu) (well_paired-take (suc n) (v ∷ us) kept h)
]

unit_at-take : (n m : ℕ) (input : List ℕ) → m < n → unit_at (take n input) m ≡ unit_at input m
unfolding unit_at
unit_at-take zero m input h = ground arith
unit_at-take (suc n) m [] h = refl
unit_at-take (suc n) zero (u ∷ input) h = refl
unit_at-take (suc n) (suc m) (u ∷ input) h = unit_at-take n m input (omega arith)

pub length-take : {A : Type 0} (n : ℕ) (xs : List A) → length (take n xs) ≡ min n (length xs)
length-take zero xs = omega arith
length-take (suc n) [] = omega arith
length-take (suc n) (x ∷ xs) = omega (arith, length-take n xs)

take-take : {A : Type 0} (n m : ℕ) (xs : List A) → n ≤ m → take n (take m xs) ≡ take n xs
take-take zero m xs h = refl
take-take (suc n) zero xs h = ground arith
take-take (suc n) (suc m) [] h = refl
take-take (suc n) (suc m) (x ∷ xs) h = ap (λ ys. x ∷ ys) (take-take n m xs (omega arith))

-- A cut right before a high surrogate keeps the pairs.
well_paired-take_before :
    (n : ℕ) (input : List ℕ)
    → well_paired input ≡ true
    → is_high_surrogate (unit_at input n) ≡ true
    → well_paired (take n input) ≡ true
well_paired-take_before zero input w h = empty_paired
well_paired-take_before (suc n) input w h = well_paired-take n input w (high_after_high n input w h)

unit_at_inside :
    (n : ℕ) (text : List ℕ) → is_low_surrogate (unit_at text n) ≡ true → n < length text
unfolding unit_at is_low_surrogate
unit_at_inside n [] l = ground arith
unit_at_inside zero (u ∷ text) l = omega arith
unit_at_inside (suc n) (u ∷ text) l = omega (arith, unit_at_inside n text l)

is_low_of :
    (n : ℕ) (text : List ℕ) → splits_pair text n ≡ true → is_low_surrogate (unit_at text n) ≡ true
unfolding splits_pair
is_low_of n text s = ground arith

-- The cut of the first units of a text.
trimmed_cut :
    (n : ℕ) (text : List ℕ)
    → well_paired text ≡ true
    → n ≤ length text
    → (end : ℕ) × (trimmed (take n text) ≡ take end text)
      × (well_paired (take end text) ≡ true)
      × (end ≤ n)
      × (n ≤ end + 1)
unfolding trimmed
trimmed_cut zero text w h = (0, refl, empty_paired, omega arith, omega arith)
trimmed_cut (suc m) text w h =
    let size : length (take (suc m) text) ≡ suc m = length-take (suc m) text ∙ omega arith in
    let last : length (take (suc m) text) - 1 ≡ m = omega arith in
    let there : ltb 0 (length (take (suc m) text)) ≡ true = ground arith in
    let ends : is_high_surrogate (unit_at (take (suc m) text) m)
        ≡ is_high_surrogate (unit_at text m) =
      ap is_high_surrogate (unit_at-take (suc m) m text (omega arith)) in
    elim (Bool-cases (is_high_surrogate (unit_at text m))) [
      | inl high ↦ (
        m,
        rw (last, there, ends, high) (take-take m (suc m) text (omega arith)),
        well_paired-take_before m text w high,
        omega arith,
        omega arith,
      )
      | inr kept ↦ (
        suc m,
        rw (last, there, ends, kept) refl,
        well_paired-take m text w kept,
        omega arith,
        omega arith,
      )
    ]

splits_pair_inside : (n : ℕ) (text : List ℕ) → splits_pair text n ≡ true → n < length text
splits_pair_inside n text s = ground (arith, unit_at_inside n text (is_low_of n text s))

-- Where the window starts keeps the pairs.
pub window_cut :
    (limit : ℕ) (text : List ℕ)
    → well_paired text ≡ true
    → (well_paired (drop (window limit text) text) ≡ true)
      × (window limit text ≤ length text)
      × (length text ≤ limit + window limit text)
      × (window limit text ≤ length text - limit + 1)
unfolding window
window_cut limit text w = elim (Bool-cases (ltb limit (length text))) [
  | inl long ↦
      let start = length text - limit in
      elim (Bool-cases (splits_pair text start)) [
        | inl split ↦
            let inside = splits_pair_inside start text split in
            let next : start + 1 ≡ suc start = omega arith in
            rw (long, split, next)
              (well_paired-drop_split start text w split, omega arith, omega arith, omega arith)
        | inr apart ↦
            rw (long, apart)
              (well_paired-drop start text w apart, omega arith, omega arith, omega arith)
      ]
  | inr short ↦ rw short (w, omega arith, ground arith, omega arith)
]

pub before_caret_cut :
    (text : List ℕ) (caret : ℕ)
    → well_paired text ≡ true
    → (end : ℕ) × (before_caret text caret ≡ take end text)
      × (well_paired (take end text) ≡ true)
      × (end ≤ length text)
      × (end ≤ caret)
      × (min caret (length text) ≤ end + 1)
unfolding before_caret
before_caret_cut text caret w =
    let (end, cut, paired, inside, near) =
      trimmed_cut (min caret (length text)) text w (omega arith) in
    (end, cut, paired, omega arith, omega arith, near)

pub All-take : (n : ℕ) (text : List ℕ) → All IsUnit text → All IsUnit (take n text)
All-take zero text h = tt
All-take (suc n) [] h = h
All-take (suc n) (u ∷ text) (first, h) = (first, All-take n text h)
