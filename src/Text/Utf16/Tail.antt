-- ===== src/Text/Utf16/Tail.antt =====
-- `utf16_tail` of engine/src/text/utf.cpp keeps text that can be written as UTF-8.
use ime_fcitx.Prelude.{
  ℕ, zero, suc, ◌+◌, ◌-◌, ◌≤◌, true, ◌||◌, Bool-cases, inl, inr, none, some, List, [], ◌∷◌, ◌≡◌,
  ◌≢◌, refl, ap, sym, ◌∙◌, leb, length, drop, min, ◌==◌, All, arith,
}
use ime_fcitx.Text.Utf16.{paired, u16_to_utf8, splits_pair, utf16_tail}
use ime_fcitx.Text.Utf16.{IsUnit}
use ime_fcitx.Text.Utf16.Paired.{
  well_paired, u16_to_utf8-well_paired, well_paired-u16_to_utf8, well_paired-drop,
  well_paired-drop_split, empty_paired,
}

pub All-drop : (n : ℕ) (input : List ℕ) → All IsUnit input → All IsUnit (drop n input)
All-drop zero input h = h
All-drop (suc n) [] h = h
All-drop (suc n) (x ∷ input) (_, h) = All-drop n input h

pub length-drop {ℓ} : {A : Type ℓ} (n : ℕ) (xs : List A) → length (drop n xs) ≡ length xs - n
length-drop zero xs = omega arith
length-drop (suc n) [] = omega arith
length-drop (suc n) (x ∷ xs) = omega (arith, length-drop n xs)

pub drop_all {ℓ} : {A : Type ℓ} (xs : List A) → drop (length xs) xs ≡ []
drop_all [] = refl
drop_all (x ∷ xs) = drop_all xs

add_one : (n : ℕ) → n + 1 ≡ suc n
add_one n = omega arith

-- Where the tail starts.
tail_start :
    (input : List ℕ) (limit : ℕ)
    → well_paired input ≡ true
    → (start : ℕ) × (utf16_tail input limit ≡ drop start input)
      × (well_paired (drop start input) ≡ true)
      × (start ≤ length input)
      × (length input ≤ limit + start)
      × (start ≤ length input - limit + 1)
unfolding utf16_tail
tail_start input limit w = elim (Bool-cases (limit == 0 || length input == 0)) [
  | inl none_left ↦ (
    length input,
    rw (none_left, drop_all input) refl,
    rw (drop_all input) empty_paired,
    omega arith,
    omega arith,
    ground arith,
  )
  | inr left ↦ elim (Bool-cases (leb (length input) limit)) [
    | inl whole ↦ (0, rw (left, whole) refl, w, omega arith, ground arith, omega arith)
    | inr longer ↦
        let start = length input - limit in
        elim (Bool-cases (splits_pair input start)) [
          | inl split ↦ (
            suc start,
            rw (left, longer, split) (ap (λ n. drop n input) (add_one start)),
            well_paired-drop_split start input w split,
            ground arith,
            ground arith,
            omega arith,
          )
          | inr apart ↦ (
            start,
            rw (left, longer, apart) refl,
            well_paired-drop start input w apart,
            omega arith,
            omega arith,
            omega arith,
          )
        ]
  ]
]

-- A tail of UTF-16 text that can be written as UTF-8 can be written too. It is what is left of the
-- text after some units, and it has all the units that the limit allows, or one less.
pub utf16_tail-encodable :
    (input : List ℕ) (limit : ℕ) {bytes : List ℕ}
    → All IsUnit input
    → u16_to_utf8 input ≡ some bytes
    → (u16_to_utf8 (utf16_tail input limit) ≢ none)
      × (utf16_tail input limit ≡ drop (length input - length (utf16_tail input limit)) input)
      × (length (utf16_tail input limit) ≤ limit)
      × (min limit (length input) ≤ length (utf16_tail input limit) + 1)
utf16_tail-encodable input limit units e =
    let (start, same, paired, inside, short, long) =
      tail_start input limit (u16_to_utf8-well_paired input e) in
    let size : length (utf16_tail input limit) ≡ length input - start =
      ap length same ∙ length-drop start input in
    let back : length input - length (utf16_tail input limit) ≡ start = omega arith in
    (
      rw same (well_paired-u16_to_utf8 (drop start input) (All-drop start input units) paired),
      same ∙ ap (λ n. drop n input) (sym back),
      omega arith,
      omega arith,
    )
