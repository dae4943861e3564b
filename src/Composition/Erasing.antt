-- ===== src/Composition/Erasing.antt =====
-- Pressing backspace empties the text before the caret (`backspace`,
-- engine/src/buffer/composition_buffer.cpp).
use ime_fcitx.Prelude.{
  ℕ, zero, suc, ◌+◌, ◌-◌, ◌≡◌, ◌<◌, refl, ◌∙◌, inl, inr, Bool, true, false, ◌==◌, length,
  if◌then◌else◌, none, some, List, [], ◌∷◌, Bool-cases, Option-cases, arith, get_elem?, drop,
  erase_idx, modify, get_elem?_of_lt,
}
use ime_fcitx.Bopomofo.Syllable
use ime_fcitx.Bopomofo.Syllable.{Syllable}
use ime_fcitx.Bopomofo.Syllable.Reading.{pop_back-length}
use ime_fcitx.Composition.Segment.{Segment, visible_candidate, retype}
use ime_fcitx.Composition.Buffer.{Buffer, unmark, segment_before}
use ime_fcitx.Composition.Editing.{erase_before, shorten_segment, backspace_segment, backspace}
use ime_fcitx.Composition.Validity.{IsValidSegment, IsValidBuffer, segment_before-IsValid}
use ime_fcitx.Composition.Validity.Editing.{backspace-IsValidBuffer}

-- How many backspaces a segment takes.
abbrev pub weight : Segment → ℕ
weight g = if visible_candidate g then 1 else length (Syllable.text g.syllable)

-- How many the first `n` segments take.
unfoldable pub total : ℕ → List Segment → ℕ
total zero gs = 0
total (suc n) [] = 0
total (suc n) (g ∷ gs) = weight g + total n gs

total-erase_idx :
    (i : ℕ) (gs : List Segment) {g : Segment}
    → get_elem? gs i ≡ some g
    → (total i (erase_idx i gs) + weight g ≡ total (suc i) gs)
      × (drop i (erase_idx i gs) ≡ drop (suc i) gs)
unfolding total erase_idx
total-erase_idx i [] e = absurd (cc)
total-erase_idx zero (x ∷ gs) {g} e = let same : x ≡ g = cc in (rw same (omega arith), refl)
total-erase_idx (suc i) (x ∷ gs) e = let (p, q) = total-erase_idx i gs e in (omega arith, q)

total-modify :
    (i : ℕ) (f : Segment → Segment) (gs : List Segment) {g : Segment}
    → get_elem? gs i ≡ some g
    → (total (suc i) (modify i f gs) + weight g ≡ total (suc i) gs + weight (f g))
      × (drop (suc i) (modify i f gs) ≡ drop (suc i) gs)
unfolding total modify
total-modify i f [] e = absurd (cc)
total-modify zero f (x ∷ gs) {g} e = let same : x ≡ g = cc in (rw same (omega arith), refl)
total-modify (suc i) f (x ∷ gs) e = let (p, q) = total-modify i f gs e in (omega arith, q)

-- What one backspace has to do: it succeeds, uses up one unit before the caret, and keeps what is behind.
abbrev pub Progress : Buffer → Buffer × Bool → Type 0
Progress b (b', removed) =
    (removed ≡ true)
    × (suc (total b'.caret b'.segments) ≡ total b.caret b.segments)
    × (drop b'.caret b'.segments ≡ drop b.caret b.segments)

text_of_empty : (s : Syllable) → Syllable.empty s ≡ true → length (Syllable.text s) ≡ 0
unfolding Syllable.empty Syllable.text
text_of_empty s h = ground arith

hidden-ne-empty :
    (g : Segment)
    → IsValidSegment g
    → visible_candidate g ≡ false
    → Syllable.empty g.syllable ≡ false
unfolding visible_candidate
hidden-ne-empty g v h = ground (arith, v.not_blank)

-- Taking back a symbol of a reading that is shown as such.
hidden_pop_back :
    (g : Segment)
    → IsValidSegment g
    → visible_candidate g ≡ false
    → ((Syllable.pop_back g.syllable).1 ≡ true)
      × (suc (length (Syllable.text (Syllable.pop_back g.syllable).0))
          ≡ length (Syllable.text g.syllable))
hidden_pop_back g v h = ground (arith, hidden-ne-empty g v h, pop_back-length g.syllable)

hidden_retype :
    (s : Syllable) (g : Segment)
    → visible_candidate g ≡ false
    → visible_candidate (retype s false [] g) ≡ false
unfolding visible_candidate
hidden_retype s g h = ground arith

module _ (b : Buffer) (i : ℕ) (g : Segment) (at : b.caret ≡ suc i)
    (here : get_elem? b.segments i ≡ some g) where
  erase_before-progress :
      (total (erase_before b).caret (erase_before b).segments + weight g ≡ total b.caret b.segments)
      × (drop (erase_before b).caret (erase_before b).segments ≡ drop b.caret b.segments)
  unfolding erase_before
  erase_before-progress =
      let e : b.caret - 1 ≡ i = omega arith in rw (e, at) (total-erase_idx i b.segments here)

  shorten_segment-progress :
      IsValidSegment g
      → visible_candidate g ≡ false
      → let b' = shorten_segment (Syllable.pop_back g.syllable).0 b in
        (suc (total b'.caret b'.segments) ≡ total b.caret b.segments)
        × (drop b'.caret b'.segments ≡ drop b.caret b.segments)
  unfolding shorten_segment
  shorten_segment-progress v h =
      let s = (Syllable.pop_back g.syllable).0 in
      let (removed, shorter) = hidden_pop_back g v h in
      elim (Bool-cases (Syllable.empty s)) [
        | inl e ↦
            let (p, q) = erase_before-progress in
            rw e (ground (arith, p, text_of_empty s e, h, shorter), q)
        | inr e ↦
            let k : b.caret - 1 ≡ i = omega arith in
            let (p, q) = total-modify i (retype s false []) b.segments here in
            rw (e, k, at) (ground (arith, p, h, shorter, hidden_retype s g h), q)
      ]

  backspace_segment-Progress : IsValidSegment g → Progress b (backspace_segment g b)
  unfolding backspace_segment
  backspace_segment-Progress v = elim (Bool-cases (visible_candidate g)) [
    | inl h ↦ let (p, q) = erase_before-progress in rw h (refl, ground (arith, p, h), q)
    | inr h ↦
        let (p, q) = shorten_segment-progress v h in
        let (removed, _) = hidden_pop_back g v h in rw h (rw removed (refl, p, q))
  ]

-- On a valid buffer with text before the caret a backspace succeeds, takes one unit of that text, and
-- keeps the segments behind the caret.
pub backspace-Progress : {b : Buffer} → IsValidBuffer b → 0 < b.caret → Progress b (backspace b)
unfolding backspace
backspace-Progress {b} v p = elim (Option-cases (segment_before b)) [
  | inl h ↦ absurd (no_segment h)
  | inr (g, h) ↦
      rw (h, backspace)
        (backspace_segment-Progress (unmark b) (b.caret - 1) g (omega arith) (ground arith)
          (segment_before-IsValid v h))
]
  where
    no_segment : segment_before b ≡ none → ⊥
    no_segment h =
        let (g, e) = get_elem?_of_lt b.segments (b.caret - 1) (omega (arith, v.caret_bound)) in
        ground (arith, h, e)

-- `n` backspaces in a row.
unfoldable pub press : ℕ → Buffer → Buffer
press zero b = b
press (suc n) b = press n (backspace b).0

press-total :
    (n : ℕ) {b : Buffer}
    → IsValidBuffer b
    → total b.caret b.segments ≡ n
    → ((press n b).caret ≡ 0) × ((press n b).segments ≡ drop b.caret b.segments)
unfolding press
press-total zero {b} v e = elim (Bool-cases (b.caret == 0)) [
  | inl z ↦ let at : b.caret ≡ 0 = ground arith in (at, rw at refl)
  | inr n ↦ let (_, more, _) = backspace-Progress v (ground arith) in absurd (omega arith)
]
press-total (suc n) {b} v e = elim (Bool-cases (b.caret == 0)) [
  | inl z ↦ let at : b.caret ≡ 0 = ground arith in absurd (nothing (rw at at e))
  | inr p ↦
      let (_, fewer, same) = backspace-Progress v (ground arith) in
      let (c, s) = press-total n (backspace-IsValidBuffer v) (omega arith) in (c, s ∙ same)
]
  where
    nothing : total 0 b.segments ≡ suc n → ⊥
    nothing h = unfold total in cc

-- On a valid buffer, as many backspaces as the text before the caret has units leave exactly the segments
-- behind it.
pub press_all :
    {b : Buffer}
    → IsValidBuffer b
    → ((press (total b.caret b.segments) b).caret ≡ 0)
      × ((press (total b.caret b.segments) b).segments ≡ drop b.caret b.segments)
press_all {b} v = press-total (total b.caret b.segments) v refl
