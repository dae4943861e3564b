-- ===== src/Composition/Overrides.antt =====
-- Phrase overrides: what pinning a phrase changes, and what it leaves alone
-- (apply_phrase_override and its kin, engine/src/buffer/composition_buffer.cpp).
use ime_fcitx.Prelude.{
  ℕ, zero, suc, ◌+◌, ◌≡◌, ◌≢◌, ◌≤◌, ◌<◌, refl, ap, ◌⊎◌, inl, inr, true, false, length, some, List,
  [], ◌∷◌, Bool-cases, arith, get_elem?, get_elem?-modify_self,
}
use native.Mathlib.Nat.{zero-add, suc-add}
use ime_fcitx.Composition.Segment
use ime_fcitx.Composition.Segment.{Segment, complete, visible_candidate, selected_candidate}
use ime_fcitx.Composition.Buffer.{Buffer}
use ime_fcitx.Composition.Candidates.{
  refresh_segment_candidates, accepts_override, range_accepts, refuses_phrase,
  apply_phrase_override, range_size, clear_phrase_override_choices, pin_range, pin_range_changes,
  pin, pin_changes, unpin, unpin_range, any_pinned, pinned_candidates,
}
use ime_fcitx.Composition.Validity.Choosing.{length-pin_range}

-- The flag `changed` is exact: without it nothing changes.
pub pin_unchanged : (c : ℕ) (g : Segment) → pin_changes c g ≡ false → pin c g ≡ g
unfolding pin pin_changes
pin_unchanged c g h = ground arith

pub pin_range_unchanged :
    (offset : ℕ) (cs : List ℕ) (gs : List Segment)
    → pin_range_changes offset cs gs ≡ false
    → pin_range offset cs gs ≡ gs
unfolding pin_range pin_range_changes
pin_range_unchanged offset [] gs h = refl
pin_range_unchanged offset (c ∷ cs) [] h = refl
pin_range_unchanged zero (c ∷ cs) (g ∷ gs) h =
    ground (arith, pin_unchanged c g, pin_range_unchanged zero cs gs)
pin_range_unchanged (suc offset) (c ∷ cs) (g ∷ gs) h =
    ap (g ∷◌) (pin_range_unchanged offset (c ∷ cs) gs h)

-- A pinned segment is accepted and left alone by the same phrase.
pin-settled : (c : ℕ) (g : Segment) → pin_changes c (pin c g) ≡ false
unfolding pin pin_changes
pin-settled c g = ground arith

accepts_override-pin :
    (c : ℕ) (g : Segment) → accepts_override g ≡ true → accepts_override (pin c g) ≡ true
unfolding accepts_override pin Segment.complete
accepts_override-pin c g h = ground arith

pin_range-settled :
    (offset : ℕ) (cs : List ℕ) (gs : List Segment)
    → pin_range_changes offset cs (pin_range offset cs gs) ≡ false
unfolding pin_range pin_range_changes
pin_range-settled offset [] gs = refl
pin_range-settled offset (c ∷ cs) [] = refl
pin_range-settled zero (c ∷ cs) (g ∷ gs) =
    ground (arith, pin-settled c g, pin_range-settled zero cs gs)
pin_range-settled (suc offset) (c ∷ cs) (g ∷ gs) = pin_range-settled offset (c ∷ cs) gs

range_accepts-pin_range :
    (offset : ℕ) (cs : List ℕ) (gs : List Segment)
    → range_accepts offset (length cs) gs ≡ true
    → range_accepts offset (length cs) (pin_range offset cs gs) ≡ true
unfolding pin_range range_accepts
range_accepts-pin_range offset [] gs h = refl
range_accepts-pin_range offset (c ∷ cs) [] h = h
range_accepts-pin_range zero (c ∷ cs) (g ∷ gs) h =
    ground (arith, accepts_override-pin c g, range_accepts-pin_range zero cs gs)
range_accepts-pin_range (suc offset) (c ∷ cs) (g ∷ gs) h =
    range_accepts-pin_range offset (c ∷ cs) gs h

refuses_phrase-pin_range :
    (offset : ℕ) (phrase : List ℕ) (gs : List Segment)
    → refuses_phrase offset phrase gs ≡ false
    → refuses_phrase offset phrase (pin_range offset phrase gs) ≡ false
unfolding refuses_phrase
refuses_phrase-pin_range offset phrase gs h =
    ground (arith, length-pin_range offset phrase gs, range_accepts-pin_range offset phrase gs)

-- A phrase that was pinned can be pinned again, and then changes nothing, the revision included.
pub apply_phrase_override-idempotent :
    (offset : ℕ) (phrase : List ℕ) (b : Buffer)
    → (apply_phrase_override offset phrase b).1 ≡ true
    → apply_phrase_override offset phrase (apply_phrase_override offset phrase b).0
      ≡ ((apply_phrase_override offset phrase b).0, true)
unfolding apply_phrase_override
apply_phrase_override-idempotent offset phrase b h =
    let gs = b.segments in
    elim (Bool-cases (refuses_phrase offset phrase gs)) [
      | inl e ↦ absurd (cc)
      | inr e ↦
          let settled = pin_range-settled offset phrase gs in
          ground (
            arith,
            e,
            refuses_phrase-pin_range offset phrase gs e,
            settled,
            pin_range_unchanged offset phrase (pin_range offset phrase gs) settled,
          )
    ]

-- A refused phrase changes nothing.
pub apply_phrase_override_refused :
    (offset : ℕ) (phrase : List ℕ) (b : Buffer)
    → (apply_phrase_override offset phrase b).1 ≡ false
    → (apply_phrase_override offset phrase b).0 ≡ b
unfolding apply_phrase_override
apply_phrase_override_refused offset phrase b h = ground arith

selected_candidate-pin :
    (c : ℕ) (g : Segment) → accepts_override g ≡ true → selected_candidate (pin c g) ≡ c
unfolding accepts_override pin selected_candidate
selected_candidate-pin c g h = ground arith

-- The segments of a phrase that was accepted show its characters, one by one.
pin_range_shows :
    (offset : ℕ) (cs : List ℕ) (gs : List Segment) (i : ℕ) {c : ℕ}
    → range_accepts offset (length cs) gs ≡ true
    → get_elem? cs i ≡ some c
    → (g : Segment) × (get_elem? (pin_range offset cs gs) (offset + i) ≡ some g)
      × (selected_candidate g ≡ c)
unfolding pin_range range_accepts
pin_range_shows offset [] gs i h e = cc
pin_range_shows offset (d ∷ cs) [] i h e = absurd (cc)
pin_range_shows zero (d ∷ cs) (g ∷ gs) zero {c} h e =
    (pin d g, refl, ground (arith, selected_candidate-pin d g))
pin_range_shows zero (d ∷ cs) (g ∷ gs) (suc i) h e =
    let rest : range_accepts zero (length cs) gs ≡ true = ground arith in
    rw zero-add (rw zero-add at (pin_range_shows zero cs gs i rest e))
pin_range_shows (suc offset) (d ∷ cs) (g ∷ gs) i h e =
    rw suc-add (pin_range_shows offset (d ∷ cs) gs i h e)

-- Outside its range a phrase leaves every segment alone.
pin_range_outside :
    (offset : ℕ) (cs : List ℕ) (gs : List Segment) (j : ℕ)
    → (j < offset) ⊎ (offset + length cs ≤ j)
    → get_elem? (pin_range offset cs gs) j ≡ get_elem? gs j
unfolding pin_range
pin_range_outside offset [] gs j h = refl
pin_range_outside offset (c ∷ cs) [] j h = refl
pin_range_outside zero (c ∷ cs) (g ∷ gs) zero h = absurd (omega arith)
pin_range_outside zero (c ∷ cs) (g ∷ gs) (suc j) h = pin_range_outside zero cs gs j (omega arith)
pin_range_outside (suc offset) (c ∷ cs) (g ∷ gs) zero h = refl
pin_range_outside (suc offset) (c ∷ cs) (g ∷ gs) (suc j) h =
    pin_range_outside offset (c ∷ cs) gs j (omega arith)

range_accepts_each :
    (offset size : ℕ) (gs : List Segment) (i : ℕ) {g : Segment}
    → range_accepts offset size gs ≡ true
    → i < size
    → get_elem? gs (offset + i) ≡ some g
    → accepts_override g ≡ true
unfolding range_accepts
range_accepts_each offset zero gs i h lt e = elim lt [ ]
range_accepts_each offset (suc size) [] i h lt e = absurd (cc)
range_accepts_each zero (suc size) (x ∷ gs) zero {g} h lt e =
    let same : x ≡ g = cc in ground (arith, same)
range_accepts_each zero (suc size) (x ∷ gs) (suc i) h lt e =
    let rest : range_accepts zero size gs ≡ true = ground arith in
    range_accepts_each zero size gs i rest (omega arith) (rw zero-add (rw zero-add at e))
range_accepts_each (suc offset) (suc size) (x ∷ gs) i h lt e =
    range_accepts_each offset (suc size) gs i h lt (rw suc-add at e)

module _ (offset : ℕ) (phrase : List ℕ) (b : Buffer) where
  accepted_range :
      (apply_phrase_override offset phrase b).1 ≡ true
      → (range_accepts offset (length phrase) b.segments ≡ true)
        × ((apply_phrase_override offset phrase b).0.segments ≡ pin_range offset phrase b.segments)
        × ((apply_phrase_override offset phrase b).0.caret ≡ b.caret)
  unfolding apply_phrase_override refuses_phrase
  accepted_range h = ground arith

  -- A phrase that is accepted shows each of its characters, in the segment at the character's place.
  pub apply_phrase_override_shows :
      (i c : ℕ)
      → (apply_phrase_override offset phrase b).1 ≡ true
      → get_elem? phrase i ≡ some c
      → (g : Segment) × (get_elem? (apply_phrase_override offset phrase b).0.segments (offset + i)
          ≡ some g)
        × (selected_candidate g ≡ c)
  apply_phrase_override_shows i c h k =
      let (ok, e, _) = accepted_range h in rw e (pin_range_shows offset phrase b.segments i ok k)

  -- A phrase, accepted or not, leaves the segments outside its range and the caret alone.
  pub apply_phrase_override_outside :
      (j : ℕ)
      → (j < offset) ⊎ (offset + length phrase ≤ j)
      → (get_elem? (apply_phrase_override offset phrase b).0.segments j ≡ get_elem? b.segments j)
        × ((apply_phrase_override offset phrase b).0.caret ≡ b.caret)
  unfolding apply_phrase_override
  apply_phrase_override_outside j h = ground (arith, pin_range_outside offset phrase b.segments j)

  -- A phrase is refused, and nothing changes, where its range holds a literal, a reading that is not
  -- complete, or a candidate that the user chose.
  pub apply_phrase_override_respects :
      (i : ℕ) (g : Segment)
      → i < length phrase
      → get_elem? b.segments (offset + i) ≡ some g
      → (g.literal ≢ 0)
        ⊎ (complete g ≡ false)
        ⊎ (g.manually_chosen ≡ true) × (g.phrase_override_chosen ≡ false)
      → apply_phrase_override offset phrase b ≡ (b, false)
  unfolding apply_phrase_override refuses_phrase accepts_override
  apply_phrase_override_respects i g lt e k =
      ground (arith, range_accepts_each offset (length phrase) b.segments i {g = g}, e)

-- Letting go of the pins.
unpin_range_lem :
    (offset count : ℕ) (gs : List Segment)
    → any_pinned offset count (unpin_range offset count gs) ≡ false
unfolding any_pinned unpin_range unpin
unpin_range_lem offset zero gs = refl
unpin_range_lem offset (suc count) [] = refl
unpin_range_lem zero (suc count) (g ∷ gs) = ground (arith, unpin_range_lem zero count gs)
unpin_range_lem (suc offset) (suc count) (g ∷ gs) = unpin_range_lem offset (suc count) gs

pub unpin_range_unchanged :
    (offset count : ℕ) (gs : List Segment)
    → any_pinned offset count gs ≡ false
    → unpin_range offset count gs ≡ gs
unfolding any_pinned unpin_range unpin
unpin_range_unchanged offset zero gs h = refl
unpin_range_unchanged offset (suc count) [] h = refl
unpin_range_unchanged zero (suc count) (g ∷ gs) h =
    ground (arith, unpin_range_unchanged zero count gs)
unpin_range_unchanged (suc offset) (suc count) (g ∷ gs) h =
    ap (g ∷◌) (unpin_range_unchanged offset (suc count) gs h)

-- Clearing the pins of a range twice is clearing them once, and the second time answers that nothing
-- changed.
pub clear_phrase_override_choices-idempotent :
    (offset count : ℕ) (b : Buffer)
    → clear_phrase_override_choices offset count (clear_phrase_override_choices offset count b).0
      ≡ ((clear_phrase_override_choices offset count b).0, false)
unfolding clear_phrase_override_choices
clear_phrase_override_choices-idempotent offset count b =
    let gs = b.segments in
    let size = range_size offset count in
    let none_left = unpin_range_lem offset size gs in
    ground
      (arith, none_left, unpin_range_unchanged offset size (unpin_range offset size gs) none_left)

-- Refreshing the candidates of a segment that shows a pinned character goes on showing it.
pub refresh-keeps_pin :
    (i : ℕ) (cs : List ℕ) (b : Buffer) (g : Segment)
    → get_elem? b.segments i ≡ some g
    → g.phrase_override_chosen ≡ true
    → selected_candidate g ≢ 0
    → (g' : Segment) × (get_elem? (refresh_segment_candidates i cs b).0.segments i ≡ some g')
      × (selected_candidate g' ≡ selected_candidate g)
unfolding refresh_segment_candidates
refresh-keeps_pin i cs b g e p n = (
  pinned_candidates cs g,
  ground (arith, get_elem?-modify_self i (pinned_candidates cs) b.segments {x = g} e),
  unfold selected_candidate visible_candidate in ground arith,
)
