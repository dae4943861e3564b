-- ===== src/Composition/Validity/Choosing.antt =====
-- Setting, pinning and choosing candidates keeps a buffer valid
-- (engine/src/buffer/composition_buffer.cpp).
use ime_fcitx.Prelude.{
  ℕ, zero, suc, ◌+◌, ◌≤◌, ◌<◌, ◌≡◌, refl, ap, inl, inr, Bool, true, not, ◌&&◌, some, List, [], ◌∷◌,
  leb, ◌==◌, if◌then◌else◌, length, get_elem?, arith, Bool-cases, Option-cases, modify,
  length-modify, All, All-get_elem?, lt-length_of_get_elem?,
}
use mathlib.Core.Path.{subst}
use ime_fcitx.Composition.Segment.{Segment}
use ime_fcitx.Composition.Buffer.{Buffer, touch, unmark}
use ime_fcitx.Composition.Candidates.{
  fresh_candidates, set_segment_candidates, pinned_candidates, refresh_segment_candidates, pin,
  pin_range, apply_phrase_override, unpin, unpin_range, range_size, clear_phrase_override_choices,
  chosen, select_candidate, unchosen, cancel_candidate_selection,
}
use ime_fcitx.Composition.Validity.{
  IsValidSegment, IsValidBuffer, unmark-IsValidBuffer, touch-IsValidBuffer, modify-IsValidBuffer,
}

module _ {g : Segment} (v : IsValidSegment g) where
  fresh_candidates-IsValidSegment : (cs : List ℕ) → IsValidSegment (fresh_candidates cs g)
  fresh_candidates-IsValidSegment cs = ground arith

  pinned_candidates-IsValidSegment : (cs : List ℕ) → IsValidSegment (pinned_candidates cs g)
  pinned_candidates-IsValidSegment cs = ground arith

  pub pin-IsValidSegment : (c : ℕ) → IsValidSegment (pin c g)
  unfolding pin
  pin-IsValidSegment c = ground arith

  unpin-IsValidSegment : IsValidSegment (unpin g)
  unfolding unpin
  unpin-IsValidSegment = ground arith

  chosen-IsValidSegment : (i : ℕ) → i < length g.candidates → IsValidSegment (chosen i g)
  chosen-IsValidSegment i h = ground arith

  unchosen-IsValidSegment : IsValidSegment (unchosen g)
  unchosen-IsValidSegment = ground arith

-- The loops over a range keep the number of segments and the validity of each.
All-pin_range :
    (offset : ℕ) (cs : List ℕ) (gs : List Segment)
    → All IsValidSegment gs
    → All IsValidSegment (pin_range offset cs gs)
unfolding pin_range
All-pin_range offset [] gs h = h
All-pin_range offset (c ∷ cs) [] h = tt
All-pin_range zero (c ∷ cs) (g ∷ gs) (h, hs) = (pin-IsValidSegment h c, All-pin_range zero cs gs hs)
All-pin_range (suc offset) (c ∷ cs) (g ∷ gs) (h, hs) = (h, All-pin_range offset (c ∷ cs) gs hs)

pub length-pin_range :
    (offset : ℕ) (cs : List ℕ) (gs : List Segment) → length (pin_range offset cs gs) ≡ length gs
unfolding pin_range
length-pin_range offset [] gs = refl
length-pin_range offset (c ∷ cs) [] = refl
length-pin_range zero (c ∷ cs) (g ∷ gs) = ap suc (length-pin_range zero cs gs)
length-pin_range (suc offset) (c ∷ cs) (g ∷ gs) = ap suc (length-pin_range offset (c ∷ cs) gs)

All-unpin_range :
    (offset count : ℕ) (gs : List Segment)
    → All IsValidSegment gs
    → All IsValidSegment (unpin_range offset count gs)
unfolding unpin_range
All-unpin_range offset zero gs h = h
All-unpin_range offset (suc count) [] h = tt
All-unpin_range zero (suc count) (g ∷ gs) (h, hs) =
    (unpin-IsValidSegment h, All-unpin_range zero count gs hs)
All-unpin_range (suc offset) (suc count) (g ∷ gs) (h, hs) =
    (h, All-unpin_range offset (suc count) gs hs)

length-unpin_range :
    (offset count : ℕ) (gs : List Segment) → length (unpin_range offset count gs) ≡ length gs
unfolding unpin_range
length-unpin_range offset zero gs = refl
length-unpin_range offset (suc count) [] = refl
length-unpin_range zero (suc count) (g ∷ gs) = ap suc (length-unpin_range zero count gs)
length-unpin_range (suc offset) (suc count) (g ∷ gs) =
    ap suc (length-unpin_range offset (suc count) gs)

module _ {b : Buffer} (v : IsValidBuffer b) where
  resegmented :
      (gs : List Segment)
      → length gs ≡ length b.segments
      → All IsValidSegment gs
      → IsValidBuffer (record b { segments = gs })
  resegmented gs e h = record {
    caret_bound = omega arith;
    anchor_bound = omega arith;
    edited_bound = omega arith;
    each = h;
  }

  pub set_segment_candidates-IsValidBuffer :
      (i : ℕ) (cs : List ℕ) (keep : Bool) → IsValidBuffer (set_segment_candidates i cs keep b).0
  unfolding set_segment_candidates
  set_segment_candidates-IsValidBuffer i cs keep = elim (Option-cases (get_elem? b.segments i)) [
    | inl e ↦ rw (e, set_segment_candidates) v
    | inr (g, e) ↦
        rw (e, set_segment_candidates)
          (elim (Bool-cases (keep && g.manually_chosen)) [
            | inl k ↦ rw k v
            | inr k ↦ rw k (
                touch-IsValidBuffer (
                  modify-IsValidBuffer i (fresh_candidates cs) v
                    (λ x _ w. fresh_candidates-IsValidSegment w cs)))
          ])
  ]

  pub refresh_segment_candidates-IsValidBuffer :
      (i : ℕ) (cs : List ℕ) → IsValidBuffer (refresh_segment_candidates i cs b).0
  unfolding refresh_segment_candidates
  refresh_segment_candidates-IsValidBuffer i cs = elim (Option-cases (get_elem? b.segments i)) [
    | inl e ↦ rw (e, refresh_segment_candidates) v
    | inr (g, e) ↦
        rw (e, refresh_segment_candidates)
          (elim (Bool-cases g.phrase_override_chosen) [
            | inl k ↦ rw k (
                touch-IsValidBuffer (
                  modify-IsValidBuffer i (pinned_candidates cs) v
                    (λ x _ w. pinned_candidates-IsValidSegment w cs)))
            | inr k ↦ rw k (set_segment_candidates-IsValidBuffer i cs true)
          ])
  ]

  pub apply_phrase_override-IsValidBuffer :
      (offset : ℕ) (phrase : List ℕ) → IsValidBuffer (apply_phrase_override offset phrase b).0
  unfolding apply_phrase_override
  apply_phrase_override-IsValidBuffer offset phrase =
      let w =
        resegmented (pin_range offset phrase b.segments) (length-pin_range offset phrase b.segments)
          (All-pin_range offset phrase b.segments v.each) in
      ground (arith, w)

  pub clear_phrase_override_choices-IsValidBuffer :
      (offset count : ℕ) → IsValidBuffer (clear_phrase_override_choices offset count b).0
  unfolding clear_phrase_override_choices
  clear_phrase_override_choices-IsValidBuffer offset count =
      let w =
        resegmented (unpin_range offset (range_size offset count) b.segments)
          (length-unpin_range offset (range_size offset count) b.segments)
          (All-unpin_range offset (range_size offset count) b.segments v.each) in
      ground (arith, w)

  -- The segment at `i` changed, the mark dropped, and the caret perhaps behind it.
  rechosen :
      (i c : ℕ) (f : Segment → Segment) {g : Segment}
      → get_elem? b.segments i ≡ some g
      → c ≤ length b.segments
      → IsValidSegment (f g)
      → IsValidBuffer (
          touch (record (unmark b) {
            segments = modify i f b.segments;
            caret = c;
            last_edited_segment = some i;
          }))
  rechosen i c f {g} e le w =
      let m =
        modify-IsValidBuffer i f v (λ x d _.
          let same : g ≡ x = cc in subst (λ (y : Segment). IsValidSegment (f y)) same w) in
      record {
        caret_bound = omega (arith, length-modify i f b.segments);
        anchor_bound = omega arith;
        edited_bound =
            omega
              (arith, length-modify i f b.segments, lt-length_of_get_elem? b.segments i {x = g} e);
        each = m.each;
      }

  valid_at : (i : ℕ) {g : Segment} → get_elem? b.segments i ≡ some g → IsValidSegment g
  valid_at i e = All-get_elem? IsValidSegment b.segments i v.each e

  pub select_candidate-IsValidBuffer :
      (i c : ℕ) (move : Bool) → IsValidBuffer (select_candidate i c move b).0
  unfolding select_candidate
  select_candidate-IsValidBuffer i c move = elim (Option-cases (get_elem? b.segments i)) [
    | inl e ↦ rw (e, select_candidate) v
    | inr (g, e) ↦
        let here = lt-length_of_get_elem? b.segments i {x = g} e in
        rw (e, select_candidate)
          (elim (Bool-cases (leb (length g.candidates) c)) [
            | inl k ↦ rw k v
            | inr k ↦ rw k (
                rechosen i (if move then i + 1 else b.caret) (chosen c) e (ground arith)
                  (chosen-IsValidSegment (valid_at i e) c (ground arith)))
          ])
  ]

  pub cancel_candidate_selection-IsValidBuffer :
      (i : ℕ) → IsValidBuffer (cancel_candidate_selection i b).0
  unfolding cancel_candidate_selection
  cancel_candidate_selection-IsValidBuffer i = elim (Option-cases (get_elem? b.segments i)) [
    | inl e ↦ rw (e, cancel_candidate_selection) v
    | inr (g, e) ↦
        rw (e, cancel_candidate_selection)
          (elim (Bool-cases (not g.manually_chosen && g.selected_index == 0)) [
            | inl k ↦ rw k (unmark-IsValidBuffer v)
            | inr k ↦ rw k (
                rechosen i b.caret unchosen e v.caret_bound
                  (unchosen-IsValidSegment (valid_at i e)))
          ])
  ]
