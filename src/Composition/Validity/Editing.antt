-- ===== src/Composition/Validity/Editing.antt =====
-- Removing segments, moving the caret and marking keep a buffer valid
-- (engine/src/buffer/composition_buffer.cpp).
use ime_fcitx.Prelude.{
  ℕ, ◌-◌, ◌≡◌, refl, inl, inr, Bool, true, false, Option, none, some, [], leb, ◌==◌, length, arith,
  Bool-cases, Option-cases, length-modify, All-erase_idx,
}
use ime_fcitx.Bopomofo.Syllable
use ime_fcitx.Bopomofo.Syllable.{Syllable}
use ime_fcitx.Bopomofo.Syllable.Slots.{pop_back-IsWellFormed}
use ime_fcitx.Composition.Segment.{Segment, retype, visible_candidate}
use ime_fcitx.Composition.Buffer.{Buffer, segment_before}
use ime_fcitx.Composition.Editing.{
  shorten_segment, backspace_segment, backspace, remove_segment, delete_forward, move_cursor_left,
  move_cursor_right, Delta, leftward, still, rightward, extend_by, extend_selection,
  clear_selection, clear, find_unfinished, clear_unfinished_reading,
}
use ime_fcitx.Composition.Validity.{
  IsValidSegment, IsValidBuffer, unmark-IsValidBuffer, touch-IsValidBuffer, segment_before-IsValid,
  segment_before-lt, modify-IsValidBuffer, retype-IsValidSegment, erase_before-IsValidBuffer,
}

module _ {b : Buffer} (v : IsValidBuffer b) where
  shorten_segment-IsValidBuffer :
      (g : Segment)
      → b.selection_anchor ≡ none
      → segment_before b ≡ some g
      → IsValidBuffer (shorten_segment (Syllable.pop_back g.syllable).0 b)
  unfolding shorten_segment
  shorten_segment-IsValidBuffer g u h =
      let s = (Syllable.pop_back g.syllable).0 in
      let w = pop_back-IsWellFormed (segment_before-IsValid v h).well_formed in
      elim (Bool-cases (Syllable.empty s)) [
        | inl e ↦ rw e (erase_before-IsValidBuffer u (segment_before-lt b h).0 v)
        | inr e ↦
            let m =
              modify-IsValidBuffer (b.caret - 1) (retype s false []) v
                (λ g _ _. retype-IsValidSegment s false [] g w e (λ k. cc)) in
            rw e (record {
              caret_bound = m.caret_bound;
              anchor_bound = m.anchor_bound;
              edited_bound = omega (
                arith,
                segment_before-lt b h,
                length-modify (b.caret - 1) (retype s false []) b.segments,
              );
              each = m.each;
            })
      ]

  backspace_segment-IsValidBuffer :
      (g : Segment)
      → b.selection_anchor ≡ none
      → segment_before b ≡ some g
      → IsValidBuffer (backspace_segment g b).0
  unfolding backspace_segment
  backspace_segment-IsValidBuffer g u h =
      let shortened = shorten_segment-IsValidBuffer g u h in
      elim (Bool-cases (visible_candidate g)) [
        | inl e ↦
            rw e (touch-IsValidBuffer (erase_before-IsValidBuffer u (segment_before-lt b h).0 v))
        | inr e ↦ rw e (elim (Bool-cases (Syllable.pop_back g.syllable).1) [
          | inl r ↦ rw r (touch-IsValidBuffer shortened)
          | inr r ↦ rw r shortened
        ])
      ]

module _ {b : Buffer} (v : IsValidBuffer b) where
  pub backspace-IsValidBuffer : IsValidBuffer (backspace b).0
  unfolding backspace
  backspace-IsValidBuffer = elim (Option-cases (segment_before b)) [
    | inl h ↦ rw (h, backspace) (unmark-IsValidBuffer v)
    | inr (g, h) ↦
        rw (h, backspace) (backspace_segment-IsValidBuffer (unmark-IsValidBuffer v) g refl h)
  ]

  pub remove_segment-IsValidBuffer : (i : ℕ) → IsValidBuffer (remove_segment i b).0
  unfolding remove_segment
  remove_segment-IsValidBuffer i = elim (Bool-cases (leb (length b.segments) i)) [
    | inl e ↦ rw e (unmark-IsValidBuffer v)
    | inr e ↦ rw e (record {
      caret_bound = ground arith;
      anchor_bound = omega arith;
      edited_bound = omega arith;
      each = All-erase_idx IsValidSegment i b.segments v.each;
    })
  ]

  pub delete_forward-IsValidBuffer : IsValidBuffer (delete_forward b).0
  unfolding delete_forward
  delete_forward-IsValidBuffer = ground (arith, remove_segment-IsValidBuffer b.caret)

  pub move_cursor_left-IsValidBuffer : IsValidBuffer (move_cursor_left b).0
  unfolding move_cursor_left
  move_cursor_left-IsValidBuffer = ground arith

  pub move_cursor_right-IsValidBuffer : IsValidBuffer (move_cursor_right b).0
  unfolding move_cursor_right
  move_cursor_right-IsValidBuffer = ground arith

  extend_by-IsValidBuffer :
      (blank : Bool) (delta : Delta) → IsValidBuffer (extend_by blank delta b).0
  extend_by-IsValidBuffer true delta = v
  extend_by-IsValidBuffer false still = v
  extend_by-IsValidBuffer false leftward = ground arith
  extend_by-IsValidBuffer false rightward = ground arith

  pub extend_selection-IsValidBuffer : (delta : Delta) → IsValidBuffer (extend_selection delta b).0
  unfolding extend_selection
  extend_selection-IsValidBuffer delta = extend_by-IsValidBuffer (length b.segments == 0) delta

  pub clear_selection-IsValidBuffer : IsValidBuffer (clear_selection b).0
  unfolding clear_selection
  clear_selection-IsValidBuffer = ground arith

  pub clear-IsValidBuffer : IsValidBuffer (clear b)
  unfolding clear
  clear-IsValidBuffer = ground arith

  clear_first-IsValidBuffer :
      (o : Option ℕ)
      → IsValidBuffer
          (elim o as (λ _. Buffer × Bool) [ none ↦ (b, false) | some i ↦ remove_segment i b ]).0
  clear_first-IsValidBuffer none = v
  clear_first-IsValidBuffer (some i) = remove_segment-IsValidBuffer i

  pub clear_unfinished_reading-IsValidBuffer : IsValidBuffer (clear_unfinished_reading b).0
  unfolding clear_unfinished_reading
  clear_unfinished_reading-IsValidBuffer = ground (
    arith,
    remove_segment-IsValidBuffer (b.caret - 1),
    remove_segment-IsValidBuffer b.caret,
    clear_first-IsValidBuffer (find_unfinished b.segments),
  )
