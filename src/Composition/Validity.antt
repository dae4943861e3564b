-- ===== src/Composition/Validity.antt =====
-- What holds of every segment and of the positions of a buffer
-- (engine/src/buffer/composition_buffer.cpp).
pub mod Typing
pub mod Editing
pub mod Choosing
use ime_fcitx.Prelude.{
  ℕ, zero, suc, ◌+◌, ◌-◌, ◌≤◌, ◌<◌, ◌≡◌, refl, ◌≢◌, ◌⊎◌, inl, inr, Bool, true, false, not, Option,
  none, some, List, [], ◌∷◌, ltb, if◌then◌else◌, length, get_elem?, insert_idx, erase_idx, modify,
  All, length-insert_idx, length-modify, length-erase_idx, All-insert_idx, All-erase_idx,
  All-modify, All-get_elem?, lt-length_of_get_elem?, arith,
}
use ime_fcitx.Bopomofo.Syllable
use ime_fcitx.Bopomofo.Syllable.{Syllable}
use ime_fcitx.Bopomofo.Syllable.Slots.{IsWellFormed}
use ime_fcitx.Composition.Segment
use ime_fcitx.Composition.Segment.{Segment, blank, retype}
use ime_fcitx.Composition.Buffer.{Buffer, new, touch, unmark, segment_before}
use ime_fcitx.Composition.Typing.{insert_segment, retype_segment}
use ime_fcitx.Composition.Editing.{erase_before}

pub record IsValidSegment (g : Segment) : Type 0 where
  pub well_formed : IsWellFormed g.syllable
  -- A segment shows a literal or holds a reading.
  pub not_blank : (g.literal ≢ 0) ⊎ (Syllable.empty g.syllable ≡ false)
  pub selection : (g.selected_index ≡ 0) ⊎ (g.selected_index < length g.candidates)
  pub finalized : g.reading_finalized ≡ true → Syllable.complete g.syllable ≡ true
  -- A pinned character is a choice, of the first candidate.
  pub pinned : g.phrase_override_chosen ≡ true → (g.manually_chosen ≡ true) × (g.selected_index ≡ 0)

-- The position, and the one behind it; 0 where there is none.
abbrev pub position : Option ℕ → ℕ
position none = 0
position (some i) = i

abbrev pub past : Option ℕ → ℕ
past none = 0
past (some i) = suc i

pub record IsValidBuffer (b : Buffer) : Type 0 where
  pub caret_bound : b.caret ≤ length b.segments
  pub anchor_bound : position b.selection_anchor ≤ length b.segments
  pub edited_bound : past b.last_edited_segment ≤ length b.segments
  pub each : All IsValidSegment b.segments

pub new-IsValidBuffer : IsValidBuffer new
new-IsValidBuffer = omega arith

pub segment_before-lt :
    (b : Buffer) {g : Segment}
    → segment_before b ≡ some g
    → (0 < b.caret) × (b.caret - 1 < length b.segments)
segment_before-lt b {g} h =
    (ground arith, lt-length_of_get_elem? b.segments (b.caret - 1) {x = g} (ground arith))

module _ {b : Buffer} where
  pub unmark-IsValidBuffer : IsValidBuffer b → IsValidBuffer (unmark b)
  unmark-IsValidBuffer v = ground arith

  pub touch-IsValidBuffer : IsValidBuffer b → IsValidBuffer (touch b)
  touch-IsValidBuffer v = ground arith

  pub segment_before-IsValid :
      {g : Segment} → IsValidBuffer b → segment_before b ≡ some g → IsValidSegment g
  segment_before-IsValid {g} v h =
      All-get_elem? IsValidSegment b.segments (b.caret - 1) v.each (ground arith)

  pub insert_segment-IsValidBuffer :
      (g : Segment) → IsValidSegment g → IsValidBuffer b → IsValidBuffer (insert_segment g b)
  unfolding insert_segment
  insert_segment-IsValidBuffer g w v = record {
    caret_bound = omega (arith, length-insert_idx b.caret g b.segments);
    anchor_bound = omega (arith, length-insert_idx b.caret g b.segments);
    edited_bound = omega (arith, length-insert_idx b.caret g b.segments);
    each = All-insert_idx IsValidSegment b.caret g b.segments w v.each;
  }

  -- A change of one segment in place.
  pub modify-IsValidBuffer :
      (i : ℕ) (f : Segment → Segment)
      → IsValidBuffer b
      → ((g : Segment) → get_elem? b.segments i ≡ some g → IsValidSegment g → IsValidSegment (f g))
      → IsValidBuffer (record b { segments = modify i f b.segments })
  modify-IsValidBuffer i f v k = record {
    caret_bound = omega (arith, length-modify i f b.segments);
    anchor_bound = omega (arith, length-modify i f b.segments);
    edited_bound = omega (arith, length-modify i f b.segments);
    each = All-modify IsValidSegment i f b.segments v.each k;
  }

  pub erase_before-IsValidBuffer :
      b.selection_anchor ≡ none → 0 < b.caret → IsValidBuffer b → IsValidBuffer (erase_before b)
  unfolding erase_before
  erase_before-IsValidBuffer u p v = record {
    caret_bound = omega (arith, length-erase_idx (b.caret - 1) b.segments);
    anchor_bound = ground arith;
    edited_bound = omega arith;
    each = All-erase_idx IsValidSegment (b.caret - 1) b.segments v.each;
  }

-- Another syllable for the segment, with the candidates dropped.
pub retype-IsValidSegment :
    (s : Syllable) (finalized : Bool) (alternatives : List (List ℕ)) (g : Segment)
    → IsWellFormed s
    → Syllable.empty s ≡ false
    → (finalized ≡ true → Syllable.complete s ≡ true)
    → IsValidSegment (retype s finalized alternatives g)
retype-IsValidSegment s finalized alternatives g w e c = record {
  well_formed = w;
  not_blank = inr e;
  selection = inl refl;
  finalized = c;
  pinned = λ h. cc;
}
