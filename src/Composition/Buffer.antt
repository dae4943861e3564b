-- ===== src/Composition/Buffer.antt =====
-- The state of class `CompositionBuffer`, engine/src/buffer/composition_buffer.hpp. A position is an
-- index into `segments`; the revision is a 64-bit counter.
use ime_fcitx.Prelude.{ℕ, ◌+◌, ◌-◌, ◌%◌, ◌^◌, Option, none, List, [], ltb, if◌then◌else◌, get_elem?}
use ime_fcitx.Composition.Segment.{Segment}

pub record Buffer : Type 0 where
  pub segments : List Segment
  pub caret : ℕ
  pub revision : ℕ
  pub last_edited_segment : Option ℕ
  pub selection_anchor : Option ℕ

abbrev pub new : Buffer
new = record {
  segments = [];
  caret = 0;
  revision = 0;
  last_edited_segment = none;
  selection_anchor = none;
}

-- `++revision_` on a 64-bit counter
unfoldable pub next_revision : ℕ → ℕ
next_revision r = (r + 1) % 2 ^ 64

abbrev pub touch : Buffer → Buffer
touch b = record b { revision = next_revision b.revision }

-- `selection_anchor_.reset()`
abbrev pub unmark : Buffer → Buffer
unmark b = record b { selection_anchor = none }

-- `segments_[caret_ - 1]` behind the test `caret_ > 0`
abbrev pub segment_before : Buffer → Option Segment
segment_before b = if ltb 0 b.caret then get_elem? b.segments (b.caret - 1) else none
