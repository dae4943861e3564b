-- ===== src/Composition/Views.antt =====
-- What `CompositionBuffer` shows of its state (engine/src/buffer/composition_buffer.cpp).
use ime_fcitx.Prelude.{
  ℕ, ◌+◌, ◌-◌, min, max, Bool, false, not, ◌&&◌, ◌||◌, Option, none, some, List, [], ◌∷◌, ◌++◌,
  ◌==◌, ltb, leb, if◌then◌else◌, length, get_elem?, take, drop,
}
use ime_fcitx.Composition.Segment
use ime_fcitx.Composition.Segment.{Segment, visible_candidate, rendered_text, reading}
use ime_fcitx.Composition.Buffer.{Buffer}
use ime_fcitx.Composition.Editing.{is_unfinished}

unfoldable pub marked_range : Buffer → Option (ℕ × ℕ)
marked_range b = elim b.selection_anchor [
  | none ↦ none
  | some anchor ↦
      let begin = min anchor b.caret in
      let end = max anchor b.caret in
      if begin == end || ltb (length b.segments) end then none else some (begin, end)
]

unfoldable pub rendered : List Segment → List ℕ
rendered [] = []
rendered (g ∷ gs) = rendered_text g ++ rendered gs

-- `segments_[i]` for i in [begin, end)
abbrev pub slice : ℕ → ℕ → List Segment → List Segment
slice begin end gs = take (end - begin) (drop begin gs)

unfoldable pub marked_text : Buffer → List ℕ
unfolding marked_range rendered
marked_text b = elim (marked_range b) [
  | none ↦ []
  | some (begin, end) ↦ rendered (slice begin end b.segments)
]

-- All the readings of a range, or none at all.
unfoldable pub readings_of : List Segment → Option (List (List ℕ))
readings_of [] = some []
readings_of (g ∷ gs) =
    if Segment.complete g && visible_candidate g && not (length (reading g) == 0)
    then elim (readings_of gs) [ none ↦ none | some rs ↦ some (reading g ∷ rs) ]
    else none

unfoldable pub marked_readings : Buffer → List (List ℕ)
unfolding marked_range readings_of
marked_readings b = elim (marked_range b) [
  | none ↦ []
  | some (begin, end) ↦ elim (readings_of (slice begin end b.segments)) [ none ↦ [] | some rs ↦ rs ]
]

any_unfinished : List Segment → Bool
any_unfinished [] = false
any_unfinished (g ∷ gs) = is_unfinished g || any_unfinished gs

unfoldable pub has_unfinished_reading : Buffer → Bool
unfolding any_unfinished
has_unfinished_reading b = any_unfinished b.segments

unfoldable pub has_unfinished_reading_before_caret : Buffer → Bool
has_unfinished_reading_before_caret b =
    if b.caret == 0 || ltb (length b.segments) b.caret
    then false
    else elim (get_elem? b.segments (b.caret - 1)) [ none ↦ false | some g ↦ is_unfinished g ]

all_readings : List Segment → List ℕ
all_readings [] = []
all_readings (g ∷ gs) = reading g ++ all_readings gs

unfoldable pub raw_composition : Buffer → List ℕ
unfolding all_readings
raw_composition b = all_readings b.segments

-- `commit_text` is the same text.
unfoldable pub rendered_composition : Buffer → List ℕ
unfolding rendered
rendered_composition b = rendered b.segments

unfoldable pub rendered_prefix_before_caret : Buffer → List ℕ
unfolding rendered
rendered_prefix_before_caret b = rendered (take (min b.caret (length b.segments)) b.segments)

visible_text : List Segment → List ℕ
visible_text [] = []
visible_text (g ∷ gs) = (if visible_candidate g then rendered_text g else []) ++ visible_text gs

unfoldable pub candidate_commit_text : Buffer → List ℕ
unfolding visible_text
candidate_commit_text b = visible_text b.segments

pub data CandidateTarget : Type 0 where
  before_cursor after_cursor : CandidateTarget

abbrev complete_at : List Segment → ℕ → Option ℕ
complete_at gs index = elim (get_elem? gs index) [
  | none ↦ none
  | some g ↦ if Segment.complete g then some index else none
]

unfoldable pub candidate_target : Buffer → CandidateTarget → Option ℕ
candidate_target b before_cursor =
    if length b.segments == 0 || b.caret == 0 then none else complete_at b.segments (b.caret - 1)
candidate_target b after_cursor =
    if length b.segments == 0 || leb (length b.segments) b.caret
    then none
    else complete_at b.segments b.caret

unfoldable pub indices_from : ℕ → List Segment → List ℕ
indices_from i [] = []
indices_from i (g ∷ gs) =
    let rest = indices_from (i + 1) gs in if Segment.complete g then i ∷ rest else rest

unfoldable pub completed_segment_indices : Buffer → List ℕ
unfolding indices_from
completed_segment_indices b = indices_from 0 b.segments

unfoldable pub segment_selected_index : Buffer → ℕ → Option ℕ
segment_selected_index b index = elim (get_elem? b.segments index) [
  | none ↦ none
  | some g ↦ if visible_candidate g then some g.selected_index else none
]

abbrev explicitly_chosen : List Segment → ℕ → Bool
explicitly_chosen gs i = elim (get_elem? gs i) [
  | none ↦ false
  | some g ↦ g.manually_chosen && not g.phrase_override_chosen
]

unfoldable pub manually_chosen_segment_at_caret : Buffer → Option ℕ
manually_chosen_segment_at_caret b =
    if ltb 0 b.caret && explicitly_chosen b.segments (b.caret - 1)
    then some (b.caret - 1)
    else if ltb b.caret (length b.segments) && explicitly_chosen b.segments b.caret
    then some b.caret
    else none
