-- ===== src/Composition/Candidates.antt =====
-- The operations of `CompositionBuffer` on candidates and phrase overrides
-- (engine/src/buffer/composition_buffer.cpp).
use ime_fcitx.Prelude.{
  ℕ, zero, suc, ◌+◌, ◌-◌, ◌%◌, ◌^◌, Bool, true, false, not, ◌&&◌, ◌||◌, none, some, List, [], ◌∷◌,
  ◌==◌, ltb, leb, if◌then◌else◌, length, get_elem?, modify,
}
use ime_fcitx.Composition.Segment
use ime_fcitx.Composition.Segment.{Segment, selected_candidate}
use ime_fcitx.Composition.Buffer.{Buffer, touch, unmark}

-- `erase(std::remove(begin, end, c), end)`
unfoldable pub remove_all : ℕ → List ℕ → List ℕ
remove_all c [] = []
remove_all c (x ∷ xs) = let rest = remove_all c xs in if x == c then rest else x ∷ rest

abbrev update_segment : ℕ → (Segment → Segment) → Buffer → Buffer
update_segment i f b = record b { segments = modify i f b.segments }

abbrev pub fresh_candidates : List ℕ → Segment → Segment
fresh_candidates cs g = record g {
  candidates = cs;
  selected_index = 0;
  manually_chosen = false;
  phrase_override_chosen = false;
}

unfoldable pub set_segment_candidates : ℕ → List ℕ → Bool → Buffer → Buffer × Bool
set_segment_candidates index cs preserve_manual_choice b = elim (get_elem? b.segments index) [
  | none ↦ (b, false)
  | some g ↦
      if preserve_manual_choice && g.manually_chosen
      then (b, false)
      else (touch (update_segment index (fresh_candidates cs) b), true)
]

-- The new candidates, behind the pinned character.
abbrev pub pinned_candidates : List ℕ → Segment → Segment
pinned_candidates cs g = record g {
  candidates =
      if selected_candidate g == 0
      then cs
      else selected_candidate g ∷ remove_all (selected_candidate g) cs;
  selected_index = 0;
}

unfoldable pub refresh_segment_candidates : ℕ → List ℕ → Buffer → Buffer × Bool
unfolding set_segment_candidates
refresh_segment_candidates index cs b = elim (get_elem? b.segments index) [
  | none ↦ (b, false)
  | some g ↦
      if not g.phrase_override_chosen
      then set_segment_candidates index cs true b
      else (touch (update_segment index (pinned_candidates cs) b), true)
]

-- Whether a phrase may pin the segment: complete, no literal, and not the user's own choice.
unfoldable pub accepts_override : Segment → Bool
accepts_override g =
    Segment.complete g && g.literal == 0 && not (g.manually_chosen && not g.phrase_override_chosen)

-- The check of the range [offset, offset + size).
unfoldable pub range_accepts : ℕ → ℕ → List Segment → Bool
range_accepts offset zero gs = true
range_accepts offset (suc size) [] = false
range_accepts zero (suc size) (g ∷ gs) = accepts_override g && range_accepts zero size gs
range_accepts (suc offset) (suc size) (g ∷ gs) = range_accepts offset (suc size) gs

-- `candidates.empty() || candidates.front() != c`
abbrev pub front_differs : ℕ → List ℕ → Bool
front_differs c [] = true
front_differs c (x ∷ xs) = not (x == c)

unfoldable pub pin : ℕ → Segment → Segment
pin c g = record g {
  candidates = if front_differs c g.candidates then c ∷ remove_all c g.candidates else g.candidates;
  selected_index = 0;
  manually_chosen = true;
  phrase_override_chosen = true;
}

unfoldable pub pin_changes : ℕ → Segment → Bool
pin_changes c g =
    front_differs c g.candidates
    || not (g.selected_index == 0)
    || not g.manually_chosen
    || not g.phrase_override_chosen

-- The loop that pins, and its flag `changed`.
unfoldable pub pin_range : ℕ → List ℕ → List Segment → List Segment
pin_range offset [] gs = gs
pin_range offset (c ∷ cs) [] = []
pin_range zero (c ∷ cs) (g ∷ gs) = pin c g ∷ pin_range zero cs gs
pin_range (suc offset) (c ∷ cs) (g ∷ gs) = g ∷ pin_range offset (c ∷ cs) gs

unfoldable pub pin_range_changes : ℕ → List ℕ → List Segment → Bool
pin_range_changes offset [] gs = false
pin_range_changes offset (c ∷ cs) [] = false
pin_range_changes zero (c ∷ cs) (g ∷ gs) = pin_changes c g || pin_range_changes zero cs gs
pin_range_changes (suc offset) (c ∷ cs) (g ∷ gs) = pin_range_changes offset (c ∷ cs) gs

-- The guards of `apply_phrase_override`.
unfoldable pub refuses_phrase : ℕ → List ℕ → List Segment → Bool
refuses_phrase offset phrase gs =
    length phrase == 0
    || ltb (length gs) offset
    || ltb (length gs - offset) (length phrase)
    || not (range_accepts offset (length phrase) gs)

unfoldable pub apply_phrase_override : ℕ → List ℕ → Buffer → Buffer × Bool
apply_phrase_override offset phrase b =
    if refuses_phrase offset phrase b.segments
    then (b, false)
    else (let b' = record b { segments = pin_range offset phrase b.segments } in
        if pin_range_changes offset phrase b.segments then (touch b', true) else (b', true))

-- The overload for the whole composition.
unfoldable pub apply_phrase_override_all : List ℕ → Buffer → Buffer × Bool
apply_phrase_override_all phrase b =
    if not (length phrase == length b.segments)
    then (b, false)
    else apply_phrase_override 0 phrase b

unfoldable pub unpin : Segment → Segment
unpin g =
    if g.phrase_override_chosen
    then record g { manually_chosen = false; phrase_override_chosen = false }
    else g

unfoldable pub unpin_range : ℕ → ℕ → List Segment → List Segment
unpin_range offset zero gs = gs
unpin_range offset (suc count) [] = []
unpin_range zero (suc count) (g ∷ gs) = unpin g ∷ unpin_range zero count gs
unpin_range (suc offset) (suc count) (g ∷ gs) = g ∷ unpin_range offset (suc count) gs

unfoldable pub any_pinned : ℕ → ℕ → List Segment → Bool
any_pinned offset zero gs = false
any_pinned offset (suc count) [] = false
any_pinned zero (suc count) (g ∷ gs) = g.phrase_override_chosen || any_pinned zero count gs
any_pinned (suc offset) (suc count) (g ∷ gs) = any_pinned offset (suc count) gs

-- How many places there are from `offset` to the sum, which is a `size_t`.
unfoldable pub range_size : ℕ → ℕ → ℕ
range_size offset count = (offset + count) % 2 ^ 64 - offset

-- `end` is cut at the size, as the recursion on the segments ends there.
unfoldable pub clear_phrase_override_choices : ℕ → ℕ → Buffer → Buffer × Bool
clear_phrase_override_choices offset count b =
    let b' = record b { segments = unpin_range offset (range_size offset count) b.segments } in
    if any_pinned offset (range_size offset count) b.segments then (touch b', true) else (b', false)

abbrev pub chosen : ℕ → Segment → Segment
chosen candidate_index g = record g {
  selected_index = candidate_index;
  manually_chosen = true;
  phrase_override_chosen = false;
}

unfoldable pub select_candidate : ℕ → ℕ → Bool → Buffer → Buffer × Bool
select_candidate segment_index candidate_index move_cursor b =
    elim (get_elem? b.segments segment_index) [
      | none ↦ (b, false)
      | some g ↦ if leb (length g.candidates) candidate_index then (b, false) else (
        touch (record (unmark b) {
          segments = modify segment_index (chosen candidate_index) b.segments;
          caret = if move_cursor then segment_index + 1 else b.caret;
          last_edited_segment = some segment_index;
        }),
        true,
      )
    ]

abbrev pub unchosen : Segment → Segment
unchosen g = record g {
  selected_index = 0;
  manually_chosen = false;
  phrase_override_chosen = false;
}

unfoldable pub cancel_candidate_selection : ℕ → Buffer → Buffer × Bool
cancel_candidate_selection segment_index b = elim (get_elem? b.segments segment_index) [
  | none ↦ (b, false)
  | some g ↦ if not g.manually_chosen && g.selected_index == 0 then (unmark b, false) else (
    touch (record (unmark b) {
      segments = modify segment_index unchosen b.segments;
      last_edited_segment = some segment_index;
    }),
    true,
  )
]
