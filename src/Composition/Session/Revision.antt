-- ===== src/Composition/Session/Revision.antt =====
-- The revision tells whether the text may have changed (`touch`, engine/src/buffer/composition_buffer.cpp).
use ime_fcitx.Prelude.{
  ℕ, ◌-◌, ◌≡◌, refl, ◌⊎◌, inl, inr, Bool, true, false, ◌==◌, length, Option, none, some, List,
  Option-cases, arith,
}
use ime_fcitx.Bopomofo.Syllable
use ime_fcitx.Composition.Segment
use ime_fcitx.Composition.Segment.{Segment}
use ime_fcitx.Composition.Buffer.{Buffer, next_revision, unmark, segment_before}
use ime_fcitx.Composition.Typing.{
  add_new_bopomofo, add_bopomofo, add_literal, insert_segment, retype_segment, add_bopomofo_key,
  enter_key, active_segment, key_answer, add_bopomofo_key_cases,
}
use ime_fcitx.Composition.Editing.{
  Delta, leftward, still, rightward, erase_before, shorten_segment, backspace_segment, backspace,
  delete_forward, move_cursor_left, move_cursor_right, extend_by, extend_selection, clear_selection,
  clear, clear_unfinished_reading, remove_segment, find_unfinished,
}
use ime_fcitx.Composition.Candidates.{
  set_segment_candidates, refresh_segment_candidates, apply_phrase_override,
  apply_phrase_override_all, range_size, clear_phrase_override_choices, select_candidate,
  cancel_candidate_selection,
}
use ime_fcitx.Composition.Validity.{IsValidSegment, IsValidBuffer, segment_before-IsValid}
use ime_fcitx.Composition.Overrides.{pin_range_unchanged, unpin_range_unchanged}
use ime_fcitx.Bopomofo.Syllable.{Syllable}
use ime_fcitx.Bopomofo.Hsu.{KeyResult}
use ime_fcitx.Bopomofo.Keymap.{KeyboardLayout}

-- An operation touches the buffer once, or leaves text, caret and revision alone.
abbrev pub Touches : Buffer → Buffer → Type 0
Touches b b' =
    (b'.revision ≡ next_revision b.revision)
    ⊎ (b'.revision ≡ b.revision) × (b'.segments ≡ b.segments) × (b'.caret ≡ b.caret)

module _ (b : Buffer) where
  insert_segment-touches : (g : Segment) → (insert_segment g b).revision ≡ next_revision b.revision
  unfolding insert_segment
  insert_segment-touches g = refl

  pub add_new_bopomofo-Touches : (c : ℕ) → Touches b (add_new_bopomofo c b).0
  unfolding add_new_bopomofo insert_segment
  add_new_bopomofo-Touches c = ground arith

  pub add_bopomofo-Touches : (c : ℕ) → Touches b (add_bopomofo c b).0
  unfolding add_bopomofo add_new_bopomofo insert_segment retype_segment
  add_bopomofo-Touches c = ground arith

  pub add_literal-Touches : (c : ℕ) → Touches b (add_literal c b).0
  unfolding add_literal insert_segment
  add_literal-Touches c = ground arith

  pub remove_segment-Touches : (i : ℕ) → Touches b (remove_segment i b).0
  unfolding remove_segment
  remove_segment-Touches i = ground arith

  pub delete_forward-Touches : Touches b (delete_forward b).0
  unfolding delete_forward
  delete_forward-Touches = ground (arith, remove_segment-Touches b.caret)

  pub move_cursor_left-Touches : Touches b (move_cursor_left b).0
  unfolding move_cursor_left
  move_cursor_left-Touches = ground arith

  pub move_cursor_right-Touches : Touches b (move_cursor_right b).0
  unfolding move_cursor_right
  move_cursor_right-Touches = ground arith

  extend_by-Touches : (blank : Bool) (delta : Delta) → Touches b (extend_by blank delta b).0
  extend_by-Touches true delta = ground arith
  extend_by-Touches false still = ground arith
  extend_by-Touches false leftward = ground arith
  extend_by-Touches false rightward = ground arith

  pub extend_selection-Touches : (delta : Delta) → Touches b (extend_selection delta b).0
  unfolding extend_selection
  extend_selection-Touches delta = extend_by-Touches (length b.segments == 0) delta

  pub clear_selection-Touches : Touches b (clear_selection b).0
  unfolding clear_selection
  clear_selection-Touches = ground arith

  pub clear-Touches : Touches b (clear b)
  unfolding clear
  clear-Touches = ground arith

  pub clear_unfinished_reading-Touches : Touches b (clear_unfinished_reading b).0
  unfolding clear_unfinished_reading
  clear_unfinished_reading-Touches = ground (
    arith,
    remove_segment-Touches (b.caret - 1),
    remove_segment-Touches b.caret,
    first (find_unfinished b.segments),
  )
    where
      first :
          (o : Option ℕ)
          → Touches b
              (elim o as (λ _. Buffer × Bool) [ none ↦ (b, false) | some i ↦ remove_segment i b ]).0
      first none = inr (refl, refl, refl)
      first (some i) = remove_segment-Touches i

  pub set_segment_candidates-Touches :
      (i : ℕ) (cs : List ℕ) (keep : Bool) → Touches b (set_segment_candidates i cs keep b).0
  unfolding set_segment_candidates
  set_segment_candidates-Touches i cs keep = ground arith

  pub refresh_segment_candidates-Touches :
      (i : ℕ) (cs : List ℕ) → Touches b (refresh_segment_candidates i cs b).0
  unfolding refresh_segment_candidates
  refresh_segment_candidates-Touches i cs = ground arith

  pub select_candidate-Touches : (i c : ℕ) (move : Bool) → Touches b (select_candidate i c move b).0
  unfolding select_candidate
  select_candidate-Touches i c move = ground arith

  pub cancel_candidate_selection-Touches : (i : ℕ) → Touches b (cancel_candidate_selection i b).0
  unfolding cancel_candidate_selection
  cancel_candidate_selection-Touches i = ground arith

  pub apply_phrase_override-Touches :
      (offset : ℕ) (phrase : List ℕ) → Touches b (apply_phrase_override offset phrase b).0
  unfolding apply_phrase_override
  apply_phrase_override-Touches offset phrase =
      ground (arith, pin_range_unchanged offset phrase b.segments)

  pub apply_phrase_override_all-Touches :
      (phrase : List ℕ) → Touches b (apply_phrase_override_all phrase b).0
  unfolding apply_phrase_override_all
  apply_phrase_override_all-Touches phrase = ground (arith, apply_phrase_override-Touches 0 phrase)

  pub clear_phrase_override_choices-Touches :
      (offset count : ℕ) → Touches b (clear_phrase_override_choices offset count b).0
  unfolding clear_phrase_override_choices
  clear_phrase_override_choices-Touches offset count =
      ground (arith, unpin_range_unchanged offset (range_size offset count) b.segments)

  enter_key-touches :
      (layout : KeyboardLayout) (key : ℕ) (upper : Bool) (o : Option Segment) (s : Syllable)
      (r : KeyResult)
      → (enter_key layout key upper o s r b).0.revision ≡ next_revision b.revision
  unfolding enter_key insert_segment retype_segment
  enter_key-touches layout key upper none s r = refl
  enter_key-touches layout key upper (some g) s r = refl

-- A key that is taken touches once.
pub add_bopomofo_key-Touches :
    (key : ℕ) (layout : KeyboardLayout) (upper : Bool) (b : Buffer)
    → Touches b (add_bopomofo_key key layout upper b).0
add_bopomofo_key-Touches key layout upper b = elim (add_bopomofo_key_cases key layout upper b) [
  | inl (_, e) ↦ rw e (inr (refl, refl, refl))
  | inr (_, e) ↦
      let p = key_answer key layout upper b in
      rw e (inl (enter_key-touches (unmark b) layout key upper (active_segment b) p.0 p.1))
]

pop_back_removes : (s : Syllable) → Syllable.empty s ≡ false → (Syllable.pop_back s).1 ≡ true
unfolding Syllable.empty Syllable.pop_back
pop_back_removes s h = ground arith

-- A segment that is not visible is no literal, so there is a symbol to take back.
backspace_segment-touches :
    (g : Segment) (b : Buffer)
    → IsValidSegment g
    → (backspace_segment g b).0.revision ≡ next_revision b.revision
unfolding backspace_segment erase_before shorten_segment Segment.visible_candidate
backspace_segment-touches g b v = ground (arith, pop_back_removes g.syllable, v.not_blank)

pub backspace-Touches : {b : Buffer} → IsValidBuffer b → Touches b (backspace b).0
unfolding backspace
backspace-Touches {b} v = elim (Option-cases (segment_before b)) [
  | inl h ↦ rw (h, backspace) (inr (refl, refl, refl))
  | inr (g, h) ↦
      rw (h, backspace) (inl (backspace_segment-touches g (unmark b) (segment_before-IsValid v h)))
]
