-- ===== src/Tests/Composition.antt =====
-- The theorems on the composition buffer at concrete inputs.
use Prim.Native.Char.{code}
use ime_fcitx.Prelude.{◌≡◌, ◌+◌, refl, true, some, none, [], ◌∷◌, arith, codes, get_elem?, inr}
use ime_fcitx.Bopomofo.Syllable
use ime_fcitx.Bopomofo.Keymap.{standard}
use ime_fcitx.Composition.Segment
use ime_fcitx.Composition.Segment.{Segment, selected_candidate}
use ime_fcitx.Composition.Buffer
use ime_fcitx.Composition.Buffer.{Buffer}
use ime_fcitx.Composition.Typing.{add_bopomofo_keys, is_being_typed}
use ime_fcitx.Composition.Editing.{backspace}
use ime_fcitx.Composition.Candidates.{
  apply_phrase_override, refuses_phrase, range_accepts, accepts_override, pin_range_changes,
  pin_changes,
}
use ime_fcitx.Composition.RollBack.{SameText, add_bopomofo_keys-atomic}
use ime_fcitx.Composition.Overrides.{apply_phrase_override_shows, apply_phrase_override_outside}
use ime_fcitx.Composition.Erasing.{total, Progress, backspace-Progress, press, press_all}
use ime_fcitx.Composition.Validity.{IsValidBuffer, new-IsValidBuffer}
use ime_fcitx.Composition.Session.{run, act, left, back, literal, key, run-IsValidBuffer}
use ime_fcitx.Composition.Session.Staleness.{revision-run}
use ime_fcitx.Tests.Samples.{ni, typing, three, three-IsValidBuffer}

run-IsValidBuffer_example :
    IsValidBuffer (run (literal 65 ∷ key b'u' standard true ∷ left ∷ back ∷ []) Buffer.new)
run-IsValidBuffer_example =
    run-IsValidBuffer (literal 65 ∷ key b'u' standard true ∷ left ∷ back ∷ []) new-IsValidBuffer

-- A literal 0 is refused.
revision-run_example : SameText three (run (literal 0 ∷ literal 0 ∷ []) three)
unfolding run act ime_fcitx.Composition.Typing.add_literal
revision-run_example =
    revision-run (literal 0 ∷ literal 0 ∷ []) three-IsValidBuffer (omega arith) (omega arith) refl

-- The last segment is still being typed.
add_bopomofo_keys-atomic_example :
    SameText three (add_bopomofo_keys (codes "su") b'3' standard true three).0
unfolding add_bopomofo_keys Segment.visible_candidate
add_bopomofo_keys-atomic_example =
    add_bopomofo_keys-atomic (codes "su") b'3' standard true three refl

abbrev pinned : Buffer
pinned = (apply_phrase_override 1 (code "妳" ∷ []) three).0

pinned_accepted : (apply_phrase_override 1 (code "妳" ∷ []) three).1 ≡ true
unfolding apply_phrase_override refuses_phrase range_accepts accepts_override pin_range_changes
    pin_changes Segment.complete Syllable.complete
pinned_accepted = refl

apply_phrase_override_shows_example :
    (g : Segment) × (get_elem? pinned.segments (1 + 0) ≡ some g) × (selected_candidate g ≡ code "妳")
apply_phrase_override_shows_example =
    apply_phrase_override_shows 1 (code "妳" ∷ []) three 0 (code "妳") pinned_accepted refl

apply_phrase_override_outside_example :
    (get_elem? pinned.segments 2 ≡ some typing) × (pinned.caret ≡ 3)
apply_phrase_override_outside_example =
    apply_phrase_override_outside 1 (code "妳" ∷ []) three 2 (inr (omega arith))

abbrev pinned_ni : Segment
pinned_ni = record ni { manually_chosen = true; phrase_override_chosen = true }

abbrev one_pinned : Buffer
one_pinned = record three { segments = pinned_ni ∷ []; caret = 1; last_edited_segment = none }

backspace-Progress_example : Progress three (backspace three)
backspace-Progress_example = backspace-Progress three-IsValidBuffer (omega arith)

press_all_example :
    ((press (total 3 three.segments) three).caret ≡ 0)
    × ((press (total 3 three.segments) three).segments ≡ [])
press_all_example = press_all three-IsValidBuffer

-- A, 你 and the two symbols of ㄏㄠ take four backspaces.
total_three : total 3 three.segments ≡ 4
unfolding total Segment.visible_candidate Segment.complete Syllable.complete Syllable.text
total_three = refl
