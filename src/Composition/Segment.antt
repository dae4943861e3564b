-- ===== src/Composition/Segment.antt =====
-- `Segment`, engine/src/buffer/composition_buffer.cpp: one syllable with its candidates, or one literal
-- character.
use ime_fcitx.Prelude.{
  ℕ, ◌+◌, ◌-◌, ◌/◌, ◌%◌, Bool, true, false, not, ◌&&◌, none, some, List, [], ◌∷◌, ◌==◌, ltb, leb,
  if◌then◌else◌, length, get_elem?,
}
use ime_fcitx.Bopomofo.Syllable
use ime_fcitx.Bopomofo.Syllable.{Syllable}

-- `append_utf16` to an empty text: NUL adds nothing, and a value above 0xffff becomes a surrogate pair.
unfoldable pub utf16_units : ℕ → List ℕ
utf16_units value =
    if value == 0
    then []
    else if leb value 0xffff
    then value ∷ []
    else ((0xd800 + (value - 0x10000) / 1024) % 0x10000) ∷ (0xdc00 + (value - 0x10000) % 1024) ∷ []

pub record Segment : Type 0 where
  pub syllable : Syllable
  pub literal : ℕ
  pub candidates : List ℕ
  pub selected_index : ℕ
  pub manually_chosen : Bool
  pub phrase_override_chosen : Bool
  pub reading_finalized : Bool
  pub alternative_readings : List (List ℕ)

-- `Segment next;`
abbrev pub blank : Segment
blank = record {
  syllable = Syllable.new;
  literal = 0;
  candidates = [];
  selected_index = 0;
  manually_chosen = false;
  phrase_override_chosen = false;
  reading_finalized = false;
  alternative_readings = [];
}

unfoldable pub complete : Segment → Bool
complete g = g.reading_finalized && Syllable.complete g.syllable

unfoldable pub empty : Segment → Bool
empty g = Syllable.empty g.syllable

unfoldable pub visible_candidate : Segment → Bool
unfolding complete
visible_candidate g =
    if not (g.literal == 0) then true else complete g && ltb g.selected_index (length g.candidates)

-- `candidates[i]`, which is read only where `i` is in range.
abbrev pub candidate_at : List ℕ → ℕ → ℕ
candidate_at cs i = elim (get_elem? cs i) [ none ↦ 0 | some c ↦ c ]

unfoldable pub selected_candidate : Segment → ℕ
unfolding visible_candidate
selected_candidate g =
    if not (g.literal == 0)
    then g.literal
    else if visible_candidate g
    then candidate_at g.candidates g.selected_index
    else 0

unfoldable pub reading : Segment → List ℕ
reading g = if not (g.literal == 0) then [] else Syllable.text g.syllable

unfoldable pub rendered_text : Segment → List ℕ
unfolding reading visible_candidate selected_candidate
rendered_text g =
    if not (visible_candidate g) then reading g else utf16_units (selected_candidate g)

-- The changes that typing makes to the segment before the caret.
abbrev pub retype : Syllable → Bool → List (List ℕ) → Segment → Segment
retype s finalized alternatives g = record g {
  syllable = s;
  candidates = [];
  selected_index = 0;
  manually_chosen = false;
  phrase_override_chosen = false;
  reading_finalized = finalized;
  alternative_readings = alternatives;
}
