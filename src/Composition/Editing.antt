-- ===== src/Composition/Editing.antt =====
-- The operations of `CompositionBuffer` that remove segments, move the caret and mark a range
-- (engine/src/buffer/composition_buffer.cpp).
use ime_fcitx.Prelude.{
  ℕ, ◌+◌, ◌-◌, min, Bool, true, false, not, ◌&&◌, Option, none, some, List, [], ◌∷◌, ◌==◌, ltb, leb,
  if◌then◌else◌, length, get_elem?, erase_idx, modify,
}
use ime_fcitx.Bopomofo.Syllable
use ime_fcitx.Bopomofo.Syllable.{Syllable}
use ime_fcitx.Composition.Segment
use ime_fcitx.Composition.Segment.{Segment, visible_candidate, retype}
use ime_fcitx.Composition.Buffer.{Buffer, touch, unmark, segment_before}

-- `segments_.erase` of the segment before the caret
unfoldable pub erase_before : Buffer → Buffer
erase_before b = record b {
  segments = erase_idx (b.caret - 1) b.segments;
  caret = b.caret - 1;
  last_edited_segment = none;
}

-- What is left of the segment before the caret, whose reading is now `s`.
unfoldable pub shorten_segment : Syllable → Buffer → Buffer
shorten_segment s b = if Syllable.empty s then erase_before b else record b {
  segments = modify (b.caret - 1) (retype s false []) b.segments;
  last_edited_segment = some (b.caret - 1);
}

-- On the segment before the caret; a visible candidate goes whole, a reading by its last symbol.
unfoldable pub backspace_segment : Segment → Buffer → Buffer × Bool
backspace_segment g b =
    if visible_candidate g
    then (touch (erase_before b), true)
    else (let (s, removed) = Syllable.pop_back g.syllable in
        if removed then (touch (shorten_segment s b), true) else (shorten_segment s b, false))

unfoldable pub backspace : Buffer → Buffer × Bool
backspace b = elim (segment_before b) [
  | none ↦ (unmark b, false)
  | some g ↦ backspace_segment g (unmark b)
]

unfoldable pub remove_segment : ℕ → Buffer → Buffer × Bool
remove_segment index b =
    if leb (length b.segments) index
    then (unmark b, false)
    else (let segments' = erase_idx index b.segments in
        let caret' = if ltb index b.caret then b.caret - 1 else b.caret in
        (
          touch (record (unmark b) {
            segments = segments';
            caret = if ltb (length segments') caret' then length segments' else caret';
            last_edited_segment = none;
          }),
          true,
        ))

unfoldable pub delete_forward : Buffer → Buffer × Bool
delete_forward b = if leb (length b.segments) b.caret then (b, false) else remove_segment b.caret b

-- The caret at another place: `last_edited_segment_.reset(); touch();`
abbrev pub place_caret : ℕ → Buffer → Buffer
place_caret c b = touch (record b { caret = c; last_edited_segment = none })

unfoldable pub move_cursor_left : Buffer → Buffer × Bool
move_cursor_left b =
    if b.caret == 0 then (unmark b, false) else (place_caret (b.caret - 1) (unmark b), true)

unfoldable pub move_cursor_right : Buffer → Buffer × Bool
move_cursor_right b =
    if leb (length b.segments) b.caret
    then (unmark b, false)
    else (place_caret (b.caret + 1) (unmark b), true)

-- The sign of `delta` is all that the code reads.
pub data Delta : Type 0 where
  leftward still rightward : Delta

abbrev pub anchored : Buffer → Buffer
anchored b = record b {
  selection_anchor = elim b.selection_anchor [
    | none ↦ some (min b.caret (length b.segments))
    | some a ↦ some a
  ];
}

abbrev pub extend_by : Bool → Delta → Buffer → Buffer × Bool
extend_by true delta b = (b, false)
extend_by false still b = (b, false)
extend_by false leftward b =
    if b.caret == 0 then (b, false) else (place_caret (b.caret - 1) (anchored b), true)
extend_by false rightward b =
    if leb (length b.segments) b.caret
    then (b, false)
    else (place_caret (b.caret + 1) (anchored b), true)

unfoldable pub extend_selection : Delta → Buffer → Buffer × Bool
extend_selection delta b = extend_by (length b.segments == 0) delta b

unfoldable pub clear_selection : Buffer → Buffer × Bool
clear_selection b = elim b.selection_anchor [
  | none ↦ (b, false)
  | some anchor ↦ (touch (record b { caret = anchor; selection_anchor = none }), true)
]

unfoldable pub clear : Buffer → Buffer
clear b =
    if length b.segments == 0 && b.caret == 0
    then unmark b
    else touch
        (record b { segments = []; caret = 0; last_edited_segment = none; selection_anchor = none })

abbrev pub is_unfinished : Segment → Bool
is_unfinished g = not g.reading_finalized && not (Segment.empty g)

-- `unfinished(segments_[i])` for an `i` in range
abbrev pub unfinished_at : List Segment → ℕ → Bool
unfinished_at gs i = elim (get_elem? gs i) [ none ↦ false | some g ↦ is_unfinished g ]

-- `std::find_if`, as the distance from the front
unfoldable pub find_unfinished : List Segment → Option ℕ
find_unfinished [] = none
find_unfinished (g ∷ gs) =
    if is_unfinished g
    then some 0
    else elim (find_unfinished gs) [ none ↦ none | some i ↦ some (i + 1) ]

unfoldable pub clear_unfinished_reading : Buffer → Buffer × Bool
clear_unfinished_reading b =
    if ltb 0 b.caret && unfinished_at b.segments (b.caret - 1)
    then remove_segment (b.caret - 1) b
    else if ltb b.caret (length b.segments) && unfinished_at b.segments b.caret
    then remove_segment b.caret b
    else elim (find_unfinished b.segments) [ none ↦ (b, false) | some i ↦ remove_segment i b ]
