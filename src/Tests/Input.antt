-- ===== src/Tests/Input.antt =====
-- The theorems of the input layer at concrete inputs.
use ime_fcitx.Prelude.{
  ◌≡◌, ◌≢◌, refl, true, false, none, [], ◌∷◌, arith, codes, length, negsuc, eq_codes,
}
use ime_fcitx.Input.View.{View, page_size, page_offset, page_by}
use ime_fcitx.Input.View.Paging.{IsOnPage, turned, page_by-IsOnPage}
use ime_fcitx.Input.Prediction
use ime_fcitx.Input.Prediction.{
  PredictionState, begin, send, correlates, matches_composition, session_open,
}
use ime_fcitx.Wire.Messages.{Prediction, is_zero}
use ime_fcitx.Input.Prediction.Lifecycle.{
  begun, opened, marked, finished, handle, handle_all, IsConsistent, new-IsConsistent,
  handle_all-IsConsistent,
}
use ime_fcitx.Input.Prediction.Freshness.{matches_composition_fresh}
use ime_fcitx.Input.Prediction.Late.{IsAwaited, correlates-send}
use ime_fcitx.Composition.Segment
use ime_fcitx.Composition.Views.{completed_segment_indices, raw_composition, indices_from}
use ime_fcitx.Composition.RollBack.{SameText}
use ime_fcitx.Composition.Session.{run, act, literal}
use ime_fcitx.Bopomofo.Syllable
use ime_fcitx.Tests.Samples.{three, three-IsValidBuffer}

-- Row 4 on the second page of three rows, of five candidates.
abbrev view : View
view = record { page = 1; cursor = 4; expanded = false }

view-IsOnPage : IsOnPage 3 5 view
unfolding page_offset page_size
view-IsOnPage = omega arith

page_by-IsOnPage_example :
    (page_by (negsuc 0) true 3 5 view ≢ none)
    × IsOnPage 3 5 (turned (page_by (negsuc 0) true 3 5 view) view)
page_by-IsOnPage_example = page_by-IsOnPage 3 5 (negsuc 0) view (omega arith) view-IsOnPage

-- A request can be sent.
abbrev asking : PredictionState
asking = handle_all (begun (0 ∷ []) (codes "ㄋㄧˇ") 7 ∷ opened (9 ∷ []) ∷ []) Prediction.new

handle_all-IsConsistent_example :
    IsConsistent
      (handle_all (begun (0 ∷ []) (codes "ㄋㄧˇ") 7 ∷ marked ∷ finished ∷ []) Prediction.new)
handle_all-IsConsistent_example =
    handle_all-IsConsistent (begun (0 ∷ []) (codes "ㄋㄧˇ") 7 ∷ marked ∷ finished ∷ []) (omega arith)
      new-IsConsistent

abbrev answer : Prediction
answer = record {
  session_id = 9 ∷ [];
  request_id = 1;
  buffer_revision = 7;
  candidates = codes "你" ∷ [];
}

correlates-send_example :
    IsAwaited asking (handle_all (marked ∷ []) (send 0 asking))
    × (7 ≡ asking.revision)
    × (9 ∷ [] ≡ (handle_all (marked ∷ []) (send 0 asking)).session_id)
unfolding handle_all handle begin Prediction.mark_dirty send session_open is_zero correlates
    eq_codes
correlates-send_example = correlates-send asking 0 (marked ∷ []) answer (omega arith) refl refl refl

matches_composition_fresh_example :
    SameText three (run (literal 0 ∷ []) three)
    × (1 ≡ length (completed_segment_indices (run (literal 0 ∷ []) three)))
unfolding handle_all handle begin Prediction.mark_dirty matches_composition run act
    ime_fcitx.Composition.Typing.add_literal completed_segment_indices indices_from raw_composition
    Segment.complete Syllable.complete eq_codes Segment.reading Syllable.text
matches_composition_fresh_example =
    matches_composition_fresh three Prediction.new (literal 0 ∷ []) (marked ∷ []) answer
      three-IsValidBuffer (omega arith) (omega arith) refl refl refl
