-- ===== src/Input/Prediction/Freshness.antt =====
-- A prediction is applied only to the text that it was asked for (engine/src/input/prediction_state.hpp and
-- engine/src/buffer/composition_buffer.cpp).
use ime_fcitx.Prelude.{
  ◌^◌, ◌≡◌, ◌<◌, refl, ap, ◌∙◌, sym, Bool, true, false, ◌&&◌, List, [], ◌∷◌, length, arith,
}
use ime_fcitx.Composition.Buffer.{Buffer}
use ime_fcitx.Composition.Views.{completed_segment_indices, raw_composition, indices_from}
use ime_fcitx.Composition.RollBack.{SameText}
use ime_fcitx.Composition.Validity.{IsValidBuffer}
use ime_fcitx.Composition.Session.{Action, run}
use ime_fcitx.Composition.Session.Staleness.{total_cost, revision-run}
use ime_fcitx.Input.Prediction.{PredictionState, mark_dirty, begin, send, matches_composition}
use ime_fcitx.Wire.Messages.{Prediction}
use ime_fcitx.Input.Prediction.Lifecycle.{Event, sent, opened, marked, closed, handle, handle_all}

-- What happens while a request is waited for: it is sent, the buffer is marked changed, sessions of the
-- service open and close.
abbrev pub is_wait : Event → Bool
is_wait (sent generation) = true
is_wait (opened id) = true
is_wait marked = true
is_wait closed = true
is_wait _ = false

abbrev pub all_wait : List Event → Bool
all_wait [] = true
all_wait (e ∷ rest) = is_wait e && all_wait rest

-- The composition that a request was made for.
abbrev SameRequest : PredictionState → PredictionState → Type 0
SameRequest p p' =
    (p'.key ≡ p.key) × (p'.revision ≡ p.revision) × (p'.segment_indices ≡ p.segment_indices)

handle-SameRequest :
    (e : Event) (p : PredictionState) → is_wait e ≡ true → SameRequest p (handle e p)
unfolding handle mark_dirty send
handle-SameRequest (sent generation) p h = ground arith
handle-SameRequest (opened id) p h = ground arith
handle-SameRequest marked p h = ground arith
handle-SameRequest closed p h = ground arith
handle-SameRequest _ p h = cc

handle_all-SameRequest :
    (events : List Event) (p : PredictionState)
    → all_wait events ≡ true
    → SameRequest p (handle_all events p)
unfolding handle_all
handle_all-SameRequest [] p h = (refl, refl, refl)
handle_all-SameRequest (e ∷ rest) p h =
    let now = handle-SameRequest e p (ground arith) in
    let later = handle_all-SameRequest rest (handle e p) (ground arith) in
    (later.0 ∙ now.0, later.1 ∙ now.1, later.2 ∙ now.2)

abbrev asked : Buffer → PredictionState → PredictionState × Bool
asked b = begin (completed_segment_indices b) (raw_composition b) b.revision

begun_request :
    (b : Buffer) (p : PredictionState)
    → (asked b p).1 ≡ true
    → ((asked b p).0.revision ≡ b.revision)
      × ((asked b p).0.segment_indices ≡ completed_segment_indices b)
unfolding begin
begun_request b p h = ground arith

-- A request is made for the buffer `b`; then the user goes on, through any operations short of 2 ^ 64
-- touches, while the request is waited for. If a response then matches the composition, the segments
-- and the caret are still those of `b`, and the response has a list of candidates for each of its
-- completed segments.
pub matches_composition_fresh :
    (b : Buffer) (p : PredictionState) (actions : List Action) (events : List Event)
    (r : Prediction)
    → IsValidBuffer b
    → b.revision < 2 ^ 64
    → total_cost actions < 2 ^ 64
    → (asked b p).1 ≡ true
    → all_wait events ≡ true
    → matches_composition r
        (raw_composition (run actions b))
        (run actions b).revision
        (handle_all events (asked b p).0)
      ≡ true
    → SameText b (run actions b)
      × (length r.candidates ≡ length (completed_segment_indices (run actions b)))
unfolding matches_composition
matches_composition_fresh b p actions events r v w short started waits h =
    let (rev, indices) = begun_request b p started in
    let (_, rev', indices') = handle_all-SameRequest events (asked b p).0 waits in
    let same : (run actions b).revision ≡ b.revision = ground arith in
    let (segments, caret) = revision-run actions v w short same in
    let count : length r.candidates ≡ length (handle_all events (asked b p).0).segment_indices =
      ground arith in
    (
      (segments, caret),
      count ∙ ap length (indices' ∙ indices) ∙ sym (ap length (indices_of_segments segments)),
    )
  where
    indices_of_segments :
        (run actions b).segments ≡ b.segments
        → completed_segment_indices (run actions b) ≡ completed_segment_indices b
    indices_of_segments e = unfold completed_segment_indices in ap (indices_from 0) e
