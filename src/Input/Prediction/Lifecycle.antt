-- ===== src/Input/Prediction/Lifecycle.antt =====
-- One request at a time, and late responses (engine/src/input/prediction_state.hpp).
use ime_fcitx.Prelude.{
  ℕ, ◌+◌, ◌^◌, ◌≡◌, ◌≢◌, ◌<◌, ◌⊎◌, true, false, Option, none, some, List, [], ◌∷◌, length, arith,
  suc,
}
use ime_fcitx.Input.Prediction.{
  PredictionState, new, no_session, mark_dirty, clear_pending, invalidate, begin, send, finish,
}

-- What the engine and the editor do to the state.
pub data Event : Type 0 where
  begun : List ℕ → List ℕ → ℕ → Event
  sent : ℕ → Event
  opened : List ℕ → Event
  marked finished invalidated closed : Event

unfoldable pub handle : Event → PredictionState → PredictionState
handle (begun completed raw revision) p = (begin completed raw revision p).0
handle (sent generation) p = send generation p
handle (opened id) p = record p { session_id = id }
handle marked p = mark_dirty p
handle finished p = (finish p).0
handle invalidated p = invalidate p
handle closed p = record p { session_id = no_session }

unfoldable pub handle_all : List Event → PredictionState → PredictionState
handle_all [] p = p
handle_all (e ∷ rest) p = handle_all rest (handle e p)

-- The number of the request in flight, and one more; 0 where none is.
abbrev pub past_inflight : Option ℕ → ℕ
past_inflight none = 0
past_inflight (some id) = suc id

pub record IsConsistent (p : PredictionState) : Type 0 where
  -- Nothing is kept of a request that is over.
  pub idle :
      (p.pending ≡ true)
      ⊎ (p.inflight_request_id ≡ none) × (p.dirty ≡ false) × (p.segment_indices ≡ [])
  -- A request covers at least one segment.
  pub covers : (p.pending ≡ false) ⊎ (p.segment_indices ≢ [])
  -- A request in flight is the last one that was numbered, for the revision that was recorded.
  pub last :
      (p.inflight_request_id ≡ none) ⊎ (past_inflight p.inflight_request_id ≡ p.next_request_id)
  pub same_revision : (p.inflight_request_id ≡ none) ⊎ (p.inflight_revision ≡ p.revision)

pub new-IsConsistent : IsConsistent new
new-IsConsistent = ground arith

pub handle-IsConsistent :
    (e : Event) {p : PredictionState}
    → p.next_request_id + 1 < 2 ^ 64
    → IsConsistent p
    → IsConsistent (handle e p)
unfolding handle mark_dirty clear_pending invalidate begin send finish
handle-IsConsistent (begun completed raw revision) n c = ground arith
handle-IsConsistent (sent generation) n c = ground arith
handle-IsConsistent (opened id) n c = ground arith
handle-IsConsistent marked n c = ground arith
handle-IsConsistent finished n c = ground arith
handle-IsConsistent invalidated n c = ground arith
handle-IsConsistent closed n c = ground arith

pub handle-next :
    (e : Event) (p : PredictionState)
    → p.next_request_id + 1 < 2 ^ 64
    → ((handle e p).next_request_id ≡ p.next_request_id)
      ⊎ ((handle e p).next_request_id ≡ p.next_request_id + 1)
unfolding handle mark_dirty clear_pending invalidate begin send finish
handle-next (begun completed raw revision) p n = ground arith
handle-next (sent generation) p n = ground arith
handle-next (opened id) p n = ground arith
handle-next marked p n = ground arith
handle-next finished p n = ground arith
handle-next invalidated p n = ground arith
handle-next closed p n = ground arith

-- A consistent state stays consistent over any events, short of 2 ^ 64 requests.
pub handle_all-IsConsistent :
    (events : List Event) {p : PredictionState}
    → p.next_request_id + length events + 1 < 2 ^ 64
    → IsConsistent p
    → IsConsistent (handle_all events p)
unfolding handle_all
handle_all-IsConsistent [] n c = c
handle_all-IsConsistent (e ∷ rest) {p} n c =
    handle_all-IsConsistent rest (omega (arith, handle-next e p (omega arith)))
      (handle-IsConsistent e (omega arith) c)
