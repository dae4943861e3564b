-- ===== src/Input/Prediction.antt =====
-- `PredictionState`, engine/src/input/prediction_state.hpp, and the two steps of a request that
-- engine/src/host/engine.cpp takes on it. Identifiers of sessions are lists of 16 bytes.
pub mod Lifecycle
pub mod Late
pub mod Freshness
use ime_fcitx.Prelude.{
  ℕ, ◌+◌, ◌%◌, ◌^◌, Bool, true, false, not, ◌&&◌, ◌||◌, Option, none, some, List, [], ◌∷◌, ◌==◌,
  length, if◌then◌else◌, eq_codes,
}
use ime_fcitx.Wire.Messages.{Prediction, is_zero}

pub record PredictionState : Type 0 where
  pub session_id : List ℕ
  pub next_request_id : ℕ
  pub generation : ℕ
  pub inflight_request_id : Option ℕ
  pub inflight_revision : ℕ
  pub key : List ℕ
  pub revision : ℕ
  pub segment_indices : List ℕ
  pub pending : Bool
  pub dirty : Bool

-- 16 zero bytes
abbrev pub no_session : List ℕ
no_session = 0 ∷ 0 ∷ 0 ∷ 0 ∷ 0 ∷ 0 ∷ 0 ∷ 0 ∷ 0 ∷ 0 ∷ 0 ∷ 0 ∷ 0 ∷ 0 ∷ 0 ∷ 0 ∷ []

abbrev pub new : PredictionState
new = record {
  session_id = no_session;
  next_request_id = 1;
  generation = 0;
  inflight_request_id = none;
  inflight_revision = 0;
  key = [];
  revision = 0;
  segment_indices = [];
  pending = false;
  dirty = false;
}

unfoldable pub session_open : PredictionState → Bool
session_open p = not (is_zero p.session_id)

unfoldable pub mark_dirty : PredictionState → PredictionState
mark_dirty p = if p.pending then record p { dirty = true } else p

unfoldable pub clear_pending : PredictionState → PredictionState
clear_pending p = record p {
  pending = false;
  dirty = false;
  inflight_request_id = none;
  inflight_revision = 0;
  segment_indices = [];
}

unfoldable pub invalidate : PredictionState → PredictionState
unfolding clear_pending
invalidate p = clear_pending (record p { generation = (p.generation + 1) % 2 ^ 64 })

unfoldable pub begin : List ℕ → List ℕ → ℕ → PredictionState → PredictionState × Bool
begin completed raw_composition buffer_revision p =
    if p.pending
    then (record p { dirty = true }, false)
    else if length completed == 0
    then (p, false)
    else (
      record p {
        segment_indices = completed;
        pending = true;
        dirty = false;
        key = raw_composition;
        revision = buffer_revision;
      },
      true,
    )

-- `send_prediction` of the engine: the guard, the number of the request, and what is in flight. The
-- revision that is sent is that of the request's composition.
unfoldable pub send : ℕ → PredictionState → PredictionState
send generation p =
    if not (p.generation == generation) || not p.pending || not (session_open p)
    then p
    else record p {
      next_request_id = (p.next_request_id + 1) % 2 ^ 64;
      inflight_request_id = some p.next_request_id;
      inflight_revision = p.revision;
    }

unfoldable pub correlates : Prediction → PredictionState → Bool
correlates r p = elim p.inflight_request_id [
  | none ↦ false
  | some id ↦
      id == r.request_id
      && p.inflight_revision == r.buffer_revision
      && eq_codes r.session_id p.session_id
]

-- For an error response, by the number of the request that it names.
unfoldable pub correlates_error : ℕ → PredictionState → Bool
correlates_error request_id p = elim p.inflight_request_id [
  | none ↦ true
  | some id ↦ request_id == 0 || request_id == id
]

unfoldable pub matches_composition : Prediction → List ℕ → ℕ → PredictionState → Bool
matches_composition r raw_composition buffer_revision p =
    length r.candidates == length p.segment_indices
    && eq_codes p.key raw_composition
    && p.revision == buffer_revision

unfoldable pub finish : PredictionState → PredictionState × Bool
unfolding clear_pending
finish p = (clear_pending p, p.dirty)
