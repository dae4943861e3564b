-- ===== src/Input/Prediction/Late.antt =====
-- Late responses: what correlates with a request that was sent some events ago
-- (engine/src/input/prediction_state.hpp).
use ime_fcitx.Prelude.{
  ℕ, ◌+◌, ◌^◌, ◌≡◌, ◌<◌, ◌⊎◌, ◌∙◌, true, none, some, List, [], ◌∷◌, length, eq_codes→eq, arith, suc,
  inl, inr,
}
use ime_fcitx.Input.Prediction.{
  PredictionState, mark_dirty, clear_pending, invalidate, begin, send, finish, correlates,
}
use ime_fcitx.Wire.Messages.{Prediction}
use ime_fcitx.Input.Prediction.Lifecycle.{
  Event, begun, sent, opened, marked, finished, invalidated, closed, handle, handle_all,
  past_inflight, handle-next,
}

-- The state still waits for the request that `p` numbered.
pub record IsAwaited (p p' : PredictionState) : Type 0 where
  pub number : p'.inflight_request_id ≡ some p.next_request_id
  pub last : p'.next_request_id ≡ suc p.next_request_id
  pub pending : p'.pending ≡ true
  pub key : p'.key ≡ p.key
  pub revision : p'.revision ≡ p.revision
  pub sent_revision : p'.inflight_revision ≡ p.revision
  pub segment_indices : p'.segment_indices ≡ p.segment_indices

-- It waits for none, or for a later one.
abbrev IsOver : PredictionState → PredictionState → Type 0
IsOver p p' =
    (p.next_request_id < p'.next_request_id)
    × ((p'.inflight_request_id ≡ none)
        ⊎ (suc p.next_request_id < past_inflight p'.inflight_request_id))

handle-IsAwaited :
    (e : Event) (p p' : PredictionState)
    → p'.next_request_id + 1 < 2 ^ 64
    → IsAwaited p p'
    → IsAwaited p (handle e p') ⊎ IsOver p (handle e p')
unfolding handle mark_dirty clear_pending invalidate begin send finish
handle-IsAwaited (begun completed raw revision) p p' n w = ground arith
handle-IsAwaited (sent generation) p p' n w = ground arith
handle-IsAwaited (opened id) p p' n w = ground arith
handle-IsAwaited marked p p' n w = ground arith
handle-IsAwaited finished p p' n w = ground arith
handle-IsAwaited invalidated p p' n w = ground arith
handle-IsAwaited closed p p' n w = ground arith

handle-IsOver :
    (e : Event) (p p' : PredictionState)
    → p'.next_request_id + 1 < 2 ^ 64
    → IsOver p p'
    → IsOver p (handle e p')
unfolding handle mark_dirty clear_pending invalidate begin send finish
handle-IsOver (begun completed raw revision) p p' n w = ground arith
handle-IsOver (sent generation) p p' n w = ground arith
handle-IsOver (opened id) p p' n w = ground arith
handle-IsOver marked p p' n w = ground arith
handle-IsOver finished p p' n w = ground arith
handle-IsOver invalidated p p' n w = ground arith
handle-IsOver closed p p' n w = ground arith

handle_all-IsOver :
    (events : List Event) (p p' : PredictionState)
    → p'.next_request_id + length events + 1 < 2 ^ 64
    → IsOver p p'
    → IsOver p (handle_all events p')
unfolding handle_all
handle_all-IsOver [] p p' n w = w
handle_all-IsOver (e ∷ events) p p' n w =
    handle_all-IsOver events p (handle e p') (omega (arith, handle-next e p' (omega arith)))
      (handle-IsOver e p p' (omega arith) w)

handle_all-IsAwaited :
    (events : List Event) (p p' : PredictionState)
    → p'.next_request_id + length events + 1 < 2 ^ 64
    → IsAwaited p p'
    → IsAwaited p (handle_all events p') ⊎ IsOver p (handle_all events p')
unfolding handle_all
handle_all-IsAwaited [] p p' n w = inl w
handle_all-IsAwaited (e ∷ events) p p' n w =
    let room : (handle e p').next_request_id + length events + 1 < 2 ^ 64 =
      omega (arith, handle-next e p' (omega arith)) in
    elim (handle-IsAwaited e p p' (omega arith) w) [
      | inl still ↦ handle_all-IsAwaited events p (handle e p') room still
      | inr over ↦ inr (handle_all-IsOver events p (handle e p') room over)
    ]

send-IsAwaited :
    (p : PredictionState) (generation : ℕ)
    → p.next_request_id + 1 < 2 ^ 64
    → (send generation p).next_request_id ≡ suc p.next_request_id
    → IsAwaited p (send generation p)
unfolding send
send-IsAwaited p generation n h = ground arith

over_apart :
    (r : Prediction) (p p' : PredictionState)
    → r.request_id ≡ p.next_request_id
    → IsOver p p'
    → correlates r p' ≡ true
    → ⊥
unfolding correlates
over_apart r p p' same over h = ground arith

correlates_inv :
    (r : Prediction) (p' : PredictionState)
    → correlates r p' ≡ true
    → (r.buffer_revision ≡ p'.inflight_revision) × (r.session_id ≡ p'.session_id)
unfolding correlates
correlates_inv r p' h = ground (arith, eq_codes→eq r.session_id p'.session_id)

-- A request is sent, and then anything happens, short of 2 ^ 64 requests. If a response with the number of that
-- request correlates afterwards, then no request was numbered since, the state still waits for this one, with
-- the text, the revision and the segments that it was made for, and the response names that revision and the
-- session that is open now.
pub correlates-send :
    (p : PredictionState) (generation : ℕ) (events : List Event) (r : Prediction)
    → p.next_request_id + length events + 2 < 2 ^ 64
    → (send generation p).next_request_id ≡ suc p.next_request_id
    → r.request_id ≡ p.next_request_id
    → correlates r (handle_all events (send generation p)) ≡ true
    → IsAwaited p (handle_all events (send generation p))
      × (r.buffer_revision ≡ p.revision)
      × (r.session_id ≡ (handle_all events (send generation p)).session_id)
correlates-send p generation events r n started same h =
    let first = send-IsAwaited p generation (omega arith) started in
    elim (handle_all-IsAwaited events p (send generation p) (omega arith) first) [
      | inr over ↦ absurd (over_apart r p _ same over h)
      | inl awaited ↦
          let (revision, session) = correlates_inv r (handle_all events (send generation p)) h in
          (awaited, revision ∙ awaited.sent_revision, session)
    ]
