-- ===== src/Sessions/Predict.antt =====
-- `SessionManager::predict`, ime-unix-service/src/session/session_manager.cpp, one function for each
-- stretch that holds a lock.
use ime_fcitx.Prelude.{
  ℕ, ◌+◌, ◌-◌, Bool, true, false, not, ◌&&◌, ◌||◌, Option, none, some, List, [], ◌∷◌, ◌==◌, leb,
  ltb, length, if◌then◌else◌, codes, ◌⊎◌, inl, inr,
}
use ime_fcitx.Wire.Messages.{
  ErrorCode, Error, PredictRequest, Prediction, PaddingEntry, session_busy, out_of_order,
  protocol_error, resource_exhausted, model_error, service_shutting_down,
}
use ime_fcitx.Sessions.State.{Session, Manager, session_at, update, error}
use ime_fcitx.Sessions.Table.{find_owned}

unfoldable pub refusal : ErrorCode → PredictRequest → List ℕ → Error
refusal code request message =
    error code request.session_id request.request_id request.buffer_revision message

-- The session of the request, or the error.
unfoldable pub lookup : ℕ → PredictRequest → Manager → ℕ ⊎ Error
lookup owner_uid request m =
    if m.shutting_down
    then inr (refusal service_shutting_down request (codes "service is shutting down"))
    else elim (find_owned owner_uid request.session_id request.request_id request.buffer_revision
        m) [ inr e ↦ inr e | inl (handle, session) ↦ inl handle ]

-- The tests on the session, in their order.
unfoldable pub admission_error : PredictRequest → Session → Option Error
admission_error request session =
    if session.closing
    then some (refusal session_busy request (codes "session is closing"))
    else if session.prediction_in_flight && request.request_id == session.last_request_id
    then some (refusal session_busy request (codes "duplicate prediction is already in flight"))
    else if request.request_id == 0 || leb request.request_id session.last_request_id
    then some (refusal out_of_order request (codes "request id is not strictly increasing"))
    else if session.prediction_in_flight
    then some (refusal session_busy request (codes "session already has a prediction in flight"))
    else none

unfoldable pub take_flight : ℕ → PredictRequest → Session → Session
take_flight now request session = record session {
  prediction_in_flight = true;
  last_request_id = request.request_id;
  last_used = now;
}

-- The session is marked, or nothing changes.
unfoldable pub admit : ℕ → ℕ → PredictRequest → Manager → Manager × Option Error
admit handle now request m = elim (session_at m handle) [
  | none ↦ (m, some (refusal session_busy request []))
  | some session ↦ elim (admission_error request session) [
    | some e ↦ (m, some e)
    | none ↦ (update handle (take_flight now request) m, none)
  ]
]

unfoldable pub is_closing : ℕ → Manager → Bool
is_closing handle m = elim (session_at m handle) [ none ↦ true | some session ↦ session.closing ]

-- What the condition variable waits for.
unfoldable pub may_leave_queue : ℕ → Manager → Bool
may_leave_queue handle m =
    m.shutting_down
    || is_closing handle m
    || ltb m.running_predictions m.limits.max_concurrent_predictions

-- The end of the waiting: the error for which the call goes back, or a running prediction more.
unfoldable pub leave_queue : ℕ → PredictRequest → Manager → Manager × Option Error
leave_queue handle request m =
    if is_closing handle m
    then (m, some (refusal session_busy request (codes "queued prediction was cancelled by close")))
    else if m.shutting_down
    then (m, some (refusal service_shutting_down request (codes "service is shutting down")))
    else (record m { running_predictions = m.running_predictions + 1 }, none)

unfoldable pub land : Session → Session
land session = record session { prediction_in_flight = false }

-- A cancelled call gives its session free.
unfoldable pub cancel : ℕ → Manager → Manager
cancel handle m = update handle land m

-- What the model answers, `std::bad_alloc` and the other exceptions included.
pub data Answer : Type 0 where
  answered : List (List ℕ) → Answer
  out_of_memory : Answer
  failed : List ℕ → Answer

-- The engine that the session has, or the one that the factory makes for it.
unfoldable pub equip : Option Bool → Session → Session
equip factory session = elim session.engine [
  | none ↦ record session { engine = factory }
  | some loaded ↦ session
]

unfoldable pub ensure_engine : ℕ → Option Bool → Manager → Manager
ensure_engine handle factory m = update handle (equip factory) m

unfoldable pub has_engine : ℕ → Manager → Bool
has_engine handle m = elim (session_at m handle) [
  | none ↦ false
  | some session ↦ elim session.engine [ none ↦ false | some loaded ↦ true ]
]

-- The run under the session's lock.
unfoldable pub run_engine : ℕ → Option Bool → Answer → Manager → Manager × Answer
run_engine handle factory answer m =
    let equipped = ensure_engine handle factory m in
    if has_engine handle equipped
    then (equipped, answer)
    else (equipped, failed (codes "session engine allocation failed"))

-- The three stretches of `finish`.
unfoldable pub release_slot : Manager → Manager
release_slot m =
    if ltb 0 m.running_predictions
    then record m { running_predictions = m.running_predictions - 1 }
    else m

unfoldable pub release_session : ℕ → ℕ → Manager → Manager
release_session handle now m =
    update handle (λ session. record session { prediction_in_flight = false; last_used = now }) m

unfoldable pub note_activity : ℕ → Manager → Manager
note_activity now m = record m { last_activity = now }

-- A chosen character has itself as its only candidate.
unfoldable pub is_kept : PaddingEntry → List ℕ → Bool
is_kept entry [] = not entry.chosen
is_kept entry (candidate ∷ []) = not entry.chosen || candidate == entry.chosen_char
is_kept entry (candidate ∷ other ∷ candidates) = not entry.chosen

-- The loop over the segments, of which there are as many as padding.
unfoldable pub all_kept : List PaddingEntry → List (List ℕ) → Bool
all_kept [] candidates = true
all_kept (entry ∷ padding) [] = true
all_kept (entry ∷ padding) (list ∷ candidates) = is_kept entry list && all_kept padding candidates

-- What `predict` returns for the model's answer.
unfoldable pub respond : PredictRequest → Answer → Prediction ⊎ Error
respond request out_of_memory =
    inr (refusal resource_exhausted request (codes "prediction allocation failed"))
respond request (failed message) = inr (refusal model_error request message)
respond request (answered candidates) =
    if not (length candidates == length request.padding)
    then inr
        (refusal protocol_error request (codes "prediction segment count does not match padding"))
    else if not (all_kept request.padding candidates)
    then inr (refusal protocol_error request (codes "chosen prediction is not a singleton"))
    else inl (record {
      session_id = request.session_id;
      request_id = request.request_id;
      buffer_revision = request.buffer_revision;
      candidates = candidates;
    })
