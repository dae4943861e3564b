-- ===== src/Sessions/World.antt =====
-- Calls on the manager of ime-unix-service/src/session/session_manager.cpp that run at the same time: an
-- action is one stretch of one call under its lock, and a schedule is a list of actions in any order.
use ime_fcitx.Prelude.{
  ℕ, Bool, Option, none, some, List, [], ◌∷◌, get_elem?, modify, if◌then◌else◌, ◌⊎◌, inl, inr,
}
use ime_fcitx.Wire.Messages.{Error, PredictRequest, Prediction}
use ime_fcitx.Sessions.State.{Manager}
use ime_fcitx.Sessions.Table.{open_session, reap}
use ime_fcitx.Sessions.Predict.{
  Answer, lookup, admit, may_leave_queue, leave_queue, cancel, run_engine, release_slot,
  release_session, note_activity, respond,
}
use ime_fcitx.Sessions.Close.{
  begin_close, is_landed, drop_engine, erase_session, begin_shutdown, end_shutdown,
}

-- How far a call of `predict` is. Its session is in flight for it from `waiting` to `released` and in
-- `cancelled`; it has a slot in `running` and `ran`.
pub data Stage : Type 0 where
  found : ℕ → Stage
  waiting : ℕ → Stage
  cancelled : ℕ → Error → Stage
  running : ℕ → Stage
  ran : ℕ → Answer → Stage
  released : ℕ → Answer → Stage
  landed : Answer → Stage
  returned : Prediction ⊎ Error → Stage

pub record Call : Type 0 where
  pub request : PredictRequest
  pub stage : Stage

-- What comes from outside in a stretch: the clock, the factory and the model.
pub record Outside : Type 0 where
  pub now : ℕ
  pub factory : Option Bool
  pub answer : Answer

unfoldable pub after_admission : ℕ → Option Error → Stage
after_admission handle none = waiting handle
after_admission handle (some e) = returned (inr e)

unfoldable pub after_queue : ℕ → Option Error → Stage
after_queue handle none = running handle
after_queue handle (some e) = cancelled handle e

-- The next stretch of `predict`; a call in the queue stays there until it may leave.
unfoldable pub advance : Outside → PredictRequest → Stage → Manager → Manager × Stage
advance outside request (found handle) m =
    let (m', refused) = admit handle outside.now request m in (m', after_admission handle refused)
advance outside request (waiting handle) m =
    if may_leave_queue handle m
    then (let (m', refused) = leave_queue handle request m in (m', after_queue handle refused))
    else (m, waiting handle)
advance outside request (cancelled handle e) m = (cancel handle m, returned (inr e))
advance outside request (running handle) m =
    let (m', answer) = run_engine handle outside.factory outside.answer m in (m', ran handle answer)
advance outside request (ran handle answer) m = (release_slot m, released handle answer)
advance outside request (released handle answer) m =
    (release_session handle outside.now m, landed answer)
advance outside request (landed answer) m =
    (note_activity outside.now m, returned (respond request answer))
advance outside request (returned result) m = (m, returned result)

pub data Action : Type 0 where
  open_call : ℕ → ℕ → List (List ℕ) → Action
  predict_call : ℕ → PredictRequest → Action
  step_call : ℕ → Outside → Action
  close_call : ℕ → List ℕ → Action
  engine_call : ℕ → Action
  erase_call : List ℕ → ℕ → Action
  reap_call : ℕ → Action
  shutdown_call : Action
  end_call : Action

abbrev pub World : Type 0
World = Manager × List Call

-- The call at a place goes one stretch on.
unfoldable pub step : ℕ → Outside → World → World
step i outside (m, calls) = elim (get_elem? calls i) [
  | none ↦ (m, calls)
  | some call ↦
      let (m', stage') = advance outside call.request call.stage m in
      (m', modify i (λ call. record call { stage = stage' }) calls)
]

unfoldable pub perform : Action → World → World
perform (open_call owner_uid now devices) (m, calls) =
    ((open_session owner_uid now devices m).0, calls)
perform (predict_call owner_uid request) (m, calls) = elim (lookup owner_uid request m) [
  | inr e ↦ (m, calls)
  | inl handle ↦ (m, record { request = request; stage = found handle } ∷ calls)
]
perform (step_call i outside) world = step i outside world
perform (close_call owner_uid session_id) (m, calls) =
    ((begin_close owner_uid session_id m).0, calls)
perform (engine_call handle) (m, calls) =
    (if is_landed handle m then drop_engine handle m else m, calls)
perform (erase_call session_id now) (m, calls) = (erase_session session_id now m, calls)
perform (reap_call now) (m, calls) = (reap now m, calls)
perform shutdown_call (m, calls) = ((begin_shutdown m).0, calls)
perform end_call (m, calls) = (end_shutdown m, calls)

unfoldable pub perform_all : List Action → World → World
perform_all [] world = world
perform_all (action ∷ actions) world = perform_all actions (perform action world)
