-- ===== src/Sessions/Bounded.antt =====
-- In every schedule the table keeps to its bound and to its places, ime-unix-service/src/session/session_manager.cpp.
use ime_fcitx.Prelude.{
  ℕ, ◌<◌, true, false, ◌&&◌, Option, Option-cases, List, [], ◌∷◌, ◌==◌, ltb, length, get_elem?,
  Bool-cases, inl, inr, ◌⊎◌, ◌≡◌, refl, ◌∙◌, arith,
}
use ime_fcitx.Wire.Messages.{Error, PredictRequest}
use ime_fcitx.Sessions.State.{Session, Manager, update}
use ime_fcitx.Sessions.Table.{find_owned, find_session_locked}
use ime_fcitx.Sessions.Predict.{lookup}
use ime_fcitx.Sessions.Close.{
  set_closing, begin_close, is_landed, drop_engine, erase_session, close_all, begin_shutdown,
  end_shutdown,
}
use ime_fcitx.Sessions.World.{
  Stage, Call, Outside, Action, World, advance, step, perform, perform_all,
}
use ime_fcitx.Sessions.World.{
  found, waiting, cancelled, running, ran, released, landed, returned, open_call, predict_call,
  step_call, close_call, engine_call, erase_call, reap_call, shutdown_call, end_call,
}
use ime_fcitx.Sessions.Exclusion.Keeping.{outcome_cases}
use ime_fcitx.Sessions.State.{session_at}
use ime_fcitx.Sessions.Predict.{
  admission_error, admit, take_flight, is_closing, may_leave_queue, leave_queue, land, cancel,
  equip, ensure_engine, has_engine, run_engine, release_slot, release_session, note_activity,
}
use ime_fcitx.Prelude.{length-modify}
use ime_fcitx.Sessions.Capacity.{IsTable, open_session-IsTable, erase_handle-All, reap-IsTable}

-- The table and the number of sessions made are as before.
abbrev SameTable : Manager → Manager → Type 0
SameTable m m' =
    (m'.sessions ≡ m.sessions) × (m'.limits ≡ m.limits) × (length m'.store ≡ length m.store)

same-IsTable : (m m' : Manager) → SameTable m m' → IsTable m → IsTable m'
same-IsTable m m' (sessions, limits, size) (bound, all) = rw (sessions, limits, size) (bound, all)

update-SameTable :
    (handle : ℕ) (f : Session → Session) (m : Manager) → SameTable m (update handle f m)
update-SameTable handle f m = (refl, refl, length-modify handle f m.store)

close_all-SameTable : (sessions : List ℕ) (m : Manager) → SameTable m (close_all sessions m)
unfolding close_all
close_all-SameTable [] m = (refl, refl, refl)
close_all-SameTable (handle ∷ sessions) m =
    let (kept, limits, size) = close_all-SameTable sessions (update handle set_closing m) in
    (kept, limits, size ∙ length-modify handle set_closing m.store)

admit-SameTable :
    (handle now : ℕ) (request : PredictRequest) (m : Manager)
    → let result : Manager × Option Error = admit handle now request m in SameTable m result.0
unfolding admit
admit-SameTable handle now request m = elim (Option-cases (session_at m handle)) [
  | inl e ↦ rw (admit, e) (refl, refl, refl)
  | inr (s, e) ↦ elim (Option-cases (admission_error request s)) [
    | inr (refused, f) ↦ rw (admit, e, f) (refl, refl, refl)
    | inl f ↦ rw (admit, e, f) (update-SameTable handle (take_flight now request) m)
  ]
]

leave_queue-SameTable :
    (handle : ℕ) (request : PredictRequest) (m : Manager)
    → let result : Manager × Option Error = leave_queue handle request m in SameTable m result.0
unfolding leave_queue
leave_queue-SameTable handle request m = elim (Bool-cases (is_closing handle m)) [
  | inl closing ↦ rw (leave_queue, closing) (refl, refl, refl)
  | inr alive ↦ elim (Bool-cases m.shutting_down) [
    | inl down ↦ rw (leave_queue, alive, down) (refl, refl, refl)
    | inr up ↦ rw (leave_queue, alive, up) (refl, refl, refl)
  ]
]

advance-SameTable :
    (outside : Outside) (request : PredictRequest) (stage : Stage) (m : Manager)
    → let result : Manager × Stage = advance outside request stage m in SameTable m result.0
unfolding advance cancel ensure_engine run_engine release_slot release_session note_activity
advance-SameTable outside request (found handle) m = admit-SameTable handle outside.now request m
advance-SameTable outside request (waiting handle) m =
    elim (Bool-cases (may_leave_queue handle m)) [
      | inl may ↦ rw may (leave_queue-SameTable handle request m)
      | inr stay ↦ rw stay (refl, refl, refl)
    ]
advance-SameTable outside request (cancelled handle e) m = update-SameTable handle land m
advance-SameTable outside request (running handle) m =
    elim (Bool-cases (has_engine handle (ensure_engine handle outside.factory m))) [
      | inl there ↦ rw (run_engine, there) (update-SameTable handle (equip outside.factory) m)
      | inr none_made ↦
          rw (run_engine, none_made) (update-SameTable handle (equip outside.factory) m)
    ]
advance-SameTable outside request (ran handle answer) m =
    elim (Bool-cases (ltb 0 m.running_predictions)) [
      | inl some_run ↦ rw (release_slot, some_run) (refl, refl, refl)
      | inr none_run ↦ rw (release_slot, none_run) (refl, refl, refl)
    ]
advance-SameTable outside request (released handle answer) m =
    update-SameTable handle
      (λ s. record s { prediction_in_flight = false; last_used = outside.now }) m
advance-SameTable outside request (landed answer) m = (refl, refl, refl)
advance-SameTable outside request (returned result) m = (refl, refl, refl)

begin_close-SameTable :
    (owner_uid : ℕ) (session_id : List ℕ) (m : Manager)
    → let result : Manager × (ℕ ⊎ Error) = begin_close owner_uid session_id m in
      SameTable m result.0
unfolding begin_close
begin_close-SameTable owner_uid session_id m =
    elim (outcome_cases (find_owned owner_uid session_id 0 0 m)) [
      | inl ((handle, session), e) ↦ rw (begin_close, e) (update-SameTable handle set_closing m)
      | inr (refused, e) ↦ rw (begin_close, e) (refl, refl, refl)
    ]

begin_shutdown-SameTable :
    (m : Manager)
    → let result : Manager × Option (List ℕ) = begin_shutdown m in SameTable m result.0
unfolding begin_shutdown
begin_shutdown-SameTable m = elim (Bool-cases (m.shutting_down && length m.sessions == 0)) [
  | inl done ↦ rw (begin_shutdown, done) (refl, refl, refl)
  | inr more ↦
      rw (begin_shutdown, more) (close_all-SameTable m.sessions (record m { shutting_down = true }))
]

erase_session-IsTable :
    (session_id : List ℕ) (now : ℕ) (m : Manager)
    → IsTable m
    → IsTable (erase_session session_id now m)
unfolding erase_session
erase_session-IsTable session_id now m (bound, all) =
    elim (Option-cases (find_session_locked session_id m)) [
      | inl e ↦ rw (erase_session, e) (bound, all)
      | inr (handle, e) ↦
          let (all', less) =
            erase_handle-All (λ handle. handle < length m.store) handle m.sessions all in
          rw (erase_session, e) (omega arith, all')
    ]

step-IsTable :
    (i : ℕ) (outside : Outside) (m : Manager) (calls : List Call)
    → IsTable m
    → IsTable (step i outside (m, calls)).0
unfolding step
step-IsTable i outside m calls h = elim (Option-cases (get_elem? calls i)) [
  | inl e ↦ rw (step, e) h
  | inr (call, e) ↦
      rw (step, e)
        (same-IsTable m (advance outside call.request call.stage m).0
          (advance-SameTable outside call.request call.stage m) h)
]

perform-IsTable :
    (action : Action) (m : Manager) (calls : List Call)
    → IsTable m
    → IsTable (perform action (m, calls)).0
unfolding perform drop_engine end_shutdown
perform-IsTable (open_call owner_uid now devices) m calls h =
    open_session-IsTable owner_uid now devices m h
perform-IsTable (predict_call owner_uid request) m calls h =
    elim (outcome_cases (lookup owner_uid request m)) [
      | inl (handle, e) ↦ rw (perform, e) h
      | inr (refused, e) ↦ rw (perform, e) h
    ]
perform-IsTable (step_call i outside) m calls h = step-IsTable i outside m calls h
perform-IsTable (close_call owner_uid session_id) m calls h =
    same-IsTable m (begin_close owner_uid session_id m).0
      (begin_close-SameTable owner_uid session_id m) h
perform-IsTable (engine_call handle) m calls h = elim (Bool-cases (is_landed handle m)) [
  | inl there ↦
      rw (perform, there) (same-IsTable m (drop_engine handle m) (update-SameTable handle _ m) h)
  | inr away ↦ rw (perform, away) h
]
perform-IsTable (erase_call session_id now) m calls h = erase_session-IsTable session_id now m h
perform-IsTable (reap_call now) m calls h = reap-IsTable now m h
perform-IsTable shutdown_call m calls h =
    same-IsTable m (begin_shutdown m).0 (begin_shutdown-SameTable m) h
perform-IsTable end_call m calls (bound, all) = (omega arith, tt)

-- Whatever the order of the stretches, the table never has more sessions than allowed, and each session in it is
-- one that was made.
pub perform_all-IsTable :
    (actions : List Action) (world : World)
    → IsTable world.0
    → IsTable (perform_all actions world).0
unfolding perform_all
perform_all-IsTable [] world h = h
perform_all-IsTable (action ∷ actions) world h =
    perform_all-IsTable actions (perform action world) (perform-IsTable action world.0 world.1 h)
