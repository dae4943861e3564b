-- ===== src/Sessions/Requests.antt =====
-- Request identifiers only grow, ime-unix-service/src/session/session_manager.cpp.
use ime_fcitx.Prelude.{
  ℕ, ◌≤◌, ◌<◌, ==_refl, ==_iff, Bool, false, Option, Option-cases, none, some, List, [], ◌∷◌, ◌==◌,
  ltb, get_elem?, modify, if◌then◌else◌, Bool-cases, inl, inr, ◌≡◌, refl, sym, ap, ◌∙◌, arith,
}
use ime_fcitx.Wire.Messages.{Error, PredictRequest}
use ime_fcitx.Sessions.State.{Session, Manager, update}
use ime_fcitx.Sessions.Table.{open_session, reap, reap_locked, evict_idle_locked}
use ime_fcitx.Sessions.Predict.{lookup}
use ime_fcitx.Sessions.Close.{
  begin_close, is_landed, drop_engine, erase_session, begin_shutdown, end_shutdown,
}
use ime_fcitx.Sessions.World.{
  Stage, Call, Outside, Action, World, advance, step, perform, perform_all,
}
use ime_fcitx.Sessions.World.{
  found, waiting, cancelled, running, ran, released, landed, returned, open_call, predict_call,
  step_call, close_call, engine_call, erase_call, reap_call, shutdown_call, end_call,
}
use ime_fcitx.Sessions.Exclusion.Flights.{last_of, look, look-modify_keeps, look-modify_sets}
use ime_fcitx.Sessions.Exclusion.Keeping.{
  Keeps, update-Keeps, open_session-Keeps, outcome_cases, begin_close-Keeps, erase_session-Keeps,
  begin_shutdown-Keeps,
}
use ime_fcitx.Sessions.State.{session_at}
use ime_fcitx.Wire.Messages.{session_busy}
use ime_fcitx.Sessions.Predict.{
  refusal, admission_error, admit, take_flight, is_closing, may_leave_queue, leave_queue, land,
  cancel, equip, ensure_engine, has_engine, run_engine, release_slot, release_session,
  note_activity,
}

-- No session's last identifier is lower than before.
abbrev pub Rises : Manager → Manager → Type 0
Rises m m' = (h : ℕ) → last_of m.store h ≤ last_of m'.store h

admission-increases :
    (request : PredictRequest) (s : Session)
    → admission_error request s ≡ none
    → s.last_request_id < request.request_id
unfolding admission_error
admission-increases request s e = ground arith

same-Rises : (m m' : Manager) → ((h : ℕ) → last_of m'.store h ≡ last_of m.store h) → Rises m m'
same-Rises m m' k h = let same = k h in omega arith

-- The identifier of an admitted request becomes the last one.
admitted-Rises :
    (handle now : ℕ) (request : PredictRequest) (m : Manager) (s : Session)
    → session_at m handle ≡ some s
    → admission_error request s ≡ none
    → let m' : Manager = update handle (take_flight now request) m in
      (last_of m.store handle < request.request_id)
      × (last_of m'.store handle ≡ request.request_id)
      × Rises m m'
unfolding look take_flight
admitted-Rises handle now request m s e f =
    let p : Session → ℕ = λ s. s.last_request_id in
    let before : last_of m.store handle ≡ s.last_request_id = rw (look, e) refl in
    let less = admission-increases request s f in
    let after : (h : ℕ)
        → last_of (modify handle (take_flight now request) m.store) h
          ≡ (if handle == h then request.request_id else last_of m.store h) =
      λ h.
        look-modify_sets p handle (take_flight now request) m.store h s request.request_id e refl in
    (
      rw before less,
      after handle ∙ rw (==_refl handle) refl,
      λ h. rw (after h) (elim (Bool-cases (handle == h)) [
        | inl match ↦
            (let same : handle ≡ h = (==_iff handle h).0 match in
              rw (match, ← same, before) (omega arith))
        | inr miss ↦ rw miss (omega arith)
      ]),
    )

admit-Rises :
    (handle now : ℕ) (request : PredictRequest) (m : Manager)
    → let result : Manager × Option Error = admit handle now request m in Rises m result.0
unfolding admit
admit-Rises handle now request m = elim (Option-cases (session_at m handle)) [
  | inl e ↦ rw (admit, e) (λ h. omega arith)
  | inr (s, e) ↦ elim (Option-cases (admission_error request s)) [
    | inr (refused, f) ↦ rw (admit, e, f) (λ h. omega arith)
    | inl f ↦
        (let (less, last, rises) = admitted-Rises handle now request m s e f in
          rw (admit, e, f) rises)
  ]
]

leave_queue-Rises :
    (handle : ℕ) (request : PredictRequest) (m : Manager)
    → let result : Manager × Option Error = leave_queue handle request m in Rises m result.0
unfolding leave_queue
leave_queue-Rises handle request m = elim (Bool-cases (is_closing handle m)) [
  | inl closing ↦ rw (leave_queue, closing) (λ h. omega arith)
  | inr alive ↦ elim (Bool-cases m.shutting_down) [
    | inl down ↦ rw (leave_queue, alive, down) (λ h. omega arith)
    | inr up ↦ rw (leave_queue, alive, up) (λ h. omega arith)
  ]
]

equip-keeps_last :
    (factory : Option Bool) (s : Session) → (equip factory s).last_request_id ≡ s.last_request_id
unfolding equip
equip-keeps_last factory s = elim (Option-cases s.engine) [
  | inl e ↦ rw (equip, e) refl
  | inr (loaded, e) ↦ rw (equip, e) refl
]

advance-Rises :
    (outside : Outside) (request : PredictRequest) (stage : Stage) (m : Manager)
    → let result : Manager × Stage = advance outside request stage m in Rises m result.0
unfolding advance cancel land ensure_engine run_engine release_slot release_session note_activity
advance-Rises outside request (found handle) m = admit-Rises handle outside.now request m
advance-Rises outside request (waiting handle) m = elim (Bool-cases (may_leave_queue handle m)) [
  | inl may ↦ rw may (leave_queue-Rises handle request m)
  | inr stay ↦ rw stay (λ h. omega arith)
]
advance-Rises outside request (cancelled handle e) m =
    same-Rises m (cancel handle m)
      (λ h. look-modify_keeps (λ s. s.last_request_id) handle land m.store h (λ s. refl))
advance-Rises outside request (running handle) m =
    let kept = same-Rises m (ensure_engine handle outside.factory m) (λ h.
      look-modify_keeps (λ s. s.last_request_id) handle (equip outside.factory) m.store h
        (equip-keeps_last outside.factory)) in
    elim (Bool-cases (has_engine handle (ensure_engine handle outside.factory m))) [
      | inl there ↦ rw (run_engine, there) kept
      | inr none_made ↦ rw (run_engine, none_made) kept
    ]
advance-Rises outside request (ran handle answer) m =
    elim (Bool-cases (ltb 0 m.running_predictions)) [
      | inl some_run ↦ rw (release_slot, some_run) (λ h. omega arith)
      | inr none_run ↦ rw (release_slot, none_run) (λ h. omega arith)
    ]
advance-Rises outside request (released handle answer) m =
    same-Rises m (release_session handle outside.now m) (λ h.
      look-modify_keeps (λ s. s.last_request_id) handle
        (λ s. record s { prediction_in_flight = false; last_used = outside.now }) m.store h
        (λ s. refl))
advance-Rises outside request (landed answer) m = λ h. omega arith
advance-Rises outside request (returned result) m = λ h. omega arith

step-Rises :
    (i : ℕ) (outside : Outside) (m : Manager) (calls : List Call)
    → Rises m (step i outside (m, calls)).0
unfolding step
step-Rises i outside m calls = elim (Option-cases (get_elem? calls i)) [
  | inl e ↦ rw (step, e) (λ h. omega arith)
  | inr (call, e) ↦ rw (step, e) (advance-Rises outside call.request call.stage m)
]

Keeps-Rises : (m m' : Manager) → Keeps m m' → Rises m m'
Keeps-Rises m m' (limits, count, flights, lasts) = same-Rises m m' lasts

perform-Rises :
    (action : Action) (m : Manager) (calls : List Call) → Rises m (perform action (m, calls)).0
unfolding perform reap reap_locked evict_idle_locked drop_engine end_shutdown
perform-Rises (open_call owner_uid now devices) m calls =
    Keeps-Rises m (open_session owner_uid now devices m).0
      (open_session-Keeps owner_uid now devices m)
perform-Rises (predict_call owner_uid request) m calls =
    elim (outcome_cases (lookup owner_uid request m)) [
      | inl (handle, e) ↦ rw (perform, e) (λ h. omega arith)
      | inr (refused, e) ↦ rw (perform, e) (λ h. omega arith)
    ]
perform-Rises (step_call i outside) m calls = step-Rises i outside m calls
perform-Rises (close_call owner_uid session_id) m calls =
    Keeps-Rises m (begin_close owner_uid session_id m).0 (begin_close-Keeps owner_uid session_id m)
perform-Rises (engine_call handle) m calls = elim (Bool-cases (is_landed handle m)) [
  | inl there ↦
      rw (perform, there)
        (Keeps-Rises m (drop_engine handle m) (update-Keeps handle _ m (λ s. refl) (λ s. refl)))
  | inr away ↦ rw (perform, away) (λ h. omega arith)
]
perform-Rises (erase_call session_id now) m calls =
    Keeps-Rises m (erase_session session_id now m) (erase_session-Keeps session_id now m)
perform-Rises (reap_call now) m calls = λ h. omega arith
perform-Rises shutdown_call m calls = Keeps-Rises m (begin_shutdown m).0 (begin_shutdown-Keeps m)
perform-Rises end_call m calls = λ h. omega arith

perform_all-Rises :
    (actions : List Action) (world : World) → Rises world.0 (perform_all actions world).0
unfolding perform_all
perform_all-Rises [] world h = omega arith
perform_all-Rises (action ∷ actions) world h =
    let first = perform-Rises action world.0 world.1 h in
    let later = perform_all-Rises actions (perform action world) h in omega arith

not_refused :
    (m m' : Manager) (e : Error) → (◌≡◌ {A = Manager × Option Error} (m, some e) (m', none)) → ⊥
not_refused m m' e same =
    let refused : some e ≡ none = ap (λ (r : Manager × Option Error). r.1) same in absurd (cc)

admit_inv :
    (handle now : ℕ) (request : PredictRequest) (m m' : Manager)
    → admit handle now request m ≡ (m', none)
    → (last_of m.store handle < request.request_id) × (last_of m'.store handle ≡ request.request_id)
unfolding admit
admit_inv handle now request m m' e = elim (Option-cases (session_at m handle)) [
  | inl f ↦
      let same : (m, some (refusal session_busy request [])) ≡ (m', none) =
        sym (rw (admit, f) refl) ∙ e in
      absurd (not_refused m m' _ same)
  | inr (s, f) ↦ elim (Option-cases (admission_error request s)) [
    | inr (error, g) ↦
        let same : (m, some error) ≡ (m', none) = sym (rw (admit, f, g) refl) ∙ e in
        absurd (not_refused m m' error same)
    | inl g ↦
        let (less, last, rises) = admitted-Rises handle now request m s f g in
        let same : (update handle (take_flight now request) m, none) ≡ (m', none) =
          sym (rw (admit, f, g) refl) ∙ e in
        let moved : update handle (take_flight now request) m ≡ m' =
          ap (λ (r : Manager × Option Error). r.0) same in
        rw (← moved) (less, last)
  ]
]

-- Of two requests that the same session admits, the one that is admitted later has the higher identifier,
-- whatever happened in between.
pub admit-increasing :
    (handle now now' : ℕ) (request request' : PredictRequest) (m m' m'' : Manager)
    (calls : List Call) (actions : List Action)
    → admit handle now request m ≡ (m', none)
    → admit handle now' request' (perform_all actions (m', calls)).0 ≡ (m'', none)
    → request.request_id < request'.request_id
admit-increasing handle now now' request request' m m' m'' calls actions e f =
    let (less, last) = admit_inv handle now request m m' e in
    let (less', last') = admit_inv handle now' request' (perform_all actions (m', calls)).0 m'' f in
    let rises = perform_all-Rises actions (m', calls) handle in omega arith
