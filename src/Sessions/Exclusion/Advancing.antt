-- ===== src/Sessions/Exclusion/Advancing.antt =====
-- What one stretch of `predict` does to the slots and to the flights.
use ime_fcitx.Prelude.{
  ℕ, ◌+◌, ◌≤◌, Bool, true, false, Option, Option-cases, none, ◌==◌, ltb, ltb→lt, ==_refl,
  Bool-cases, inl, inr, ◌≡◌, refl, ap, arith,
}
use ime_fcitx.Wire.Messages.{Error, PredictRequest}
use ime_fcitx.Sessions.State.{Session, Manager, session_at}
use ime_fcitx.Sessions.Predict.{
  Answer, admission_error, admit, take_flight, is_closing, may_leave_queue, leave_queue, land,
  cancel, equip, ensure_engine, has_engine, run_engine, release_slot, release_session,
  note_activity,
}
use ime_fcitx.Sessions.World.{Stage, Outside, after_admission, after_queue, advance}
use ime_fcitx.Sessions.World.{found, waiting, cancelled, running, ran, released, landed, returned}
use ime_fcitx.Sessions.Exclusion.Flights.{
  one_if, flight, in_flight, look-modify_keeps, begin_flight, end_flight,
}

-- The slots that a call has.
unfoldable pub slots : Stage → ℕ
slots (running handle) = 1
slots (ran handle answer) = 1
slots stage = 0

-- Whether a call has the session at the place in flight.
unfoldable pub holds : ℕ → Stage → ℕ
holds h (waiting handle) = one_if (handle == h)
holds h (cancelled handle e) = one_if (handle == h)
holds h (running handle) = one_if (handle == h)
holds h (ran handle answer) = one_if (handle == h)
holds h (released handle answer) = one_if (handle == h)
holds h stage = 0

-- The bound on the slots is kept, and slots and flights change as the call's do.
abbrev pub Balanced : Manager → Stage → Manager → Stage → Type 0
Balanced m stage m' stage' =
    (m'.limits ≡ m.limits)
    × (m'.running_predictions + slots stage ≡ m.running_predictions + slots stage')
    × (m'.running_predictions ≤ m.limits.max_concurrent_predictions)
    × ((h : ℕ) → flight m'.store h + holds h stage ≡ flight m.store h + holds h stage')

-- What a call may rely on: its slot and its flight are counted.
abbrev pub Counted : Manager → Stage → Type 0
Counted m stage =
    (m.running_predictions ≤ m.limits.max_concurrent_predictions)
    × (slots stage ≤ m.running_predictions)
    × ((h : ℕ) → holds h stage ≤ flight m.store h)

admission-not_in_flight :
    (request : PredictRequest) (session : Session)
    → admission_error request session ≡ none
    → session.prediction_in_flight ≡ false
unfolding admission_error
admission-not_in_flight request session e = elim (Bool-cases session.prediction_in_flight) [
  | inr grounded ↦ grounded
  | inl up ↦ absurd (ground arith)
]

admit-Balanced :
    (handle now : ℕ) (request : PredictRequest) (m : Manager)
    → m.running_predictions ≤ m.limits.max_concurrent_predictions
    → let result : Manager × Option Error = admit handle now request m in
      Balanced m (found handle) result.0 (after_admission handle result.1)
unfolding admit after_admission slots holds take_flight
admit-Balanced handle now request m bound = elim (Option-cases (session_at m handle)) [
  | inl e ↦ rw (admit, e) (refl, refl, bound, λ h. refl)
  | inr (s, e) ↦ elim (Option-cases (admission_error request s)) [
    | inr (refused, f) ↦ rw (admit, e, f) (refl, refl, bound, λ h. refl)
    | inl f ↦
        rw (admit, e, f)
          (
            refl,
            refl,
            bound,
            begin_flight handle (take_flight now request) m.store s e
                (admission-not_in_flight request s f) refl,
          )
  ]
]

leave_queue-Balanced :
    (handle : ℕ) (request : PredictRequest) (m : Manager)
    → m.running_predictions ≤ m.limits.max_concurrent_predictions
    → may_leave_queue handle m ≡ true
    → let result : Manager × Option Error = leave_queue handle request m in
      Balanced m (waiting handle) result.0 (after_queue handle result.1)
unfolding leave_queue after_queue slots holds may_leave_queue is_closing
leave_queue-Balanced handle request m bound may = elim (Bool-cases (is_closing handle m)) [
  | inl closing ↦ rw (leave_queue, closing) (refl, refl, bound, λ h. refl)
  | inr alive ↦ elim (Bool-cases m.shutting_down) [
    | inl down ↦ rw (leave_queue, alive, down) (refl, refl, bound, λ h. refl)
    | inr up ↦
        let free : ltb m.running_predictions m.limits.max_concurrent_predictions ≡ true =
          rw (up, alive) at may in
        let below = ltb→lt m.running_predictions m.limits.max_concurrent_predictions free in
        rw (leave_queue, alive, up) (refl, omega arith, omega arith, λ h. refl)
  ]
]

equip-keeps_flight :
    (factory : Option Bool) (s : Session)
    → (equip factory s).prediction_in_flight ≡ s.prediction_in_flight
unfolding equip
equip-keeps_flight factory s = elim (Option-cases s.engine) [
  | inl e ↦ rw (equip, e) refl
  | inr (loaded, e) ↦ rw (equip, e) refl
]

run_engine-Balanced :
    (handle : ℕ) (factory : Option Bool) (answer : Answer) (m : Manager)
    → m.running_predictions ≤ m.limits.max_concurrent_predictions
    → let result : Manager × Answer = run_engine handle factory answer m in
      Balanced m (running handle) result.0 (ran handle result.1)
unfolding run_engine ensure_engine slots holds
run_engine-Balanced handle factory answer m bound =
    let kept : (h : ℕ) → flight (ensure_engine handle factory m).store h ≡ flight m.store h = λ h.
      look-modify_keeps in_flight handle (equip factory) m.store h
        (λ s. ap one_if (equip-keeps_flight factory s)) in
    elim (Bool-cases (has_engine handle (ensure_engine handle factory m))) [
      | inl there ↦
          rw (run_engine, there)
            (refl, refl, bound, λ h. ap (λ n. n + one_if (handle == h)) (kept h))
      | inr none_made ↦
          rw (run_engine, none_made)
            (refl, refl, bound, λ h. ap (λ n. n + one_if (handle == h)) (kept h))
    ]

release_slot-Balanced :
    (handle : ℕ) (answer : Answer) (m : Manager)
    → m.running_predictions ≤ m.limits.max_concurrent_predictions
    → 1 ≤ m.running_predictions
    → Balanced m (ran handle answer) (release_slot m) (released handle answer)
unfolding release_slot slots holds
release_slot-Balanced handle answer m bound one =
    let positive : ltb 0 m.running_predictions ≡ true = ground arith in
    rw (release_slot, positive) (refl, omega arith, omega arith, λ h. refl)

own_flight : (handle n : ℕ) → one_if (handle == handle) ≤ n → 1 ≤ n
own_flight handle n h =
    let one : one_if (handle == handle) ≡ 1 = rw (==_refl handle) refl in omega arith

pub advance-Balanced :
    (outside : Outside) (request : PredictRequest) (stage : Stage) (m : Manager)
    → Counted m stage
    → let result : Manager × Stage = advance outside request stage m in
      Balanced m stage result.0 result.1
unfolding advance slots holds cancel land release_session note_activity
advance-Balanced outside request (found handle) m (bound, slot, held) =
    admit-Balanced handle outside.now request m bound
advance-Balanced outside request (waiting handle) m (bound, slot, held) =
    elim (Bool-cases (may_leave_queue handle m)) [
      | inl may ↦ rw may (leave_queue-Balanced handle request m bound may)
      | inr stay ↦ rw stay (refl, refl, bound, λ h. refl)
    ]
advance-Balanced outside request (cancelled handle e) m (bound, slot, held) = (
  refl,
  refl,
  bound,
  end_flight handle land m.store (own_flight handle (flight m.store handle) (held handle))
      (λ s. refl),
)
advance-Balanced outside request (running handle) m (bound, slot, held) =
    run_engine-Balanced handle outside.factory outside.answer m bound
advance-Balanced outside request (ran handle answer) m (bound, slot, held) =
    release_slot-Balanced handle answer m bound slot
advance-Balanced outside request (released handle answer) m (bound, slot, held) = (
  refl,
  refl,
  bound,
  end_flight handle _ m.store (own_flight handle (flight m.store handle) (held handle)) (λ s. refl),
)
advance-Balanced outside request (landed answer) m (bound, slot, held) =
    (refl, refl, bound, λ h. refl)
advance-Balanced outside request (returned result) m (bound, slot, held) =
    (refl, refl, bound, λ h. refl)
