-- ===== src/Sessions/Exclusion/Schedules.antt =====
-- In every schedule the sessions and the slots are taken by one call each.
use ime_fcitx.Prelude.{
  ℕ, ◌≤◌, Option-cases, List, [], ◌∷◌, get_elem?, Bool-cases, inl, inr, ◌≡◌, refl, sym, ◌∙◌, arith,
}
use ime_fcitx.Sessions.State.{Manager}
use ime_fcitx.Sessions.Table.{open_session, reap, reap_locked, evict_idle_locked}
use ime_fcitx.Sessions.Predict.{lookup}
use ime_fcitx.Sessions.Close.{
  begin_close, is_landed, drop_engine, erase_session, begin_shutdown, end_shutdown,
}
use ime_fcitx.Sessions.World.{Call, Outside, Action, World, advance, step, perform, perform_all}
use ime_fcitx.Sessions.World.{
  open_call, predict_call, step_call, close_call, engine_call, erase_call, reap_call, shutdown_call,
  end_call,
}
use ime_fcitx.Sessions.Exclusion.Counting.{total, total-modify, le_total}
use ime_fcitx.Sessions.Exclusion.Flights.{flight}
use ime_fcitx.Sessions.Exclusion.Advancing.{slots, holds, Counted, advance-Balanced}
use ime_fcitx.Sessions.Exclusion.Keeping.{
  Keeps, update-Keeps, open_session-Keeps, outcome_cases, begin_close-Keeps, erase_session-Keeps,
  begin_shutdown-Keeps,
}

abbrev call_slots : Call → ℕ
call_slots call = slots call.stage

abbrev call_holds : ℕ → Call → ℕ
call_holds h call = holds h call.stage

-- The running predictions are the calls with a slot, not more than allowed, and a session is in flight for
-- exactly one call or for none.
abbrev pub IsExclusive : World → Type 0
IsExclusive (m, calls) =
    (m.running_predictions ≡ total (λ call. slots call.stage) calls)
    × (m.running_predictions ≤ m.limits.max_concurrent_predictions)
    × ((h : ℕ) → total (λ call. holds h call.stage) calls ≡ flight m.store h)

Keeps-IsExclusive :
    (m m' : Manager) (calls : List Call)
    → Keeps m m'
    → IsExclusive (m, calls)
    → IsExclusive (m', calls)
Keeps-IsExclusive m m' calls (limits, count, flights, lasts) (slotted, bound, held) =
    (count ∙ slotted, rw (count, limits) bound, λ h. held h ∙ sym (flights h))

-- One stretch of one call.
step-IsExclusive :
    (i : ℕ) (outside : Outside) (world : World)
    → IsExclusive world
    → IsExclusive (step i outside world)
unfolding step
step-IsExclusive i outside (m, calls) (slotted, bound, held) =
    elim (Option-cases (get_elem? calls i)) [
      | inl e ↦ rw (step, e) (slotted, bound, held)
      | inr (call, e) ↦
          let counted : Counted m call.stage = (
            bound,
            (let one = le_total call_slots i calls call e in rw slotted one),
            λ h. rw (← held h) (le_total (call_holds h) i calls call e),
          ) in
          let (limits, count, bound', flights) =
            advance-Balanced outside call.request call.stage m counted in
          let stage' = (advance outside call.request call.stage m).1 in
          let change : Call → Call = λ call. record call { stage = stage' } in
          let sum = total-modify call_slots i change calls call e in
          rw (step, e)
            (
              omega arith,
              rw limits bound',
              λ h.
                  let held_sum = total-modify (call_holds h) i change calls call e in
                  let own = held h in let moved = flights h in omega arith,
            )
    ]

pub perform-IsExclusive :
    (action : Action) (world : World) → IsExclusive world → IsExclusive (perform action world)
unfolding perform reap reap_locked evict_idle_locked drop_engine end_shutdown total slots holds
perform-IsExclusive (open_call owner_uid now devices) (m, calls) h =
    Keeps-IsExclusive m (open_session owner_uid now devices m).0 calls
      (open_session-Keeps owner_uid now devices m) h
perform-IsExclusive (predict_call owner_uid request) (m, calls) (slotted, bound, held) =
    elim (outcome_cases (lookup owner_uid request m)) [
      | inl (handle, e) ↦ rw (perform, e) (omega arith, bound, λ h. let own = held h in omega arith)
      | inr (refused, e) ↦ rw (perform, e) (slotted, bound, held)
    ]
perform-IsExclusive (step_call i outside) world h = step-IsExclusive i outside world h
perform-IsExclusive (close_call owner_uid session_id) (m, calls) h =
    Keeps-IsExclusive m (begin_close owner_uid session_id m).0 calls
      (begin_close-Keeps owner_uid session_id m) h
perform-IsExclusive (engine_call handle) (m, calls) h = elim (Bool-cases (is_landed handle m)) [
  | inl there ↦
      rw (perform, there)
        (Keeps-IsExclusive m (drop_engine handle m) calls
          (update-Keeps handle _ m (λ s. refl) (λ s. refl)) h)
  | inr away ↦ rw (perform, away) h
]
perform-IsExclusive (erase_call session_id now) (m, calls) h =
    Keeps-IsExclusive m (erase_session session_id now m) calls
      (erase_session-Keeps session_id now m) h
perform-IsExclusive (reap_call now) (m, calls) h = h
perform-IsExclusive shutdown_call (m, calls) h =
    Keeps-IsExclusive m (begin_shutdown m).0 calls (begin_shutdown-Keeps m) h
perform-IsExclusive end_call (m, calls) h = h

-- Whatever the order in which the stretches of any number of calls take their locks, the counter of running
-- predictions is the number of calls that have a slot, it stays within the limit, and a session is in flight
-- exactly when one call holds it; no two calls hold the same session.
pub perform_all-IsExclusive :
    (actions : List Action) (world : World)
    → IsExclusive world
    → IsExclusive (perform_all actions world)
unfolding perform_all
perform_all-IsExclusive [] world h = h
perform_all-IsExclusive (action ∷ actions) world h =
    perform_all-IsExclusive actions (perform action world) (perform-IsExclusive action world h)
