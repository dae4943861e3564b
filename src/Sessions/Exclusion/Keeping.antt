-- ===== src/Sessions/Exclusion/Keeping.antt =====
-- What the calls other than `predict` leave alone, ime-unix-service/src/session/session_manager.cpp.
use ime_fcitx.Prelude.{
  ℕ, true, ◌&&◌, Option, Option-cases, List, [], ◌∷◌, ◌==◌, leb, length, Bool-cases, inl, inr, ◌⊎◌,
  ◌≡◌, refl, ap, ◌∙◌,
}
use ime_fcitx.Wire.Messages.{Error}
use ime_fcitx.Sessions.State.{Session, Manager, update}
use ime_fcitx.Sessions.Table.{
  open_session, open_in_room, make_room, draw_id, add_session, reap_locked, evict_idle_locked,
  find_owned, find_session_locked,
}
use ime_fcitx.Sessions.Close.{set_closing, begin_close, erase_session, close_all, begin_shutdown}
use ime_fcitx.Sessions.Exclusion.Flights.{
  one_if, in_flight, flight, last_of, look-modify_keeps, look-append,
}

-- A change that leaves the counts alone.
abbrev pub Keeps : Manager → Manager → Type 0
Keeps m m' =
    (m'.limits ≡ m.limits)
    × (m'.running_predictions ≡ m.running_predictions)
    × ((h : ℕ) → flight m'.store h ≡ flight m.store h)
    × ((h : ℕ) → last_of m'.store h ≡ last_of m.store h)

pub update-Keeps :
    (handle : ℕ) (f : Session → Session) (m : Manager)
    → ((s : Session) → (f s).prediction_in_flight ≡ s.prediction_in_flight)
    → ((s : Session) → (f s).last_request_id ≡ s.last_request_id)
    → Keeps m (update handle f m)
update-Keeps handle f m h k = (
  refl,
  refl,
  λ place. look-modify_keeps in_flight handle f m.store place (λ s. ap one_if (h s)),
  λ place. look-modify_keeps (λ s. s.last_request_id) handle f m.store place k,
)

pub close_all-Keeps : (sessions : List ℕ) (m : Manager) → Keeps m (close_all sessions m)
unfolding close_all set_closing
close_all-Keeps [] m = (refl, refl, λ h. refl, λ h. refl)
close_all-Keeps (handle ∷ sessions) m =
    let (limits, count, flights, lasts) = close_all-Keeps sessions (update handle set_closing m) in
    let (limits', count', flights', lasts') =
      update-Keeps handle set_closing m (λ s. refl) (λ s. refl) in
    (limits ∙ limits', count ∙ count', λ h. flights h ∙ flights' h, λ h. lasts h ∙ lasts' h)

open_in_room-Keeps :
    (owner_uid now : ℕ) (devices : List (List ℕ)) (m : Manager)
    → let result : Manager × Option (List ℕ ⊎ Error) = open_in_room owner_uid now devices m in
      Keeps m result.0
unfolding open_in_room add_session
open_in_room-Keeps owner_uid now devices m =
    elim (Bool-cases (leb m.limits.max_sessions (length m.sessions))) [
      | inl full ↦ rw (open_in_room, full) (refl, refl, λ h. refl, λ h. refl)
      | inr room ↦ elim (Option-cases (draw_id m devices)) [
        | inl e ↦ rw (open_in_room, room, e) (refl, refl, λ h. refl, λ h. refl)
        | inr (id, e) ↦
            rw (open_in_room, room, e)
              (
                refl,
                refl,
                λ h. look-append in_flight m.store _ h refl,
                λ h. look-append (λ s. s.last_request_id) m.store _ h refl,
              )
      ]
    ]

make_room-Keeps : (now : ℕ) (m : Manager) → Keeps m (make_room now m)
unfolding make_room reap_locked evict_idle_locked
make_room-Keeps now m = (refl, refl, λ h. refl, λ h. refl)

pub open_session-Keeps :
    (owner_uid now : ℕ) (devices : List (List ℕ)) (m : Manager)
    → let result : Manager × Option (List ℕ ⊎ Error) = open_session owner_uid now devices m in
      Keeps m result.0
unfolding open_session
open_session-Keeps owner_uid now devices m =
    let (limits, count, flights, lasts) =
      open_in_room-Keeps owner_uid now devices (make_room now m) in
    let (limits', count', flights', lasts') = make_room-Keeps now m in
    elim (Bool-cases m.shutting_down) [
      | inl down ↦ rw (open_session, down) (refl, refl, λ h. refl, λ h. refl)
      | inr up ↦
          simp (open_session, up)
            (limits ∙ limits', count ∙ count', λ h. flights h ∙ flights' h, λ h. lasts h ∙ lasts' h)
    ]

pub outcome_cases : {A B : Type 0} (o : A ⊎ B) → ((a : A) × (o ≡ inl a)) ⊎ ((b : B) × (o ≡ inr b))
outcome_cases (inl a) = inl (a, refl)
outcome_cases (inr b) = inr (b, refl)

pub begin_close-Keeps :
    (owner_uid : ℕ) (session_id : List ℕ) (m : Manager)
    → let result : Manager × (ℕ ⊎ Error) = begin_close owner_uid session_id m in Keeps m result.0
unfolding begin_close set_closing
begin_close-Keeps owner_uid session_id m =
    elim (outcome_cases (find_owned owner_uid session_id 0 0 m)) [
      | inl ((handle, session), e) ↦
          rw (begin_close, e) (update-Keeps handle set_closing m (λ s. refl) (λ s. refl))
      | inr (refused, e) ↦ rw (begin_close, e) (refl, refl, λ h. refl, λ h. refl)
    ]

pub erase_session-Keeps :
    (session_id : List ℕ) (now : ℕ) (m : Manager) → Keeps m (erase_session session_id now m)
unfolding erase_session
erase_session-Keeps session_id now m = elim (Option-cases (find_session_locked session_id m)) [
  | inl e ↦ rw (erase_session, e) (refl, refl, λ h. refl, λ h. refl)
  | inr (handle, e) ↦ rw (erase_session, e) (refl, refl, λ h. refl, λ h. refl)
]

pub begin_shutdown-Keeps :
    (m : Manager) → let result : Manager × Option (List ℕ) = begin_shutdown m in Keeps m result.0
unfolding begin_shutdown
begin_shutdown-Keeps m = elim (Bool-cases (m.shutting_down && length m.sessions == 0)) [
  | inl done ↦ rw (begin_shutdown, done) (refl, refl, λ h. refl, λ h. refl)
  | inr more ↦
      rw (begin_shutdown, more) (close_all-Keeps m.sessions (record m { shutting_down = true }))
]
