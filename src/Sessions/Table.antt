-- ===== src/Sessions/Table.antt =====
-- The table of sessions, ime-unix-service/src/session/session_manager.cpp. Every function runs under the
-- manager's lock.
use ime_fcitx.Prelude.{
  ℕ, zero, suc, ◌+◌, ◌-◌, ◌^◌, min, Bool, true, false, not, ◌&&◌, ◌||◌, Option, none, some, List,
  [], ◌∷◌, ◌++◌, ◌==◌, leb, ltb, length, get_elem?, if◌then◌else◌, eq_codes, codes, ◌⊎◌, inl, inr,
}
use ime_fcitx.Wire.Messages.{
  Error, SessionStatus, StatusResponse, unknown_session, unauthorized, resource_exhausted,
  service_shutting_down,
}
use ime_fcitx.Sessions.State.{Session, Manager, random_bytes, session_at, error, owns}

-- 16 zero bytes, `{}`
abbrev pub no_id : List ℕ
no_id = 0 ∷ 0 ∷ 0 ∷ 0 ∷ 0 ∷ 0 ∷ 0 ∷ 0 ∷ 0 ∷ 0 ∷ 0 ∷ 0 ∷ 0 ∷ 0 ∷ 0 ∷ 0 ∷ []

-- The place of the session of this name among these.
unfoldable pub find_in : List Session → List ℕ → List ℕ → Option ℕ
find_in store [] id = none
find_in store (handle ∷ sessions) id = elim (get_elem? store handle) [
  | none ↦ find_in store sessions id
  | some session ↦ if eq_codes session.id id then some handle else find_in store sessions id
]

unfoldable pub find_session_locked : List ℕ → Manager → Option ℕ
find_session_locked id m = find_in m.store m.sessions id

-- `contains`
unfoldable pub is_named : List ℕ → Manager → Bool
is_named id m = elim (find_session_locked id m) [ none ↦ false | some handle ↦ true ]

-- `last_used` is the timeout or more ago.
unfoldable pub expired : ℕ → ℕ → Session → Bool
expired now idle_timeout session =
    not session.closing
    && not session.prediction_in_flight
    && leb (session.last_used + idle_timeout) now

unfoldable pub keep_fresh : List Session → ℕ → ℕ → List ℕ → List ℕ
keep_fresh store now idle_timeout [] = []
keep_fresh store now idle_timeout (handle ∷ sessions) =
    let rest = keep_fresh store now idle_timeout sessions in
    elim (get_elem? store handle) [
      | none ↦ handle ∷ rest
      | some session ↦ if expired now idle_timeout session then rest else handle ∷ rest
    ]

unfoldable pub reap_locked : ℕ → Manager → Manager
reap_locked now m = record m { sessions = keep_fresh m.store now m.limits.idle_timeout m.sessions }

-- Active and without a prediction.
unfoldable pub is_idle : List Session → ℕ → Bool
is_idle store handle = elim (get_elem? store handle) [
  | none ↦ false
  | some session ↦ not session.closing && not session.prediction_in_flight
]

unfoldable pub idle_count : List Session → List ℕ → ℕ
idle_count store [] = 0
idle_count store (handle ∷ sessions) =
    if is_idle store handle then 1 + idle_count store sessions else idle_count store sessions

unfoldable pub used_at : List Session → ℕ → ℕ
used_at store handle = elim (get_elem? store handle) [ none ↦ 0 | some session ↦ session.last_used ]

-- The loop over the table, with the oldest idle session so far.
unfoldable pub oldest_idle : List Session → List ℕ → Option ℕ → Option ℕ
oldest_idle store [] oldest = oldest
oldest_idle store (handle ∷ sessions) none =
    oldest_idle store sessions (if is_idle store handle then some handle else none)
oldest_idle store (handle ∷ sessions) (some oldest) = oldest_idle store sessions (
    some (
      if is_idle store handle && ltb (used_at store handle) (used_at store oldest)
      then handle
      else oldest))

-- `sessions_.erase`
unfoldable pub erase_handle : ℕ → List ℕ → List ℕ
erase_handle handle [] = []
erase_handle handle (h ∷ sessions) =
    if h == handle then sessions else h ∷ erase_handle handle sessions

-- The loop, on fuel: a round takes a session out of the table.
unfoldable pub evict_loop : ℕ → List Session → ℕ → List ℕ → List ℕ
evict_loop zero store target sessions = sessions
evict_loop (suc fuel) store target sessions =
    if ltb target (idle_count store sessions)
    then elim (oldest_idle store sessions none) [
      | none ↦ sessions
      | some oldest ↦ evict_loop fuel store target (erase_handle oldest sessions)
    ]
    else sessions

unfoldable pub evict_idle_locked : ℕ → Manager → Manager
evict_idle_locked target m = record m {
  sessions = evict_loop (length m.sessions) m.store target m.sessions;
}

-- The first of the names drawn that is not in use; none when there is no such name among them.
unfoldable pub draw_id : Manager → List (List ℕ) → Option (List ℕ)
draw_id m [] = none
draw_id m (device ∷ devices) =
    let later = draw_id m devices in
    if is_named (random_bytes device) m then later else some (random_bytes device)

abbrev pub new_session : List ℕ → ℕ → ℕ → Session
new_session id owner_uid now = record {
  id = id;
  owner_uid = owner_uid;
  created_at = now;
  last_used = now;
  closing = false;
  engine = none;
  last_request_id = 0;
  prediction_in_flight = false;
}

-- A new session at the end of the store.
unfoldable pub add_session : List ℕ → ℕ → ℕ → Manager → Manager
add_session id owner_uid now m = record m {
  store = m.store ++ (new_session id owner_uid now ∷ []);
  sessions = m.sessions ++ (length m.store ∷ []);
  last_activity = now;
}

-- The table once the stale sessions are gone and there is room for one idle session.
unfoldable pub make_room : ℕ → Manager → Manager
make_room now m =
    evict_idle_locked
      (if ltb 0 m.limits.max_idle_sessions then m.limits.max_idle_sessions - 1 else 0)
      (reap_locked now m)

-- A new session, if the table has room for it; none when the draws are used up.
unfoldable pub open_in_room : ℕ → ℕ → List (List ℕ) → Manager → Manager × Option (List ℕ ⊎ Error)
open_in_room owner_uid now devices m =
    if leb m.limits.max_sessions (length m.sessions)
    then (
      m,
      some (inr (error resource_exhausted no_id 0 0 (codes "maximum session count reached"))),
    )
    else elim (draw_id m devices) [
      | none ↦ (m, none)
      | some id ↦ (add_session id owner_uid now m, some (inl id))
    ]

-- `open_session`: the new session's name, or the error.
unfoldable pub open_session : ℕ → ℕ → List (List ℕ) → Manager → Manager × Option (List ℕ ⊎ Error)
open_session owner_uid now devices m =
    if m.shutting_down
    then (m, some (inr (error service_shutting_down no_id 0 0 (codes "service is shutting down"))))
    else open_in_room owner_uid now devices (make_room now m)

-- `reap`
unfoldable pub reap : ℕ → Manager → Manager
reap now m = let fresh = reap_locked now m in evict_idle_locked fresh.limits.max_idle_sessions fresh

unfoldable pub should_idle_shutdown : ℕ → Manager → Bool
should_idle_shutdown now m =
    if m.shutting_down || not (length m.sessions == 0)
    then false
    else m.running_predictions == 0 && leb (m.last_activity + m.limits.idle_timeout) now

unfoldable pub session_status : Session → SessionStatus
session_status session = record {
  session_id = session.id;
  active = not session.closing;
  closing = session.closing;
  engine_loaded = elim session.engine [ none ↦ false | some loaded ↦ loaded ];
  last_request_id = session.last_request_id;
}

-- The session of this name, if this user owns it.
unfoldable pub find_owned : ℕ → List ℕ → ℕ → ℕ → Manager → (ℕ × Session) ⊎ Error
find_owned owner_uid session_id request_id revision m = elim (find_session_locked session_id m) [
  | none ↦ inr (error unknown_session session_id request_id revision (codes "unknown session"))
  | some handle ↦ elim (session_at m handle) [
    | none ↦ inr (error unknown_session session_id request_id revision (codes "unknown session"))
    | some session ↦
        if owns session owner_uid
        then inl (handle, session)
        else inr (
            error unauthorized session_id request_id revision
              (codes "session belongs to another user"))
  ]
]

-- `status`; the numbers are capped at 2 ^ 32 - 1.
unfoldable pub status : ℕ → Option (List ℕ) → Bool → Manager → StatusResponse ⊎ Error
status owner_uid session_id model_loaded m =
    let response : StatusResponse = record {
      service_epoch = m.service_epoch;
      shutting_down = m.shutting_down;
      model_loaded = model_loaded;
      active_sessions = min (length m.sessions) (2 ^ 32 - 1);
      max_sessions = min m.limits.max_sessions (2 ^ 32 - 1);
      session = none;
    } in
    elim session_id [
      | none ↦ inl response
      | some id ↦ elim (find_owned owner_uid id 0 0 m) [
        | inr e ↦ inr e
        | inl (handle, session) ↦ inl (record response { session = some (session_status session) })
      ]
    ]
