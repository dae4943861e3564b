-- ===== src/Sessions/Close.antt =====
-- `close_session` and `shutdown`, ime-unix-service/src/session/session_manager.cpp, one function for each
-- stretch that holds a lock.
use ime_fcitx.Prelude.{
  ℕ, Bool, true, not, ◌&&◌, Option, none, some, List, [], ◌∷◌, ◌==◌, length, if◌then◌else◌, ◌⊎◌,
  inl, inr,
}
use ime_fcitx.Wire.Messages.{Error}
use ime_fcitx.Sessions.State.{Session, Manager, session_at, update}
use ime_fcitx.Sessions.Table.{find_owned, find_session_locked, erase_handle}

unfoldable pub set_closing : Session → Session
set_closing session = record session { closing = true }

-- The session is marked as closing, or the error.
unfoldable pub begin_close : ℕ → List ℕ → Manager → Manager × (ℕ ⊎ Error)
begin_close owner_uid session_id m = elim (find_owned owner_uid session_id 0 0 m) [
  | inr e ↦ (m, inr e)
  | inl (handle, session) ↦ (update handle set_closing m, inl handle)
]

-- What the closing call waits for.
unfoldable pub is_landed : ℕ → Manager → Bool
is_landed handle m = elim (session_at m handle) [
  | none ↦ true
  | some session ↦ not session.prediction_in_flight
]

-- `engine.reset()`
unfoldable pub drop_engine : ℕ → Manager → Manager
drop_engine handle m = update handle (λ session. record session { engine = none }) m

-- `sessions_.erase` by name.
unfoldable pub erase_session : List ℕ → ℕ → Manager → Manager
erase_session session_id now m = elim (find_session_locked session_id m) [
  | none ↦ record m { last_activity = now }
  | some handle ↦ record m { sessions = erase_handle handle m.sessions; last_activity = now }
]

unfoldable pub close_all : List ℕ → Manager → Manager
close_all [] m = m
close_all (handle ∷ sessions) m = close_all sessions (update handle set_closing m)

-- The first stretch of `shutdown`: the sessions to wait for; none when it was done before.
unfoldable pub begin_shutdown : Manager → Manager × Option (List ℕ)
begin_shutdown m =
    if m.shutting_down && length m.sessions == 0
    then (m, none)
    else (close_all m.sessions (record m { shutting_down = true }), some m.sessions)

-- The last stretch, once each of them has landed and has lost its engine.
unfoldable pub end_shutdown : Manager → Manager
end_shutdown m = record m { sessions = [] }
