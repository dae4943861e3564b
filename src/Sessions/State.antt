-- ===== src/Sessions/State.antt =====
-- The state of the sessions, ime-unix-service/src/session/session.hpp and session_manager.hpp. Times are
-- numbers of seconds; identifiers are lists of 16 bytes.
use ime_fcitx.Prelude.{
  ℕ, Bool, false, ◌||◌, Option, none, some, List, [], ◌∷◌, ◌==◌, ltb, get_elem?, modify,
  if◌then◌else◌,
}
use ime_fcitx.Wire.Messages.{ErrorCode, Error, is_zero}

-- `closing` is the state `Closing`; an engine that is there is loaded or not.
pub record Session : Type 0 where
  pub id : List ℕ
  pub owner_uid : ℕ
  pub created_at : ℕ
  pub last_used : ℕ
  pub closing : Bool
  pub engine : Option Bool
  pub last_request_id : ℕ
  pub prediction_in_flight : Bool

pub record SessionLimits : Type 0 where
  pub max_sessions : ℕ
  pub max_idle_sessions : ℕ
  pub idle_timeout : ℕ
  pub max_concurrent_predictions : ℕ

-- A session is shared between the table and the calls that found it: `store` holds every session that was
-- made, and `sessions` the places in it of those in the table, in the order of a walk through the table.
pub record Manager : Type 0 where
  pub limits : SessionLimits
  pub service_epoch : List ℕ
  pub store : List Session
  pub sessions : List ℕ
  pub last_activity : ℕ
  pub shutting_down : Bool
  pub running_predictions : ℕ

-- What the random device gave, with a first byte of 1 in place of all zeros.
unfoldable pub random_bytes : List ℕ → List ℕ
random_bytes [] = []
random_bytes (byte ∷ bytes) = if is_zero (byte ∷ bytes) then 1 ∷ bytes else byte ∷ bytes

-- The limits that the constructor keeps.
unfoldable pub adjusted_limits : SessionLimits → SessionLimits
adjusted_limits limits =
    if limits.max_idle_sessions == 0 || ltb limits.max_sessions limits.max_idle_sessions
    then record limits { max_idle_sessions = limits.max_sessions }
    else limits

-- The constructor, which throws for limits of 0.
unfoldable pub new : SessionLimits → List ℕ → ℕ → Option Manager
new limits device now =
    if limits.max_sessions == 0 || limits.max_concurrent_predictions == 0
    then none
    else some (record {
      limits = adjusted_limits limits;
      service_epoch = random_bytes device;
      store = [];
      sessions = [];
      last_activity = now;
      shutting_down = false;
      running_predictions = 0;
    })

-- The session at a place; a place that is in use has one.
abbrev pub session_at : Manager → ℕ → Option Session
session_at m handle = get_elem? m.store handle

-- A change of a session through its pointer.
abbrev pub update : ℕ → (Session → Session) → Manager → Manager
update handle f m = record m { store = modify handle f m.store }

unfoldable pub error : ErrorCode → List ℕ → ℕ → ℕ → List ℕ → Error
error code session_id request_id revision message = record {
  code = code;
  session_id = session_id;
  request_id = request_id;
  buffer_revision = revision;
  message = message;
}

unfoldable pub owns : Session → ℕ → Bool
owns session owner_uid = session.owner_uid == owner_uid
