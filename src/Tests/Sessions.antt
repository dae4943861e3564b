-- ===== src/Tests/Sessions.antt =====
-- Concrete runs of the sessions of ime-unix-service/src/session.
use ime_fcitx.Prelude.{
  ℕ, zero, suc, ◌≤◌, ◌<◌, true, false, none, some, List, [], ◌∷◌, inl, ◌≡◌, refl, arith, eq_codes,
  modify, ◌↔◌,
}
use ime_fcitx.Wire.Messages.{is_zero, PredictRequest, Prediction}
use ime_fcitx.Sessions.State.{Session, SessionLimits, Manager}
use ime_fcitx.Sessions.Table.{
  open_session, new_session, find_owned, idle_count, evict_idle_locked, oldest_idle, is_idle,
}
use ime_fcitx.Sessions.Predict.{Answer, admit, respond}
use ime_fcitx.Sessions.Predict.{answered}
use ime_fcitx.Sessions.World.{
  Call, Outside, Action, World, perform_all, waiting, open_call, predict_call, step_call,
  close_call, reap_call,
}
use ime_fcitx.Sessions.Exclusion.Counting.{total}
use ime_fcitx.Sessions.Exclusion.Flights.{look, flight}
use ime_fcitx.Sessions.Exclusion.Schedules.{IsExclusive, perform_all-IsExclusive}
use ime_fcitx.Sessions.Eviction.{evict_idle_locked-idle_count}
use ime_fcitx.Sessions.Requests.{admit-increasing}
use ime_fcitx.Sessions.Responses.{Answers, reply, respond-Answers}
use ime_fcitx.Sessions.Capacity.{IsTable}
use ime_fcitx.Sessions.Bounded.{perform_all-IsTable}
use ime_fcitx.Sessions.Opening.{find_owned-open_session}
use ime_fcitx.Sessions

abbrev name : List ℕ
name = 9 ∷ 8 ∷ 7 ∷ []

abbrev limits : SessionLimits
limits = record {
  max_sessions = 2;
  max_idle_sessions = 2;
  idle_timeout = 1800;
  max_concurrent_predictions = 1;
}

abbrev empty_manager : Manager
empty_manager = record {
  limits = limits;
  service_epoch = 5 ∷ [];
  store = [];
  sessions = [];
  last_activity = 0;
  shutting_down = false;
  running_predictions = 0;
}

-- Two idle sessions.
abbrev manager : Manager
manager = record empty_manager {
  store = new_session name 1000 10 ∷ new_session (1 ∷ []) 1000 20 ∷ [];
  sessions = 0 ∷ 1 ∷ [];
}

abbrev request : ℕ → PredictRequest
request n = record {
  session_id = name;
  request_id = n;
  buffer_revision = 4;
  context = [];
  padding = record { chosen = true; bopomofo = []; chosen_char = 0x4F60 } ∷ [];
}

abbrev outside : Outside
outside = record { now = 30; factory = some true; answer = answered ((0x4F60 ∷ []) ∷ []) }

-- Two calls of one session at the same time.
abbrev schedule : List Action
schedule =
    predict_call 1000 (request 1)
    ∷ predict_call 1000 (request 2)
    ∷ step_call 0 outside
    ∷ step_call 1 outside
    ∷ step_call 0 outside
    ∷ close_call 1000 name
    ∷ step_call 0 outside
    ∷ reap_call 40
    ∷ []

no_flights : (h : ℕ) → 0 ≡ flight manager.store h
unfolding look
no_flights zero = refl
no_flights (suc zero) = refl
no_flights (suc (suc h)) = refl

manager-IsExclusive : IsExclusive (manager, [])
unfolding total look
manager-IsExclusive = (refl, omega arith, no_flights)

manager-IsTable : IsTable manager
manager-IsTable = (omega arith, (omega arith, (omega arith, tt)))

perform_all-IsExclusive_example : IsExclusive (perform_all schedule (manager, []))
perform_all-IsExclusive_example = perform_all-IsExclusive schedule (manager, []) manager-IsExclusive

perform_all-IsTable_example : IsTable (perform_all schedule (manager, [])).0
perform_all-IsTable_example = perform_all-IsTable schedule (manager, []) manager-IsTable

evict_idle_locked-idle_count_example :
    idle_count (evict_idle_locked 1 manager).store (evict_idle_locked 1 manager).sessions ≤ 1
evict_idle_locked-idle_count_example = evict_idle_locked-idle_count 1 manager

abbrev character_reply : Prediction
character_reply = reply (request 3) ((0x4F60 ∷ []) ∷ [])

respond-Answers_example :
    (respond (request 3) (answered ((0x4F60 ∷ []) ∷ [])) ≡ inl character_reply) ↔ (
      (answered ((0x4F60 ∷ []) ∷ []) ≡ answered character_reply.candidates)
      × (character_reply ≡ reply (request 3) character_reply.candidates)
      × Answers (request 3).padding character_reply.candidates)
respond-Answers_example =
    respond-Answers (request 3) (answered ((0x4F60 ∷ []) ∷ [])) character_reply

-- The device draws a name in use first.
abbrev draws : List (List ℕ)
draws = name ∷ (6 ∷ 6 ∷ []) ∷ []

abbrev one_session : Manager
one_session = record manager { sessions = 0 ∷ [] }

abbrev opened : Manager
opened = record one_session {
  store =
      new_session name 1000 10
      ∷ new_session (1 ∷ []) 1000 20
      ∷ new_session (6 ∷ 6 ∷ []) 1000 50
      ∷ [];
  sessions = 0 ∷ 2 ∷ [];
  last_activity = 50;
}

one_session_opens : open_session 1000 50 draws one_session ≡ (opened, some (inl (6 ∷ 6 ∷ [])))
unfolding Sessions.Table.open_session Sessions.Table.make_room Sessions.Table.reap_locked
    Sessions.Table.keep_fresh Sessions.Table.expired Sessions.Table.evict_idle_locked
    Sessions.Table.evict_loop Sessions.Table.idle_count Sessions.Table.is_idle
    Sessions.Table.open_in_room Sessions.Table.draw_id Sessions.Table.is_named
    Sessions.Table.find_session_locked Sessions.Table.find_in Sessions.Table.add_session
    Sessions.State.random_bytes is_zero eq_codes
one_session_opens = refl

find_owned-open_session_example :
    find_owned 1000 (6 ∷ 6 ∷ []) 1 4 opened ≡ inl (2, new_session (6 ∷ 6 ∷ []) 1000 50)
find_owned-open_session_example =
    find_owned-open_session 1000 50 1000 1 4 draws one_session opened (6 ∷ 6 ∷ [])
      (omega arith, (omega arith, tt)) one_session_opens

-- The first request runs to its end before the second one comes.
abbrev after_first : Manager
after_first = (admit 0 30 (request 1) manager).0

abbrev to_the_end : List Action
to_the_end =
    step_call 0 outside
    ∷ step_call 0 outside
    ∷ step_call 0 outside
    ∷ step_call 0 outside
    ∷ step_call 0 outside
    ∷ []

abbrev waiting_call : Call
waiting_call = record { request = request 1; stage = waiting 0 }

first_admitted : admit 0 30 (request 1) manager ≡ (after_first, none)
unfolding Sessions.Predict.admit Sessions.Predict.admission_error
first_admitted = refl

abbrev after_second : Manager
after_second =
    (admit 0 40 (request 2) (perform_all to_the_end (after_first, waiting_call ∷ [])).0).0

second_admitted :
    admit 0 40 (request 2) (perform_all to_the_end (after_first, waiting_call ∷ [])).0
    ≡ (after_second, none)
unfolding Sessions.Predict.admit Sessions.Predict.admission_error Sessions.World.perform_all
    Sessions.World.perform Sessions.World.step Sessions.World.advance Sessions.World.after_queue
    Sessions.World.after_admission Sessions.Predict.may_leave_queue Sessions.Predict.leave_queue
    Sessions.Predict.is_closing Sessions.Predict.run_engine Sessions.Predict.ensure_engine
    Sessions.Predict.equip Sessions.Predict.has_engine Sessions.Predict.release_slot
    Sessions.Predict.release_session Sessions.Predict.note_activity Sessions.Predict.respond
    Sessions.Predict.all_kept Sessions.Predict.is_kept Sessions.Predict.take_flight modify
second_admitted = refl

admit-increasing_example : 1 < 2
admit-increasing_example =
    admit-increasing 0 30 40 (request 1) (request 2) manager after_first after_second
      (waiting_call ∷ []) to_the_end first_admitted second_admitted
