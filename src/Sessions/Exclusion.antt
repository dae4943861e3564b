-- ===== src/Sessions/Exclusion.antt =====
-- At most one prediction for each session and at most as many as allowed at a time, whatever the order of
-- the stretches, ime-unix-service/src/session/session_manager.cpp.
pub mod Counting
pub mod Flights
pub mod Advancing
pub mod Keeping
pub mod Schedules
