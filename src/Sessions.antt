-- ===== src/Sessions.antt =====
-- The sessions of the inference service, ime-unix-service/src/session.
pub mod State
pub mod Table
pub mod Predict
pub mod Close
pub mod World
pub mod Exclusion
pub mod Eviction
pub mod Requests
pub mod Responses
pub mod Capacity
pub mod Opening
pub mod Bounded
