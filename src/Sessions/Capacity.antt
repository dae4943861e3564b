-- ===== src/Sessions/Capacity.antt =====
-- The table of ime-unix-service/src/session/session_manager.cpp holds no more sessions than allowed, and only
-- sessions that were made.
use ime_fcitx.Prelude.{
  ℕ, zero, suc, ◌+◌, ◌≤◌, ◌<◌, Option, Option-cases, none, List, [], ◌∷◌, ◌++◌, ◌==◌, leb, ltb,
  length, length-append, get_elem?, All, Bool-cases, inl, inr, ◌⊎◌, arith,
}
use ime_fcitx.Wire.Messages.{Error}
use ime_fcitx.Sessions.State.{Session, Manager}
use ime_fcitx.Sessions.Table.{
  expired, keep_fresh, reap_locked, oldest_idle, erase_handle, evict_loop, evict_idle_locked,
  make_room, draw_id, add_session, open_session, open_in_room, new_session, reap, idle_count,
}

-- What both loops that take sessions out keep: a property of all of them, and a bound on their number.
module _ (P : ℕ → Type 0) where
  keep_fresh-All :
      (store : List Session) (now idle_timeout : ℕ) (sessions : List ℕ)
      → All P sessions
      → All P (keep_fresh store now idle_timeout sessions)
        × (length (keep_fresh store now idle_timeout sessions) ≤ length sessions)
  unfolding keep_fresh
  keep_fresh-All store now idle_timeout [] h = (tt, omega arith)
  keep_fresh-All store now idle_timeout (handle ∷ sessions) (here, there) =
      let (all, less) = keep_fresh-All store now idle_timeout sessions there in
      elim (Option-cases (get_elem? store handle)) [
        | inl e ↦ rw (keep_fresh, e) ((here, all), omega arith)
        | inr (s, e) ↦ elim (Bool-cases (expired now idle_timeout s)) [
          | inl stale ↦ rw (keep_fresh, e, stale) (all, omega arith)
          | inr fresh ↦ rw (keep_fresh, e, fresh) ((here, all), omega arith)
        ]
      ]

  pub erase_handle-All :
      (handle : ℕ) (sessions : List ℕ)
      → All P sessions
      → All P (erase_handle handle sessions)
        × (length (erase_handle handle sessions) ≤ length sessions)
  unfolding erase_handle
  erase_handle-All handle [] h = (tt, omega arith)
  erase_handle-All handle (s ∷ sessions) (here, there) =
      let (all, less) = erase_handle-All handle sessions there in
      elim (Bool-cases (s == handle)) [
        | inl match ↦ rw match (there, omega arith)
        | inr miss ↦ rw miss ((here, all), omega arith)
      ]

  evict_loop-All :
      (fuel : ℕ) (store : List Session) (target : ℕ) (sessions : List ℕ)
      → All P sessions
      → All P (evict_loop fuel store target sessions)
        × (length (evict_loop fuel store target sessions) ≤ length sessions)
  unfolding evict_loop
  evict_loop-All zero store target sessions h = (h, omega arith)
  evict_loop-All (suc fuel) store target sessions h =
      elim (Bool-cases (ltb target (idle_count store sessions))) [
        | inr few ↦ rw few (h, omega arith)
        | inl many ↦ elim (Option-cases (oldest_idle store sessions none)) [
          | inl e ↦ rw (many, e) (h, omega arith)
          | inr (oldest, e) ↦
              let (all, less) = erase_handle-All oldest sessions h in
              let (all', less') =
                evict_loop-All fuel store target (erase_handle oldest sessions) all in
              rw (many, e) (all', omega arith)
        ]
      ]

  pub make_room-All :
      (now : ℕ) (m : Manager)
      → All P m.sessions
      → let roomy : Manager = make_room now m in
        All P roomy.sessions × (length roomy.sessions ≤ length m.sessions)
  unfolding make_room reap_locked evict_idle_locked
  make_room-All now m h =
      let (all, less) = keep_fresh-All m.store now m.limits.idle_timeout m.sessions h in
      let (all', less') =
        evict_loop-All _ m.store _ (keep_fresh m.store now m.limits.idle_timeout m.sessions) all in
      (all', omega arith)

-- The table has no more sessions than allowed, and each of them is in the store.
abbrev pub IsTable : Manager → Type 0
IsTable m =
    (length m.sessions ≤ m.limits.max_sessions) × All (λ handle. handle < length m.store) m.sessions

pub make_room-IsTable : (now : ℕ) (m : Manager) → IsTable m → IsTable (make_room now m)
unfolding make_room reap_locked evict_idle_locked
make_room-IsTable now m (bound, all) =
    let (all', less) = make_room-All (λ handle. handle < length m.store) now m all in
    (omega arith, all')

pub reap-IsTable : (now : ℕ) (m : Manager) → IsTable m → IsTable (reap now m)
unfolding reap reap_locked evict_idle_locked
reap-IsTable now m (bound, all) =
    let (all', less) =
      keep_fresh-All (λ handle. handle < length m.store) m.store now m.limits.idle_timeout
        m.sessions all in
    let fresh = keep_fresh m.store now m.limits.idle_timeout m.sessions in
    let (all'', less') =
      evict_loop-All (λ handle. handle < length m.store) (length fresh) m.store
        m.limits.max_idle_sessions fresh all' in
    (omega arith, all'')

All-append : (P : ℕ → Type 0) (xs : List ℕ) (x : ℕ) → All P xs → P x → All P (xs ++ (x ∷ []))
All-append P [] x h p = (p, tt)
All-append P (y ∷ xs) x (here, there) p = (here, All-append P xs x there p)

All-weaken : (n : ℕ) (xs : List ℕ) → All (λ x. x < n) xs → All (λ x. x < n + 1) xs
All-weaken n [] h = tt
All-weaken n (x ∷ xs) (here, there) = (omega arith, All-weaken n xs there)

open_in_room-IsTable :
    (owner_uid now : ℕ) (devices : List (List ℕ)) (m : Manager)
    → IsTable m
    → let result : Manager × Option (List ℕ ⊎ Error) = open_in_room owner_uid now devices m in
      IsTable result.0
unfolding open_in_room add_session
open_in_room-IsTable owner_uid now devices m (bound, all) =
    elim (Bool-cases (leb m.limits.max_sessions (length m.sessions))) [
      | inl full ↦ rw (open_in_room, full) (bound, all)
      | inr room ↦ elim (Option-cases (draw_id m devices)) [
        | inl e ↦ rw (open_in_room, room, e) (bound, all)
        | inr (id, e) ↦
            let longer = length-append m.store (new_session id owner_uid now ∷ []) in
            let more = length-append m.sessions (length m.store ∷ []) in
            let below : length m.sessions < m.limits.max_sessions = ground arith in
            rw (open_in_room, room, e)
              (
                rw more (omega arith),
                rw longer (
                    All-append _ m.sessions (length m.store)
                      (All-weaken (length m.store) m.sessions all) (omega arith)),
              )
      ]
    ]

-- Opening a session keeps the table within its bound and its places in the store, whether it succeeds or not.
pub open_session-IsTable :
    (owner_uid now : ℕ) (devices : List (List ℕ)) (m : Manager)
    → IsTable m
    → let result : Manager × Option (List ℕ ⊎ Error) = open_session owner_uid now devices m in
      IsTable result.0
unfolding open_session
open_session-IsTable owner_uid now devices m (bound, all) =
    let opened =
      open_in_room-IsTable owner_uid now devices (make_room now m)
        (make_room-IsTable now m (bound, all)) in
    elim (Bool-cases m.shutting_down) [
      | inl down ↦ rw (open_session, down) (bound, all)
      | inr up ↦ simp (open_session, up) opened
    ]
