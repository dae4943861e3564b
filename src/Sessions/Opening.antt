-- ===== src/Sessions/Opening.antt =====
-- A session that was opened is found by its user and by no one else,
-- ime-unix-service/src/session/session_manager.cpp.
use ime_fcitx.Prelude.{
  ℕ, zero, suc, ◌<◌, true, false, Option, Option-cases, none, some, List, [], ◌∷◌, ◌++◌, ◌==◌, leb,
  length, get_elem?, eq_codes, eq_codes_refl, All, if◌then◌else◌, Bool-cases, inl, inr, ◌⊎◌, ◌≡◌,
  refl, sym, ap, ◌∙◌, arith,
}
use ime_fcitx.Wire.Messages.{Error}
use ime_fcitx.Sessions.State.{Session, Manager, owns, random_bytes}
use ime_fcitx.Sessions.Table.{
  no_id, reap_locked, evict_idle_locked, find_in, find_session_locked, is_named, draw_id,
  new_session, add_session, open_in_room, make_room, open_session, find_owned,
}
use ime_fcitx.Prelude.{codes}
use ime_fcitx.Wire.Messages.{unauthorized, resource_exhausted, service_shutting_down}
use ime_fcitx.Sessions.State.{error}
use ime_fcitx.Sessions.Capacity.{IsTable, make_room-IsTable}

-- The places of the store before the new session are as they were.
get_elem?-append_old :
    (store : List Session) (s : Session) (handle : ℕ)
    → handle < length store
    → get_elem? (store ++ (s ∷ [])) handle ≡ get_elem? store handle
get_elem?-append_old [] s handle h = absurd (omega arith)
get_elem?-append_old (t ∷ store) s zero h = refl
get_elem?-append_old (t ∷ store) s (suc handle) h =
    get_elem?-append_old store s handle (omega arith)

get_elem?-append_new :
    (store : List Session) (s : Session) → get_elem? (store ++ (s ∷ [])) (length store) ≡ some s
get_elem?-append_new [] s = refl
get_elem?-append_new (t ∷ store) s = get_elem?-append_new store s

-- A name that no session of the table has is found at the new one.
find_in-append :
    (store : List Session) (s : Session) (sessions : List ℕ)
    → All (λ handle. handle < length store) sessions
    → find_in store sessions s.id ≡ none
    → find_in (store ++ (s ∷ [])) (sessions ++ (length store ∷ [])) s.id ≡ some (length store)
unfolding find_in
find_in-append store s [] h e = rw (find_in, get_elem?-append_new store s, eq_codes_refl s.id) refl
find_in-append store s (handle ∷ sessions) (here, there) e =
    elim (Option-cases (get_elem? store handle)) [
      | inl f ↦
          rw (find_in, get_elem?-append_old store s handle here, f)
            (find_in-append store s sessions there
              (let rest : find_in store sessions s.id ≡ none = rw (find_in, f) at e in rest))
      | inr (t, f) ↦ elim (Bool-cases (eq_codes t.id s.id)) [
        | inl match ↦
            (let refused : some handle ≡ none = rw (find_in, f, match) at e in absurd (cc))
        | inr miss ↦
            rw (find_in, get_elem?-append_old store s handle here, f, miss)
              (find_in-append store s sessions there (
                let rest : find_in store sessions s.id ≡ none = rw (find_in, f, miss) at e in rest))
      ]
    ]

not_named : (id : List ℕ) (m : Manager) → is_named id m ≡ false → find_session_locked id m ≡ none
unfolding is_named
not_named id m free = elim (Option-cases (find_session_locked id m)) [
  | inl e ↦ e
  | inr (handle, e) ↦ (let refused : true ≡ false = rw (is_named, e) at free in absurd (cc))
]

draw_id-new :
    (m : Manager) (devices : List (List ℕ)) (id : List ℕ)
    → draw_id m devices ≡ some id
    → find_session_locked id m ≡ none
unfolding draw_id is_named
draw_id-new m [] id e = absurd (cc)
draw_id-new m (device ∷ devices) id e = elim (Bool-cases (is_named (random_bytes device) m)) [
  | inl used ↦
      draw_id-new m devices id
        (let later : draw_id m devices ≡ some id = rw (draw_id, used) at e in later)
  | inr free ↦
      let drawn : some (random_bytes device) ≡ some id = rw (draw_id, free) at e in
      let same : random_bytes device ≡ id = cc in
      rw (← same) (not_named (random_bytes device) m free)
]

abbrev Opened : Type 0
Opened = Manager × Option (List ℕ ⊎ Error)

-- A session that was added under a new name is found, with its owner.
find_owned-add_session :
    (id : List ℕ) (owner_uid now user : ℕ) (request_id revision : ℕ) (m : Manager)
    → IsTable m
    → find_session_locked id m ≡ none
    → find_owned user id request_id revision (add_session id owner_uid now m) ≡ (
        if owner_uid == user
        then inl (length m.store, new_session id owner_uid now)
        else inr
            (error unauthorized id request_id revision (codes "session belongs to another user")))
unfolding find_owned add_session owns find_session_locked
find_owned-add_session id owner_uid now user request_id revision m (bound, all) e =
    rw
      (
        find_owned,
        find_in-append m.store (new_session id owner_uid now) m.sessions all e,
        get_elem?-append_new m.store (new_session id owner_uid now),
      )
      refl

open_in_room_inv :
    (owner_uid now : ℕ) (devices : List (List ℕ)) (m m' : Manager) (id : List ℕ)
    → open_in_room owner_uid now devices m ≡ (m', some (inl id))
    → (m' ≡ add_session id owner_uid now m) × (find_session_locked id m ≡ none)
unfolding open_in_room
open_in_room_inv owner_uid now devices m m' id e =
    elim (Bool-cases (leb m.limits.max_sessions (length m.sessions))) [
      | inl full ↦
          let answer : Option (List ℕ ⊎ Error) =
            some
              (inr (error resource_exhausted no_id 0 0 (codes "maximum session count reached"))) in
          let same : answer ≡ some (inl id) =
            sym (rw (open_in_room, full) refl) ∙ ap (λ (r : Opened). r.1) e in
          absurd (cc)
      | inr room ↦ elim (Option-cases (draw_id m devices)) [
        | inl f ↦
            let same : none ≡ some (inl id) =
              sym (rw (open_in_room, room, f) refl) ∙ ap (λ (r : Opened). r.1) e in
            absurd (cc)
        | inr (drawn, f) ↦
            let result : Opened = (add_session drawn owner_uid now m, some (inl drawn)) in
            let same : result ≡ (m', some (inl id)) = sym (rw (open_in_room, room, f) refl) ∙ e in
            let answer : some (inl drawn) ≡ some (inl id) = ap (λ (r : Opened). r.1) same in
            let name : drawn ≡ id = cc in
            (
              sym (ap (λ (r : Opened). r.0) same) ∙ ap (λ id. add_session id owner_uid now m) name,
              draw_id-new m devices id (f ∙ ap some name),
            )
      ]
    ]

open_session_inv :
    (owner_uid now : ℕ) (devices : List (List ℕ)) (m m' : Manager) (id : List ℕ)
    → open_session owner_uid now devices m ≡ (m', some (inl id))
    → (m.shutting_down ≡ false)
      × (open_in_room owner_uid now devices (make_room now m) ≡ (m', some (inl id)))
unfolding open_session
open_session_inv owner_uid now devices m m' id e = elim (Bool-cases m.shutting_down) [
  | inl down ↦
      let answer : Option (List ℕ ⊎ Error) =
        some (inr (error service_shutting_down no_id 0 0 (codes "service is shutting down"))) in
      let same : answer ≡ some (inl id) =
        sym (rw (open_session, down) refl) ∙ ap (λ (r : Opened). r.1) e in
      absurd (cc)
  | inr up ↦ (up, sym (simp (open_session, up) refl) ∙ e)
]

-- The session of a name that `open_session` returned is found by the user who opened it, new and behind the
-- sessions that were made before; to every other user it is forbidden.
pub find_owned-open_session :
    (owner_uid now user : ℕ) (request_id revision : ℕ) (devices : List (List ℕ)) (m m' : Manager)
    (id : List ℕ)
    → IsTable m
    → open_session owner_uid now devices m ≡ (m', some (inl id))
    → find_owned user id request_id revision m' ≡ (
        if owner_uid == user
        then inl (length m.store, new_session id owner_uid now)
        else inr
            (error unauthorized id request_id revision (codes "session belongs to another user")))
unfolding make_room reap_locked evict_idle_locked
find_owned-open_session owner_uid now user request_id revision devices m m' id h e =
    let (up, opened) = open_session_inv owner_uid now devices m m' id e in
    let (made, unnamed) = open_in_room_inv owner_uid now devices (make_room now m) m' id opened in
    let found =
      find_owned-add_session id owner_uid now user request_id revision (make_room now m)
        (make_room-IsTable now m h) unnamed in
    rw made found
