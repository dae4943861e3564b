-- ===== src/Sessions/Eviction.antt =====
-- `evict_idle_locked` of ime-unix-service/src/session/session_manager.cpp takes the oldest idle sessions out
-- until there are few enough.
use ime_fcitx.Prelude.{
  ℕ, zero, suc, ◌+◌, ◌≤◌, ◌<◌, Bool, true, false, ◌&&◌, ◌||◌, none, some, List, [], ◌∷◌, ◌==◌, ltb,
  ltb→lt, length, contains, All, Bool-cases, ==_iff, inl, inr, ◌⊎◌, ◌≡◌, refl, ap, ◌∙◌, arith,
}
use ime_fcitx.Sessions.State.{Session, Manager}
use ime_fcitx.Sessions.Table.{
  is_idle, idle_count, used_at, oldest_idle, erase_handle, evict_loop, evict_idle_locked,
}

contains_here : (o h : ℕ) (c : Bool) → o ≡ h → (o == h || c) ≡ true
contains_here o h c same = ground arith

contains_later : (o h : ℕ) (c : Bool) → c ≡ true → (o == h || c) ≡ true
contains_later o h c there = ground arith

contains_tail : (o h : ℕ) (c : Bool) → (h == o) ≡ false → (o == h || c) ≡ true → c ≡ true
contains_tail o h c miss there = ground arith

older_test : (i : Bool) (x y : ℕ) → (i && ltb x y) ≡ true → (i ≡ true) × (x < y)
older_test true x y h = (refl, ltb→lt x y h)
older_test false x y h = absurd (cc)

newer_test : (i : Bool) (x y : ℕ) → (i && ltb x y) ≡ false → i ≡ true → y ≤ x
newer_test true x y h k = ground arith
newer_test false x y h k = absurd (cc)

module _ (store : List Session) where
  -- No idle session of these was used before that one.
  abbrev Oldest : ℕ → List ℕ → Type 0
  Oldest o = All (λ h. (is_idle store h ≡ true → used_at store o ≤ used_at store h))

  -- The loop with an oldest session so far.
  choice_so_far :
      (sessions : List ℕ) (a : ℕ)
      → is_idle store a ≡ true
      → (o : ℕ) × (oldest_idle store sessions (some a) ≡ some o)
        × (is_idle store o ≡ true)
        × ((o ≡ a) ⊎ (contains sessions o ≡ true))
        × (used_at store o ≤ used_at store a)
        × Oldest o sessions
  unfolding oldest_idle contains
  choice_so_far [] a h = (a, refl, h, inl refl, omega arith, tt)
  choice_so_far (handle ∷ sessions) a h =
      elim (Bool-cases (is_idle store handle && ltb (used_at store handle) (used_at store a))) [
        | inl older ↦
            let (idle, before) =
              older_test (is_idle store handle) (used_at store handle) (used_at store a) older in
            let (o, e, io, place, least, all) = choice_so_far sessions handle idle in
            (
              o,
              rw older e,
              io,
              inr (elim place [
                | inl same ↦ contains_here o handle (contains sessions o) same
                | inr there ↦ contains_later o handle (contains sessions o) there
              ]),
              omega arith,
              ((λ i. least), all),
            )
        | inr newer ↦
            let (o, e, io, place, least, all) = choice_so_far sessions a h in
            (
              o,
              rw newer e,
              io,
              elim place [
                | inl same ↦ inl same
                | inr there ↦ inr (contains_later o handle (contains sessions o) there)
              ],
              least,
              (
                (λ i.
                    (let later =
                        newer_test (is_idle store handle) (used_at store handle) (used_at store a)
                          newer i in
                      omega arith)),
                all,
              ),
            )
      ]

  -- Where there is an idle session, the one that is taken out first is idle, is in the table, and was used no later
  -- than any other idle session.
  choice_of_idle :
      (sessions : List ℕ)
      → 1 ≤ idle_count store sessions
      → (o : ℕ) × (oldest_idle store sessions none ≡ some o)
        × (is_idle store o ≡ true)
        × (contains sessions o ≡ true)
        × Oldest o sessions
  unfolding oldest_idle contains idle_count
  choice_of_idle [] h = absurd (omega arith)
  choice_of_idle (handle ∷ sessions) h = elim (Bool-cases (is_idle store handle)) [
    | inl idle ↦
        let (o, e, io, place, least, all) = choice_so_far sessions handle idle in
        (
          o,
          rw idle e,
          io,
          elim place [
            | inl same ↦ contains_here o handle (contains sessions o) same
            | inr there ↦ contains_later o handle (contains sessions o) there
          ],
          ((λ i. least), all),
        )
    | inr busy ↦
        let fewer : 1 ≤ idle_count store sessions = rw busy at h in
        let (o, e, io, there, all) = choice_of_idle sessions fewer in
        (
          o,
          rw busy e,
          io,
          contains_later o handle (contains sessions o) there,
          ((λ i. absurd (cc)), all),
        )
  ]

  -- One idle session less.
  idle_count-erase :
      (o : ℕ) (sessions : List ℕ)
      → is_idle store o ≡ true
      → contains sessions o ≡ true
      → (idle_count store (erase_handle o sessions) + 1 ≡ idle_count store sessions)
        × (length (erase_handle o sessions) + 1 ≡ length sessions)
  unfolding idle_count erase_handle contains
  idle_count-erase o [] idle there = absurd (cc)
  idle_count-erase o (h ∷ sessions) idle there = elim (Bool-cases (h == o)) [
    | inl match ↦
        let same : h ≡ o = (==_iff h o).0 match in
        let idle_here : is_idle store h ≡ true = ap (is_idle store) same ∙ idle in
        rw (match, idle_here) (omega arith, omega arith)
    | inr miss ↦
        let (fewer, shorter) =
          idle_count-erase o sessions idle (contains_tail o h (contains sessions o) miss there) in
        elim (Bool-cases (is_idle store h)) [
          | inl idle_here ↦ rw (miss, idle_count, idle_here) (omega arith, omega arith)
          | inr busy ↦ rw (miss, idle_count, busy) (omega arith, omega arith)
        ]
  ]

  idle_count-bound : (sessions : List ℕ) → idle_count store sessions ≤ length sessions
  unfolding idle_count
  idle_count-bound [] = omega arith
  idle_count-bound (h ∷ sessions) =
      let later = idle_count-bound sessions in
      elim (Bool-cases (is_idle store h)) [
        | inl idle ↦ rw idle (omega arith)
        | inr busy ↦ rw busy (omega arith)
      ]

  evict_loop-idle_count :
      (fuel target : ℕ) (sessions : List ℕ)
      → length sessions ≤ fuel
      → idle_count store (evict_loop fuel store target sessions) ≤ target
  unfolding evict_loop
  evict_loop-idle_count zero target sessions h = let most = idle_count-bound sessions in omega arith
  evict_loop-idle_count (suc fuel) target sessions h =
      elim (Bool-cases (ltb target (idle_count store sessions))) [
        | inr few ↦ rw few (ground arith)
        | inl more ↦
            let many = ltb→lt target (idle_count store sessions) more in
            let (o, e, io, there, all) = choice_of_idle sessions (omega arith) in
            let (fewer, shorter) = idle_count-erase o sessions io there in
            rw (more, e) (evict_loop-idle_count fuel target (erase_handle o sessions) (omega arith))
      ]

-- However many sessions there are, at most so many idle ones are left in the table.
pub evict_idle_locked-idle_count :
    (target : ℕ) (m : Manager)
    → let after : Manager = evict_idle_locked target m in
      idle_count after.store after.sessions ≤ target
unfolding evict_idle_locked
evict_idle_locked-idle_count target m =
    evict_loop-idle_count m.store (length m.sessions) target m.sessions (omega arith)
