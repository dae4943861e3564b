-- ===== src/Sessions/Exclusion/Flights.antt =====
-- Whether the session at a place is in flight, as a number, and how it changes.
use ime_fcitx.Prelude.{
  ℕ, zero, suc, ◌+◌, ◌≤◌, Bool, true, false, Option-cases, none, some, List, [], ◌∷◌, ◌++◌, ◌==◌,
  get_elem?, modify, if◌then◌else◌, get_elem?-modify_self, get_elem?-modify_ne, ==_iff, Bool-cases,
  inl, inr, ◌≡◌, ◌≢◌, refl, sym, ap, ◌∙◌, arith,
}
use ime_fcitx.Sessions.State.{Session}

abbrev pub one_if : Bool → ℕ
one_if true = 1
one_if false = 0

-- A number of the session at a place.
unfoldable pub look : (Session → ℕ) → List Session → ℕ → ℕ
look p store handle = elim (get_elem? store handle) [ none ↦ 0 | some session ↦ p session ]

abbrev pub in_flight : Session → ℕ
in_flight session = one_if session.prediction_in_flight

abbrev pub flight : List Session → ℕ → ℕ
flight = look in_flight

abbrev pub last_of : List Session → ℕ → ℕ
last_of = look (λ session. session.last_request_id)

module _ (p : Session → ℕ) where
  pub look-modify_keeps :
      (i : ℕ) (f : Session → Session) (store : List Session) (handle : ℕ)
      → ((s : Session) → p (f s) ≡ p s)
      → look p (modify i f store) handle ≡ look p store handle
  unfolding look modify
  look-modify_keeps i f [] handle h = refl
  look-modify_keeps zero f (s ∷ store) zero h = h s
  look-modify_keeps zero f (s ∷ store) (suc handle) h = refl
  look-modify_keeps (suc i) f (s ∷ store) zero h = refl
  look-modify_keeps (suc i) f (s ∷ store) (suc handle) h = look-modify_keeps i f store handle h

  pub look-modify_sets :
      (i : ℕ) (f : Session → Session) (store : List Session) (handle : ℕ) (s : Session) (n : ℕ)
      → get_elem? store i ≡ some s
      → p (f s) ≡ n
      → look p (modify i f store) handle ≡ (if i == handle then n else look p store handle)
  unfolding look
  look-modify_sets i f store handle s n e h = elim (Bool-cases (i == handle)) [
    | inl match ↦
        let same : i ≡ handle = (==_iff i handle).0 match in
        let there : get_elem? (modify i f store) handle ≡ some (f s) =
          ap (get_elem? (modify i f store)) (sym same) ∙ get_elem?-modify_self i f store e in
        rw (match, look, there, h) refl
    | inr miss ↦
        let other : i ≢ handle =
          λ same. (let match : (i == handle) ≡ true = (==_iff i handle).1 same in cc) in
        rw (miss, look, get_elem?-modify_ne i handle f store other) refl
  ]

  -- A session whose number is 0 is put behind the others.
  pub look-append :
      (store : List Session) (s : Session) (handle : ℕ)
      → p s ≡ 0
      → look p (store ++ (s ∷ [])) handle ≡ look p store handle
  unfolding look
  look-append [] s zero h = rw h refl
  look-append [] s (suc handle) h = refl
  look-append (t ∷ store) s zero h = refl
  look-append (t ∷ store) s (suc handle) h = look-append store s handle h

-- A place in flight has a session.
pub session_of_flight :
    (store : List Session) (handle : ℕ)
    → 1 ≤ flight store handle
    → (s : Session) × (get_elem? store handle ≡ some s)
unfolding look
session_of_flight store handle h = elim (Option-cases (get_elem? store handle)) [
  | inl e ↦ let no : flight store handle ≡ 0 = rw (look, e) refl in absurd (omega arith)
  | inr (s, e) ↦ (s, e)
]

one_if-bound : (b : Bool) → one_if b ≤ 1
one_if-bound true = omega arith
one_if-bound false = omega arith

pub flight-bound : (store : List Session) (handle : ℕ) → flight store handle ≤ 1
unfolding look
flight-bound store handle = elim (Option-cases (get_elem? store handle)) [
  | inl e ↦ rw (look, e) (omega arith)
  | inr (s, e) ↦ rw (look, e) (one_if-bound s.prediction_in_flight)
]

pub begin_flight :
    (i : ℕ) (f : Session → Session) (store : List Session) (s : Session)
    → get_elem? store i ≡ some s
    → s.prediction_in_flight ≡ false
    → (f s).prediction_in_flight ≡ true
    → (h : ℕ) → flight (modify i f store) h + 0 ≡ flight store h + one_if (i == h)
unfolding look
begin_flight i f store s e grounded up h =
    let after = look-modify_sets in_flight i f store h s 1 e (ap one_if up) in
    elim (Bool-cases (i == h)) [
      | inr miss ↦ rw (after, miss) refl
      | inl match ↦
          let same : i ≡ h = (==_iff i h).0 match in
          let here : get_elem? store h ≡ some s = ap (get_elem? store) (sym same) ∙ e in
          rw (after, match, look, here, grounded) refl
    ]

pub end_flight :
    (i : ℕ) (f : Session → Session) (store : List Session)
    → 1 ≤ flight store i
    → ((s : Session) → (f s).prediction_in_flight ≡ false)
    → (h : ℕ) → flight (modify i f store) h + one_if (i == h) ≡ flight store h + 0
end_flight i f store up down h =
    let (s, e) = session_of_flight store i up in
    let after = look-modify_sets in_flight i f store h s 0 e (ap one_if (down s)) in
    elim (Bool-cases (i == h)) [
      | inr miss ↦ rw (after, miss) refl
      | inl match ↦
          let same : i ≡ h = (==_iff i h).0 match in
          let most = flight-bound store i in
          let exactly : flight store h ≡ 1 =
            ap (flight store) (sym same) ∙ (let one : flight store i ≡ 1 = omega arith in one) in
          rw (after, match, exactly) refl
    ]
