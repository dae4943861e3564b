-- ===== src/Phrases/Store/Saving.antt =====
-- What `add` and `replace` of engine/src/phrase_override/phrase_override_store.cpp leave in the store,
-- whether saving succeeds or fails.
use ime_fcitx.Prelude.{
  ℕ, Bool, true, false, none, some, List, [], ◌∷◌, eq_codes, eq_codes→eq, eq_codes_refl, Bool-cases,
  Option-cases, inl, inr, ◌≡◌, ◌≢◌, refl, sym, ap, ◌∙◌, arith, if◌then◌else◌,
}
use ime_fcitx.Phrases.Lines.{reading_key}
use ime_fcitx.Phrases.Store.{
  Entry, Phrases, find, before, insert_new, update, assign, erase, restore, add, lookup,
}

find_here :
    (key : List ℕ) (x : Entry) (s : Phrases)
    → eq_codes key x.key ≡ true
    → find key (x ∷ s) ≡ some x.phrase
unfolding find
find_here key x s h = rw h refl

find_past :
    (key : List ℕ) (x : Entry) (s : Phrases)
    → eq_codes key x.key ≡ false
    → find key (x ∷ s) ≡ find key s
unfolding find
find_past key x s h = rw h refl

erase_past :
    (key : List ℕ) (x : Entry) (s : Phrases)
    → eq_codes key x.key ≡ false
    → erase key (x ∷ s) ≡ x ∷ erase key s
unfolding erase
erase_past key x s h = rw h refl

not_found : {phrase : List ℕ} → some phrase ≢ none
not_found e = cc

-- A key that is equal to one and different from another tells them apart.
eq_codes_apart :
    (key other third : List ℕ)
    → eq_codes other third ≡ true
    → eq_codes key third ≡ false
    → eq_codes other key ≡ false
eq_codes_apart key other third h k = elim (Bool-cases (eq_codes other key)) [
  | inl e ↦ let same : other ≡ key = eq_codes→eq other key e in absurd (cc)
  | inr e ↦ e
]

nothing_found : (key : List ℕ) {phrase : List ℕ} → find key [] ≢ some phrase
unfolding find
nothing_found key e = cc

erase-insert_new :
    (key phrase : List ℕ) (s : Phrases)
    → find key s ≡ none
    → erase key (insert_new key phrase s) ≡ s
unfolding insert_new erase
erase-insert_new key phrase [] e = rw (eq_codes_refl key) refl
erase-insert_new key phrase (x ∷ s) e = elim (Bool-cases (eq_codes key x.key)) [
  | inl h ↦ absurd (not_found (sym (find_here key x s h) ∙ e))
  | inr h ↦
      let ih = erase-insert_new key phrase s (sym (find_past key x s h) ∙ e) in
      elim (Bool-cases (before key x.key)) [
        | inl b ↦ rw (b, eq_codes_refl key) refl
        | inr b ↦ rw (b, h, ih) refl
      ]
]

update-update :
    (key phrase old : List ℕ) (s : Phrases)
    → find key s ≡ some old
    → update key old (update key phrase s) ≡ s
unfolding update
update-update key phrase old [] e = absurd (nothing_found key e)
update-update key phrase old (x ∷ s) e = elim (Bool-cases (eq_codes key x.key)) [
  | inl h ↦
      let found : some x.phrase ≡ some old = sym (find_here key x s h) ∙ e in
      let same : old ≡ x.phrase = cc in rw (h, h, same) refl
  | inr h ↦ rw (h, h, update-update key phrase old s (sym (find_past key x s h) ∙ e)) refl
]

find-update :
    (key other phrase : List ℕ) (s : Phrases) {old : List ℕ}
    → find key s ≡ some old
    → find other (update key phrase s) ≡ (if eq_codes other key then some phrase else find other s)
unfolding find update
find-update key other phrase [] e = absurd (nothing_found key e)
find-update key other phrase (x ∷ s) e = elim (Bool-cases (eq_codes key x.key)) [
  | inl h ↦
      let same : eq_codes other key ≡ eq_codes other x.key =
        ap (eq_codes other) (eq_codes→eq key x.key h) in
      elim (Bool-cases (eq_codes other x.key)) [
        | inl k ↦ rw (h, same, k) refl
        | inr k ↦ rw (h, same, k) refl
      ]
  | inr h ↦ elim (Bool-cases (eq_codes other x.key)) [
    | inl k ↦ rw (h, eq_codes_apart key other x.key k h, k) refl
    | inr k ↦ rw (h, k) (find-update key other phrase s (sym (find_past key x s h) ∙ e))
  ]
]

find-insert_new :
    (key other phrase : List ℕ) (s : Phrases)
    → find key s ≡ none
    → find other (insert_new key phrase s)
      ≡ (if eq_codes other key then some phrase else find other s)
unfolding find insert_new
find-insert_new key other phrase [] e = refl
find-insert_new key other phrase (x ∷ s) e = elim (Bool-cases (eq_codes key x.key)) [
  | inl h ↦ absurd (not_found (sym (find_here key x s h) ∙ e))
  | inr h ↦ elim (Bool-cases (before key x.key)) [
    | inl b ↦ rw b refl
    | inr b ↦ elim (Bool-cases (eq_codes other x.key)) [
      | inl k ↦ rw (b, k, eq_codes_apart key other x.key k h) refl
      | inr k ↦ rw (b, k) (find-insert_new key other phrase s (sym (find_past key x s h) ∙ e))
    ]
  ]
]

pub find-assign :
    (key other phrase : List ℕ) (s : Phrases)
    → find other (assign key phrase s) ≡ (if eq_codes other key then some phrase else find other s)
unfolding assign
find-assign key other phrase s = elim (Option-cases (find key s)) [
  | inl e ↦ rw (assign, e) (find-insert_new key other phrase s e)
  | inr (old, e) ↦ rw (assign, e) (find-update key other phrase s e)
]

assign_found :
    (key phrase old : List ℕ) (s : Phrases)
    → find key s ≡ some old
    → assign key phrase s ≡ update key phrase s
unfolding assign
assign_found key phrase old s e = rw (assign, e) refl

-- A failed save leaves the phrases as they were.
pub restore-assign :
    (key phrase : List ℕ) (s : Phrases) → restore key (find key s) (assign key phrase s) ≡ s
unfolding restore assign
restore-assign key phrase s = elim (Option-cases (find key s)) [
  | inl e ↦ rw (assign, e) (erase-insert_new key phrase s e)
  | inr (old, e) ↦
      let there : find key (update key phrase s) ≡ some phrase =
        find-update key key phrase s e ∙ rw (eq_codes_refl key) refl in
      ap (λ o. restore key o (assign key phrase s)) e
      ∙ ap (assign key old) (assign_found key phrase old s e)
      ∙ assign_found key old phrase (update key phrase s) there
      ∙ update-update key phrase old s e
]

-- When `add` fails, by its arguments or by saving, the store is as it was.
pub add_fails :
    (phrase : List ℕ) (readings : List (List ℕ)) (saved : Bool) (s : Phrases)
    → (add phrase readings saved s).1 ≡ false
    → (add phrase readings saved s).0 ≡ s
unfolding add
add_fails phrase readings saved s e = elim (Option-cases (reading_key readings)) [
  | inl k ↦ rw (add, k) refl
  | inr (key, k) ↦ let back = restore-assign key phrase s in ground arith
]

-- When `add` succeeds, looking up readings finds the new phrase if they have the key that was added,
-- and what was found before otherwise.
pub lookup-add :
    (phrase : List ℕ) (readings other : List (List ℕ)) (saved : Bool) (s : Phrases)
    (key other_key : List ℕ)
    → reading_key readings ≡ some key
    → reading_key other ≡ some other_key
    → (add phrase readings saved s).1 ≡ true
    → lookup other (add phrase readings saved s).0
      ≡ (if eq_codes other_key key then some phrase else lookup other s)
unfolding add lookup
lookup-add phrase readings other saved s key other_key k o e =
    let found = find-assign key other_key phrase s in ground arith
