-- ===== src/Phrases/Keys.antt =====
-- The key of a stored phrase has a reading for each of its characters, engine/src/phrase_override/
-- phrase_override_store.cpp.
use ime_fcitx.Prelude.{
  ℕ, ◌+◌, Bool, true, Option, none, some, List, [], ◌∷◌, length, All, eq_codes, eq_codes→eq,
  Bool-cases, Option-cases, inl, inr, ◌≡◌, ◌≢◌, arith,
}
use mathlib.Core.Path.{subst}
use ime_fcitx.Phrases.Lines.{PhraseOverrideRecord, join_key, reading_key, valid_entry}
use ime_fcitx.Phrases.Store.{
  Phrases, find, before, insert_new, update, assign, add, collect, replace,
}
use ime_fcitx.Phrases.Store.Saving.{restore-assign}
use ime_fcitx.Phrases.Reading.{
  load, load_lines, load_record, parse_line, is_skipped, FileAnswer, missing, unknown, unopened,
  broken, contents,
}
use ime_fcitx.Phrases.Dashes.{dashes, IsWellKeyed, dashes-join_key}

-- The key of as many readings as the phrase has characters.
keyed :
    (phrase key : List ℕ) (readings : List (List ℕ))
    → reading_key readings ≡ some key
    → valid_entry phrase (length readings) ≡ true
    → valid_entry phrase (dashes key + 1) ≡ true
unfolding reading_key
keyed phrase key readings k v =
    let joined : join_key readings ≡ some key = ground arith in
    let some_readings : length readings ≢ 0 = ground arith in
    rw (dashes-join_key readings joined some_readings) v

All-insert_new :
    (key phrase : List ℕ) (s : Phrases)
    → valid_entry phrase (dashes key + 1) ≡ true
    → All IsWellKeyed s
    → All IsWellKeyed (insert_new key phrase s)
unfolding insert_new
All-insert_new key phrase [] v h = (v, tt)
All-insert_new key phrase (x ∷ s) v (first, rest) = elim (Bool-cases (before key x.key)) [
  | inl b ↦ rw b (v, (first, rest))
  | inr b ↦ rw b (first, All-insert_new key phrase s v rest)
]

All-update :
    (key phrase : List ℕ) (s : Phrases)
    → valid_entry phrase (dashes key + 1) ≡ true
    → All IsWellKeyed s
    → All IsWellKeyed (update key phrase s)
unfolding update
All-update key phrase [] v h = h
All-update key phrase (x ∷ s) v (first, rest) = elim (Bool-cases (eq_codes key x.key)) [
  | inl b ↦ let same : key ≡ x.key = eq_codes→eq key x.key b in rw b (rw⁻¹ same v, rest)
  | inr b ↦ rw b (first, All-update key phrase s v rest)
]

assign-IsWellKeyed :
    (key phrase : List ℕ) (s : Phrases)
    → valid_entry phrase (dashes key + 1) ≡ true
    → All IsWellKeyed s
    → All IsWellKeyed (assign key phrase s)
unfolding assign
assign-IsWellKeyed key phrase s v h = elim (Option-cases (find key s)) [
  | inl e ↦ rw (assign, e) (All-insert_new key phrase s v h)
  | inr (old, e) ↦ rw (assign, e) (All-update key phrase s v h)
]

add-IsWellKeyed :
    (phrase : List ℕ) (readings : List (List ℕ)) (saved : Bool) (s : Phrases)
    → All IsWellKeyed s
    → All IsWellKeyed (add phrase readings saved s).0
unfolding add
add-IsWellKeyed phrase readings saved s h = elim (Option-cases (reading_key readings)) [
  | inl k ↦ rw (add, k) h
  | inr (key, k) ↦ elim (Bool-cases (valid_entry phrase (length readings))) [
    | inr v ↦ rw (add, k, v) h
    | inl v ↦ elim (Bool-cases saved) [
      | inl w ↦
          rw (add, k, v, w) (assign-IsWellKeyed key phrase s (keyed phrase key readings k v) h)
      | inr w ↦ rw (add, k, v, w, restore-assign key phrase s) h
    ]
  ]
]

collect_cases :
    (s : Phrases) (r : PhraseOverrideRecord) (records : List PhraseOverrideRecord) {t : Phrases}
    → collect s (r ∷ records) ≡ some t
    → (key : List ℕ) × (reading_key r.readings ≡ some key)
      × (valid_entry r.phrase (length r.readings) ≡ true)
      × (collect (assign key r.phrase s) records ≡ some t)
unfolding collect
collect_cases s r records e = elim (Option-cases (reading_key r.readings)) [
  | inl k ↦ absurd (ground arith)
  | inr (key, k) ↦ (key, k, ground arith, ground arith)
]

collect-IsWellKeyed :
    (s : Phrases) (records : List PhraseOverrideRecord) {t : Phrases}
    → All IsWellKeyed s
    → collect s records ≡ some t
    → All IsWellKeyed t
unfolding collect
collect-IsWellKeyed s [] h e = let same : s ≡ _ = cc in subst (All IsWellKeyed) same h
collect-IsWellKeyed s (r ∷ records) h e =
    let (key, k, v, later) = collect_cases s r records e in
    collect-IsWellKeyed (assign key r.phrase s) records
      (assign-IsWellKeyed key r.phrase s (keyed r.phrase key r.readings k v) h) later

load_record-IsWellKeyed :
    (s : Phrases) (o : Option PhraseOverrideRecord)
    → All IsWellKeyed s
    → All IsWellKeyed (load_record s o)
unfolding load_record
load_record-IsWellKeyed s none h = h
load_record-IsWellKeyed s (some r) h =
    elim (Bool-cases (valid_entry r.phrase (length r.readings))) [
      | inr v ↦ rw v h
      | inl v ↦ elim (Option-cases (reading_key r.readings)) [
        | inl k ↦ rw (v, k) h
        | inr (key, k) ↦
            rw (v, k) (assign-IsWellKeyed key r.phrase s (keyed r.phrase key r.readings k v) h)
      ]
    ]

load_lines-IsWellKeyed :
    (s : Phrases) (lines : List (List ℕ)) → All IsWellKeyed s → All IsWellKeyed (load_lines s lines)
unfolding load_lines
load_lines-IsWellKeyed s [] h = h
load_lines-IsWellKeyed s (line ∷ lines) h = elim (Bool-cases (is_skipped line)) [
  | inl k ↦ rw k (load_lines-IsWellKeyed s lines h)
  | inr k ↦ rw k (
      load_lines-IsWellKeyed (load_record s (parse_line line)) lines
        (load_record-IsWellKeyed s (parse_line line) h))
]

-- The operations of the store.
pub data Operation : Type 0 where
  loaded : FileAnswer → Operation
  added : List ℕ → List (List ℕ) → Bool → Operation
  replaced : List PhraseOverrideRecord → Bool → Operation

unfoldable pub operate : Operation → Phrases → Phrases
operate (loaded answer) s = (load answer s).0
operate (added phrase readings saved) s = (add phrase readings saved s).0
operate (replaced records saved) s = (replace records saved s).0

unfoldable pub operate_all : List Operation → Phrases → Phrases
operate_all [] s = s
operate_all (o ∷ os) s = operate_all os (operate o s)

operate-IsWellKeyed :
    (o : Operation) (s : Phrases) → All IsWellKeyed s → All IsWellKeyed (operate o s)
unfolding operate load replace
operate-IsWellKeyed (loaded missing) s h = tt
operate-IsWellKeyed (loaded unknown) s h = h
operate-IsWellKeyed (loaded unopened) s h = h
operate-IsWellKeyed (loaded broken) s h = h
operate-IsWellKeyed (loaded (contents lines)) s h = load_lines-IsWellKeyed [] lines tt
operate-IsWellKeyed (added phrase readings saved) s h = add-IsWellKeyed phrase readings saved s h
operate-IsWellKeyed (replaced records saved) s h = elim (Option-cases (collect [] records)) [
  | inl k ↦ rw (operate, replace, k) h
  | inr (t, k) ↦ elim (Bool-cases saved) [
    | inl w ↦ rw (operate, replace, k, w) (collect-IsWellKeyed [] records tt k)
    | inr w ↦ rw (operate, replace, k, w) h
  ]
]

-- Whatever is loaded, added and replaced, whether saving succeeds or fails: when every stored phrase has as
-- many characters as its key has readings, two to eight, and no blank, that stays so.
pub operate_all-IsWellKeyed :
    (os : List Operation) (s : Phrases) → All IsWellKeyed s → All IsWellKeyed (operate_all os s)
unfolding operate_all
operate_all-IsWellKeyed [] s h = h
operate_all-IsWellKeyed (o ∷ os) s h =
    operate_all-IsWellKeyed os (operate o s) (operate-IsWellKeyed o s h)
