-- ===== src/Phrases/Refinement.antt =====
-- The store of phrase overrides keeps its promise, engine/src/phrase_override/phrase_override_store.cpp.
use ime_fcitx.Prelude.{
  ℕ, Bool, true, false, none, some, List, [], ◌∷◌, map, length, Bool-cases, Option-cases, inl, inr,
  ◌≡◌, refl, ap, ◌∙◌, arith, if◌then◌else◌,
}
use ime_fcitx.Phrases.Lines.{PhraseOverrideRecord, reading_key, valid_entry}
use ime_fcitx.Phrases.Store.{Phrases, find, assign, add, collect, replace}
use ime_fcitx.Phrases.Store.Saving.{find-assign, restore-assign}
use ime_fcitx.Phrases.Reading.{
  load, load_lines, load_record, parse_line, is_skipped, missing, unknown, unopened, broken,
  contents,
}
use ime_fcitx.Phrases.Keys.{Operation, loaded, added, replaced, operate, operate_all}
use ime_fcitx.Phrases.Promise.{
  is_accepted, names_key, latest, all_accepted, records_of, promise, promise_all, promised_success,
}

find_accepted :
    (other key : List ℕ) (r : PhraseOverrideRecord) (s : Phrases)
    → reading_key r.readings ≡ some key
    → valid_entry r.phrase (length r.readings) ≡ true
    → find other (assign key r.phrase s)
      ≡ (if names_key other r then some r.phrase else find other s)
unfolding names_key
find_accepted other key r s k v = find-assign key other r.phrase s ∙ rw (names_key, k, v) refl

find_nothing : (key : List ℕ) → find key [] ≡ none
unfolding find
find_nothing key = refl

load_record-find :
    (key : List ℕ) (r : PhraseOverrideRecord) (s : Phrases)
    → find key (load_record s (some r)) ≡ (if names_key key r then some r.phrase else find key s)
unfolding load_record names_key
load_record-find key r s = elim (Bool-cases (valid_entry r.phrase (length r.readings))) [
  | inr v ↦ rw (names_key, v) refl
  | inl v ↦ elim (Option-cases (reading_key r.readings)) [
    | inl k ↦ rw (names_key, v, k) refl
    | inr (own, k) ↦ rw (names_key, v, k) (find-assign own key r.phrase s)
  ]
]

load_lines-latest :
    (key : List ℕ) (s : Phrases) (lines : List (List ℕ))
    → find key (load_lines s lines) ≡ latest key (records_of lines) (find key s)
unfolding load_lines latest records_of load_record
load_lines-latest key s [] = refl
load_lines-latest key s (line ∷ lines) = elim (Bool-cases (is_skipped line)) [
  | inl skipped ↦ rw skipped (load_lines-latest key s lines)
  | inr read ↦ elim (Option-cases (parse_line line)) [
    | inl e ↦ rw (read, e) (load_lines-latest key s lines)
    | inr (r, e) ↦
        rw (read, e)
          (load_lines-latest key (load_record s (some r)) lines
            ∙ ap (latest key (records_of lines)) (load_record-find key r s))
  ]
]

collect_one :
    (key : List ℕ) (r : PhraseOverrideRecord) (s : Phrases) (records : List PhraseOverrideRecord)
    → reading_key r.readings ≡ some key
    → valid_entry r.phrase (length r.readings) ≡ true
    → collect s (r ∷ records) ≡ collect (assign key r.phrase s) records
unfolding collect
collect_one key r s records k v = rw (collect, k, v) refl

collect-latest :
    (key : List ℕ) (s : Phrases) (records : List PhraseOverrideRecord)
    → all_accepted records ≡ true
    → (t : Phrases) × (collect s records ≡ some t) × (find key t ≡ latest key records (find key s))
unfolding collect latest all_accepted is_accepted
collect-latest key s [] h = (s, refl, refl)
collect-latest key s (r ∷ records) h =
    elim (Bool-cases (valid_entry r.phrase (length r.readings))) [
      | inr v ↦ absurd (ground arith)
      | inl v ↦ elim (Option-cases (reading_key r.readings)) [
        | inl k ↦ absurd (ground arith)
        | inr (own, k) ↦
            let (t, e, shows) = collect-latest key (assign own r.phrase s) records (ground arith) in
            (
              t,
              collect_one own r s records k v ∙ e,
              shows ∙ ap (latest key records) (find_accepted key own r s k v),
            )
      ]
    ]

collect_refuses :
    (s : Phrases) (records : List PhraseOverrideRecord)
    → all_accepted records ≡ false
    → collect s records ≡ none
unfolding collect all_accepted is_accepted
collect_refuses s [] h = absurd (ground arith)
collect_refuses s (r ∷ records) h = elim (Option-cases (reading_key r.readings)) [
  | inl k ↦ rw (collect, k) refl
  | inr (own, k) ↦ elim (Bool-cases (valid_entry r.phrase (length r.readings))) [
    | inr v ↦ rw (collect, k, v) refl
    | inl v ↦
        collect_one own r s records k v
        ∙ collect_refuses (assign own r.phrase s) records (ground arith)
  ]
]

add_keeps :
    (key : List ℕ) (phrase : List ℕ) (readings : List (List ℕ)) (saved : Bool) (s : Phrases)
    → (find key (add phrase readings saved s).0
        ≡ promise key (added phrase readings saved) (find key s))
      × ((add phrase readings saved s).1 ≡ promised_success (added phrase readings saved))
unfolding add promise promised_success latest names_key is_accepted
add_keeps key phrase readings saved s = elim (Option-cases (reading_key readings)) [
  | inl k ↦ elim (Bool-cases (valid_entry phrase (length readings))) [
    | inl v ↦ rw (add, k, v) (ground arith, ground arith)
    | inr v ↦ rw (add, k, v) (ground arith, ground arith)
  ]
  | inr (own, k) ↦ elim (Bool-cases (valid_entry phrase (length readings))) [
    | inr v ↦ rw (add, k, v) (ground arith, ground arith)
    | inl v ↦ elim (Bool-cases saved) [
      | inl w ↦ rw (add, k, v, w) (find-assign own key phrase s, refl)
      | inr w ↦ rw (add, k, v, w, restore-assign own phrase s) (refl, refl)
    ]
  ]
]

replace_keeps :
    (key : List ℕ) (records : List PhraseOverrideRecord) (saved : Bool) (s : Phrases)
    → (find key (replace records saved s).0 ≡ promise key (replaced records saved) (find key s))
      × ((replace records saved s).1 ≡ promised_success (replaced records saved))
unfolding replace promise promised_success
replace_keeps key records saved s = elim (Bool-cases (all_accepted records)) [
  | inr refused ↦
      rw (replace, collect_refuses [] records refused, refused) (ground arith, ground arith)
  | inl fine ↦
      let (t, e, shows) = collect-latest key [] records fine in
      elim (Bool-cases saved) [
        | inl w ↦
            rw (replace, e, fine, w) (shows ∙ ap (latest key records) (find_nothing key), refl)
        | inr w ↦ rw (replace, e, fine, w) (refl, refl)
      ]
]

-- Whether the operation succeeds.
unfoldable pub success : Operation → Phrases → Bool
success (loaded answer) s = (load answer s).1
success (added phrase readings saved) s = (add phrase readings saved s).1
success (replaced records saved) s = (replace records saved s).1

unfoldable pub successes : List Operation → Phrases → List Bool
successes [] s = []
successes (o ∷ os) s = success o s ∷ successes os (operate o s)

ap2_cons : {b b' : Bool} {bs bs' : List Bool} → b ≡ b' → bs ≡ bs' → b ∷ bs ≡ b' ∷ bs'
ap2_cons e f = cc

operate_keeps :
    (key : List ℕ) (o : Operation) (s : Phrases)
    → (find key (operate o s) ≡ promise key o (find key s)) × (success o s ≡ promised_success o)
unfolding operate success load promise promised_success
operate_keeps key (loaded missing) s = (find_nothing key, refl)
operate_keeps key (loaded unknown) s = (refl, refl)
operate_keeps key (loaded unopened) s = (refl, refl)
operate_keeps key (loaded broken) s = (refl, refl)
operate_keeps key (loaded (contents lines)) s =
    (load_lines-latest key [] lines ∙ ap (latest key (records_of lines)) (find_nothing key), refl)
operate_keeps key (added phrase readings saved) s = add_keeps key phrase readings saved s
operate_keeps key (replaced records saved) s = replace_keeps key records saved s

-- Whatever is loaded, added and replaced: a key finds the phrase of the last accepted record under it, counted
-- from the last load or replacement that took effect, and without such a one what it found at first counts as
-- the earliest; and each operation succeeds by its arguments and by saving alone, whatever the table.
pub operate_all-promise_all :
    (key : List ℕ) (os : List Operation) (s : Phrases)
    → (find key (operate_all os s) ≡ promise_all key os (find key s))
      × (successes os s ≡ map promised_success os)
unfolding operate_all promise_all successes
operate_all-promise_all key [] s = (refl, refl)
operate_all-promise_all key (o ∷ os) s =
    let (shows, succeeds) = operate_keeps key o s in
    let (later, all) = operate_all-promise_all key os (operate o s) in
    (later ∙ ap (promise_all key os) shows, ap2_cons succeeds all)
