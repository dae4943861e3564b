-- ===== src/Text/Adoption/Explained.antt =====
-- What `strip_preedit_suffix` of engine/src/context/sample_adoption.hpp strips: the longest end of the
-- sample that shows the segments.
use ime_fcitx.Prelude.{
  ℕ, ◌≤◌, Bool, true, false, ◌||◌, none, some, List, [], ◌∷◌, ◌++◌, length, drop, ◌≡◌, ◌≢◌, ◌⊎◌,
  refl, ap, sym, ◌∙◌, Bool-cases, Option-cases, inl, inr, arith,
}
use ime_fcitx.Text.Adoption.{Shown, first_start, strip_preedit_suffix}
use ime_fcitx.Text.Adoption.Table.{fits, explained, tabulate, table-explained}
use ime_fcitx.Text.Adoption.Fits.{fits_cases, fits_whole, fits_part}

-- The text shows the segments one after the other: each is rendered, or stands as its reading, and the
-- text may end inside the reading of the segment that it has reached.
pub data Explains : List Shown → List ℕ → Type 0 where
  done : Explains [] []
  as_rendered :
      (state : Shown) (segments : List Shown) (rest text : List ℕ)
      → state.rendered ≢ []
      → text ≡ state.rendered ++ rest
      → Explains segments rest
      → Explains (state ∷ segments) text
  as_reading :
      (state : Shown) (segments : List Shown) (rest text : List ℕ)
      → state.reading ≢ []
      → text ≡ state.reading ++ rest
      → Explains segments rest
      → Explains (state ∷ segments) text
  in_reading :
      (state : Shown) (segments : List Shown) (more text : List ℕ)
      → text ≢ []
      → more ≢ []
      → state.reading ≡ text ++ more
      → Explains (state ∷ segments) text

or_true : (a b : Bool) → (a || b) ≡ true → (a ≡ true) ⊎ (b ≡ true)
or_true true b e = inl refl
or_true false b e = inr e

or_right : (a : Bool) → (a || true) ≡ true
or_right true = refl
or_right false = refl

pub explained→Explains :
    (segments : List Shown) (text : List ℕ)
    → explained segments text ≡ true
    → Explains segments text
unfolding explained
explained→Explains [] [] e = done
explained→Explains [] (u ∷ text) e = ground arith
explained→Explains (state ∷ segments) text e =
    elim (or_true (fits state state.rendered (explained segments) text)
      (fits state state.reading (explained segments) text) e) [
        | inl f ↦ elim (fits_cases state state.rendered (explained segments) text f) [
          | inl (h, same, later) ↦
              as_rendered state segments (drop (length state.rendered) text) text h same
                (explained→Explains segments (drop (length state.rendered) text) later)
          | inr (more, h, k, same) ↦ in_reading state segments more text h k same
        ]
        | inr f ↦ elim (fits_cases state state.reading (explained segments) text f) [
          | inl (h, same, later) ↦
              as_reading state segments (drop (length state.reading) text) text h same
                (explained→Explains segments (drop (length state.reading) text) later)
          | inr (more, h, k, same) ↦ in_reading state segments more text h k same
        ]
      ]

pub Explains→explained :
    (segments : List Shown) (text : List ℕ)
    → Explains segments text
    → explained segments text ≡ true
unfolding explained
Explains→explained [] [] done = refl
Explains→explained [] (_ ∷ _) x = elim x [ ]
Explains→explained (state ∷ segments) text (as_rendered _ _ rest _ h same x) =
    rw
      (
        same,
        fits_whole state state.rendered (explained segments) rest h
            (Explains→explained segments rest x),
      )
      refl
Explains→explained (state ∷ segments) text (as_reading _ _ rest _ h same x) =
    rw
      (
        same,
        fits_whole state state.reading (explained segments) rest h
            (Explains→explained segments rest x),
      )
      (or_right (fits state state.rendered (explained segments) (state.reading ++ rest)))
Explains→explained (state ∷ segments) text (in_reading _ _ more _ h k same) =
    rw (fits_part state (explained segments) text more h k same)
      (or_right (fits state state.rendered (explained segments) text))

marked :
    (f : List ℕ → Bool) (u : ℕ) (sample : List ℕ)
    → f (u ∷ sample) ≡ true
    → first_start (tabulate f (u ∷ sample)) (u ∷ sample) ≡ some []
unfolding first_start tabulate
marked f u sample e = rw e refl

unmarked :
    (f : List ℕ → Bool) (u : ℕ) (sample : List ℕ)
    → f (u ∷ sample) ≡ false
    → first_start (tabulate f (u ∷ sample)) (u ∷ sample)
      ≡ elim (first_start (tabulate f sample) sample) [
        | none ↦ none
        | some front ↦ some (u ∷ front)
      ]
unfolding first_start tabulate
unmarked f u sample e = rw e refl

none_marked : {front : List ℕ} → none ≢ some front
none_marked e = cc

first_start_found :
    (f : List ℕ → Bool) (sample : List ℕ) {front : List ℕ}
    → first_start (tabulate f sample) sample ≡ some front
    → (rest : List ℕ) × (sample ≡ front ++ rest) × (rest ≢ []) × (f rest ≡ true)
unfolding first_start tabulate
first_start_found f [] e = absurd (cc)
first_start_found f (u ∷ sample) {front} e = elim (Bool-cases (f (u ∷ sample))) [
  | inl h ↦
      let found = marked f u sample h in
      let same : [] ≡ front = cc in (u ∷ sample, ap (λ xs. xs ++ u ∷ sample) same, (λ k. cc), h)
  | inr h ↦
      let skipped = unmarked f u sample h in
      elim (Option-cases (first_start (tabulate f sample) sample)) [
        | inl k ↦ absurd (none_marked (sym (skipped ∙ rw k refl) ∙ e))
        | inr (later, k) ↦
            let (rest, same, more, shown) = first_start_found f sample k in
            let longer : some (u ∷ later) ≡ some front = sym (skipped ∙ rw k refl) ∙ e in
            let front_same : u ∷ later ≡ front = cc in
            (rest, ap (λ xs. u ∷ xs) same ∙ ap (λ xs. xs ++ rest) front_same, more, shown)
      ]
]

-- The first place that is marked comes no later than any other.
first_start_first :
    (f : List ℕ → Bool) (before after : List ℕ)
    → after ≢ []
    → f after ≡ true
    → (front : List ℕ) × (first_start (tabulate f (before ++ after)) (before ++ after) ≡ some front)
      × (length front ≤ length before)
unfolding first_start tabulate
first_start_first f [] [] h e = absurd (h refl)
first_start_first f [] (u ∷ after) h e = ([], marked f u after e, omega arith)
first_start_first f (u ∷ before) after h e =
    let (front, found, short) = first_start_first f before after h e in
    elim (Bool-cases (f (u ∷ before ++ after))) [
      | inl k ↦ ([], marked f u (before ++ after) k, omega arith)
      | inr k ↦ (u ∷ front, unmarked f u (before ++ after) k ∙ rw found refl, omega arith)
    ]

strip_nonempty :
    (state : Shown) (segments : List Shown) (sample : List ℕ)
    → sample ≢ []
    → strip_preedit_suffix sample (state ∷ segments)
      ≡ first_start (tabulate (explained (state ∷ segments)) sample) sample
unfolding strip_preedit_suffix
strip_nonempty state segments [] h = absurd (h refl)
strip_nonempty state segments (u ∷ sample) h =
    ap (λ marks. first_start marks (u ∷ sample)) (table-explained (state ∷ segments) (u ∷ sample))

nonempty-append : (before after : List ℕ) → after ≢ [] → before ++ after ≢ []
nonempty-append [] after h = h
nonempty-append (x ∷ before) after h = λ e. cc

-- When an end of the sample shows the segments, the committed text in front of the longest such end is
-- returned, and so never more than what stands in front of this one.
pub strip_preedit_suffix-longest :
    (state : Shown) (segments : List Shown) (before after : List ℕ)
    → after ≢ []
    → Explains (state ∷ segments) after
    → (front : List ℕ) × (rest : List ℕ) × (strip_preedit_suffix
          (before ++ after)
          (state ∷ segments)
        ≡ some front)
      × (before ++ after ≡ front ++ rest)
      × Explains (state ∷ segments) rest
      × (length front ≤ length before)
strip_preedit_suffix-longest state segments before after h x =
    let (front, found, short) =
      first_start_first (explained (state ∷ segments)) before after h
        (Explains→explained (state ∷ segments) after x) in
    let (rest, same, k, shown) =
      first_start_found (explained (state ∷ segments)) (before ++ after) found in
    (
      front,
      rest,
      strip_nonempty state segments (before ++ after) (nonempty-append before after h) ∙ found,
      same,
      explained→Explains (state ∷ segments) rest shown,
      short,
    )

-- Of a sample and segments that are not empty the returned text is a front, and the end behind it, not empty
-- either, shows the segments.
pub strip_preedit_suffix-explained :
    (state : Shown) (segments : List Shown) (sample : List ℕ) {front : List ℕ}
    → sample ≢ []
    → strip_preedit_suffix sample (state ∷ segments) ≡ some front
    → (rest : List ℕ) × (sample ≡ front ++ rest) × (rest ≢ []) × Explains (state ∷ segments) rest
strip_preedit_suffix-explained state segments sample h e =
    let (rest, same, k, shown) =
      first_start_found (explained (state ∷ segments)) sample
        (sym (strip_nonempty state segments sample h) ∙ e) in
    (rest, same, k, explained→Explains (state ∷ segments) rest shown)
