-- ===== src/Text/Adoption/Contribution.antt =====
-- Which segments contribute to the end that `strip_preedit_suffix` of engine/src/context/sample_adoption.hpp
-- strips. The comment above that function wants text of every segment; the code also takes an end that stops
-- inside the reading of an earlier segment, and asks nothing of the segments behind it.
use ime_fcitx.Prelude.{ℕ, ◌≤◌, some, List, [], ◌∷◌, ◌++◌, length, ◌≡◌, ◌≢◌, ◌⊎◌, inl, inr}
use ime_fcitx.Text.Adoption.{Shown, strip_preedit_suffix}
use ime_fcitx.Text.Adoption.Explained.{
  Explains, strip_preedit_suffix-longest, strip_preedit_suffix-explained,
}
use ime_fcitx.Text.Adoption.Explained.{done, as_rendered, as_reading, in_reading}

-- Every segment contributes text: each is rendered or stands as its reading, and only the last may be the
-- beginning of its reading.
pub data Shows : List Shown → List ℕ → Type 0 where
  over : Shows [] []
  rendered :
      (state : Shown) (segments : List Shown) (rest text : List ℕ)
      → state.rendered ≢ []
      → text ≡ state.rendered ++ rest
      → Shows segments rest
      → Shows (state ∷ segments) text
  read :
      (state : Shown) (segments : List Shown) (rest text : List ℕ)
      → state.reading ≢ []
      → text ≡ state.reading ++ rest
      → Shows segments rest
      → Shows (state ∷ segments) text
  typed :
      (state : Shown) (more text : List ℕ)
      → text ≢ []
      → more ≢ []
      → state.reading ≡ text ++ more
      → Shows (state ∷ []) text

-- The text stops inside the reading of a segment that is not the last; `next` and the segments behind it
-- contribute nothing.
pub data StopsEarly : List Shown → List ℕ → Type 0 where
  behind_rendered :
      (state : Shown) (segments : List Shown) (rest text : List ℕ)
      → state.rendered ≢ []
      → text ≡ state.rendered ++ rest
      → StopsEarly segments rest
      → StopsEarly (state ∷ segments) text
  behind_reading :
      (state : Shown) (segments : List Shown) (rest text : List ℕ)
      → state.reading ≢ []
      → text ≡ state.reading ++ rest
      → StopsEarly segments rest
      → StopsEarly (state ∷ segments) text
  stops :
      (state next : Shown) (segments : List Shown) (more text : List ℕ)
      → text ≢ []
      → more ≢ []
      → state.reading ≡ text ++ more
      → StopsEarly (state ∷ next ∷ segments) text

contributions :
    (segments : List Shown) (text : List ℕ)
    → Explains segments text
    → Shows segments text ⊎ StopsEarly segments text
contributions _ _ done = inl over
contributions _ _ (as_rendered state segments rest text h same x) =
    elim (contributions segments rest x) [
      | inl all ↦ inl (rendered state segments rest text h same all)
      | inr early ↦ inr (behind_rendered state segments rest text h same early)
    ]
contributions _ _ (as_reading state segments rest text h same x) =
    elim (contributions segments rest x) [
      | inl all ↦ inl (read state segments rest text h same all)
      | inr early ↦ inr (behind_reading state segments rest text h same early)
    ]
contributions _ _ (in_reading state [] more text h k same) = inl (typed state more text h k same)
contributions _ _ (in_reading state (next ∷ segments) more text h k same) =
    inr (stops state next segments more text h k same)

Shows→Explains :
    (segments : List Shown) (text : List ℕ) → Shows segments text → Explains segments text
Shows→Explains _ _ over = done
Shows→Explains _ _ (rendered state segments rest text h same x) =
    as_rendered state segments rest text h same (Shows→Explains segments rest x)
Shows→Explains _ _ (read state segments rest text h same x) =
    as_reading state segments rest text h same (Shows→Explains segments rest x)
Shows→Explains _ _ (typed state more text h k same) = in_reading state [] more text h k same

-- When an end of the sample has text of every segment, only the last being possibly unfinished, committed text is
-- returned, and not more than what stands in front of this end. The end that is stripped, which may be longer,
-- has text of every segment too, or stops inside the reading of a segment that is not the last.
pub strip_preedit_suffix-reaches :
    (state : Shown) (segments : List Shown) (before after : List ℕ)
    → after ≢ []
    → Shows (state ∷ segments) after
    → (front : List ℕ) × (rest : List ℕ) × (strip_preedit_suffix
          (before ++ after)
          (state ∷ segments)
        ≡ some front)
      × (before ++ after ≡ front ++ rest)
      × (Shows (state ∷ segments) rest ⊎ StopsEarly (state ∷ segments) rest)
      × (length front ≤ length before)
strip_preedit_suffix-reaches state segments before after h x =
    let (front, rest, found, same, shown, short) =
      strip_preedit_suffix-longest state segments before after h
        (Shows→Explains (state ∷ segments) after x) in
    (front, rest, found, same, contributions (state ∷ segments) rest shown, short)

-- Text is stripped from a sample, neither it nor the segments being empty, only where its end behind the returned
-- text is not empty and has text of every segment, the last being possibly unfinished, or stops inside the
-- reading of a segment that is not the last.
pub strip_preedit_suffix-contributes :
    (state : Shown) (segments : List Shown) (sample : List ℕ) {front : List ℕ}
    → sample ≢ []
    → strip_preedit_suffix sample (state ∷ segments) ≡ some front
    → (rest : List ℕ) × (sample ≡ front ++ rest)
      × (rest ≢ [])
      × (Shows (state ∷ segments) rest ⊎ StopsEarly (state ∷ segments) rest)
strip_preedit_suffix-contributes state segments sample h e =
    let (rest, same, k, shown) = strip_preedit_suffix-explained state segments sample h e in
    (rest, same, k, contributions (state ∷ segments) rest shown)
