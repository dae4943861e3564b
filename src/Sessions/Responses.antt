-- ===== src/Sessions/Responses.antt =====
-- What `predict` of ime-unix-service/src/session/session_manager.cpp returns.
use ime_fcitx.Prelude.{
  ℕ, Bool, sym, ◌↔◌, arith, true, false, ◌&&◌, List, [], ◌∷◌, ◌==◌, length, ==_iff, Bool-cases, inl,
  inr, ◌≡◌, refl, ap, ◌∙◌,
}
use ime_fcitx.Wire.Messages.{PredictRequest, Prediction, PaddingEntry}
use ime_fcitx.Sessions.Predict.{Answer, is_kept, all_kept, respond}
use ime_fcitx.Sessions.Predict.{answered, out_of_memory, failed}

both : (a b : Bool) → (a && b) ≡ true → (a ≡ true) × (b ≡ true)
both true b h = (refl, h)
both false b h = absurd (cc)

-- A list of candidates for each entry, and for a chosen one its character alone.
pub data Answers : List PaddingEntry → List (List ℕ) → Type 0 where
  nothing : Answers [] []
  character :
      (entry : PaddingEntry) (padding : List PaddingEntry) (lists : List (List ℕ))
      → entry.chosen ≡ true
      → Answers padding lists
      → Answers (entry ∷ padding) ((entry.chosen_char ∷ []) ∷ lists)
  any_list :
      (entry : PaddingEntry) (list : List ℕ) (padding : List PaddingEntry) (lists : List (List ℕ))
      → entry.chosen ≡ false
      → Answers padding lists
      → Answers (entry ∷ padding) (list ∷ lists)

-- The two tests on what the model answers.
abbrev is_answer : List PaddingEntry → List (List ℕ) → Bool
is_answer padding lists = length lists == length padding && all_kept padding lists

-- A chosen entry has its character and no other.
is_kept-singleton :
    (entry : PaddingEntry) (list : List ℕ)
    → is_kept entry list ≡ true
    → entry.chosen ≡ true
    → list ≡ entry.chosen_char ∷ []
unfolding is_kept
is_kept-singleton entry [] h c = (let refused : false ≡ true = rw c at h in absurd (cc))
is_kept-singleton entry (candidate ∷ []) h c =
    let same : (candidate == entry.chosen_char) ≡ true = rw c at h in
    ap (λ x. x ∷ []) ((==_iff candidate entry.chosen_char).0 same)
is_kept-singleton entry (candidate ∷ other ∷ candidates) h c =
    (let refused : false ≡ true = rw c at h in absurd (cc))

is_kept_open :
    (entry : PaddingEntry) (list : List ℕ) → entry.chosen ≡ false → is_kept entry list ≡ true
unfolding is_kept
is_kept_open entry [] c = ground arith
is_kept_open entry (candidate ∷ []) c = ground arith
is_kept_open entry (candidate ∷ other ∷ list) c = ground arith

is_kept_character : (entry : PaddingEntry) → is_kept entry (entry.chosen_char ∷ []) ≡ true
unfolding is_kept
is_kept_character entry = ground arith

answer_step :
    (entry : PaddingEntry) (padding : List PaddingEntry) (list : List ℕ) (lists : List (List ℕ))
    → is_answer (entry ∷ padding) (list ∷ lists) ≡ true
    → (is_kept entry list ≡ true) × (is_answer padding lists ≡ true)
unfolding all_kept
answer_step entry padding list lists h = (ground arith, ground arith)

answer_cons :
    (entry : PaddingEntry) (padding : List PaddingEntry) (list : List ℕ) (lists : List (List ℕ))
    → is_kept entry list ≡ true
    → is_answer padding lists ≡ true
    → is_answer (entry ∷ padding) (list ∷ lists) ≡ true
unfolding all_kept
answer_cons entry padding list lists k h = ground arith

is_answer→Answers :
    (padding : List PaddingEntry) (lists : List (List ℕ))
    → is_answer padding lists ≡ true
    → Answers padding lists
is_answer→Answers [] [] h = nothing
is_answer→Answers [] (list ∷ lists) h = absurd (ground arith)
is_answer→Answers (entry ∷ padding) [] h = absurd (ground arith)
is_answer→Answers (entry ∷ padding) (list ∷ lists) h =
    let (kept, later) = answer_step entry padding list lists h in
    let rest = is_answer→Answers padding lists later in
    elim (Bool-cases entry.chosen) [
      | inr c ↦ any_list entry list padding lists c rest
      | inl c ↦ rw (is_kept-singleton entry list kept c) (character entry padding lists c rest)
    ]

Answers→is_answer :
    (padding : List PaddingEntry) (lists : List (List ℕ))
    → Answers padding lists
    → is_answer padding lists ≡ true
unfolding all_kept
Answers→is_answer _ _ nothing = refl
Answers→is_answer _ _ (character entry padding lists c h) =
    answer_cons entry padding (entry.chosen_char ∷ []) lists (is_kept_character entry)
      (Answers→is_answer padding lists h)
Answers→is_answer _ _ (any_list entry list padding lists c h) =
    answer_cons entry padding list lists (is_kept_open entry list c)
      (Answers→is_answer padding lists h)

abbrev pub reply : PredictRequest → List (List ℕ) → Prediction
reply request lists = record {
  session_id = request.session_id;
  request_id = request.request_id;
  buffer_revision = request.buffer_revision;
  candidates = lists;
}

respond_accepts :
    (request : PredictRequest) (lists : List (List ℕ))
    → is_answer request.padding lists ≡ true
    → respond request (answered lists) ≡ inl (reply request lists)
unfolding respond
respond_accepts request lists h =
    let (size, kept) =
      both (length lists == length request.padding) (all_kept request.padding lists) h in
    rw (size, kept) refl

respond_inv :
    (request : PredictRequest) (answer : Answer) (p : Prediction)
    → respond request answer ≡ inl p
    → (lists : List (List ℕ)) × (answer ≡ answered lists)
      × (p ≡ reply request lists)
      × (is_answer request.padding lists ≡ true)
unfolding respond
respond_inv request out_of_memory p e = absurd (cc)
respond_inv request (failed message) p e = absurd (cc)
respond_inv request (answered lists) p e =
    elim (Bool-cases (length lists == length request.padding)) [
      | inr miss ↦ (let refused = rw miss at e in absurd (cc))
      | inl match ↦ elim (Bool-cases (all_kept request.padding lists)) [
        | inr lost ↦ (let refused = rw (match, lost) at e in absurd (cc))
        | inl kept ↦
            let given = rw (match, kept) at e in
            let same : reply request lists ≡ p = cc in
            (lists, refl, sym same, rw (match, kept) refl)
      ]
    ]

-- A prediction is returned exactly where the model answered with a list of candidates for each entry of the
-- padding, no more and no fewer, and with its character alone for each chosen entry; it carries these lists
-- and the names of the request.
pub respond-Answers :
    (request : PredictRequest) (answer : Answer) (p : Prediction)
    → (respond request answer ≡ inl p) ↔ (
        (answer ≡ answered p.candidates)
        × (p ≡ reply request p.candidates)
        × Answers request.padding p.candidates)
respond-Answers request answer p = (there, back)
  where
    there :
        respond request answer ≡ inl p
        → (answer ≡ answered p.candidates)
          × (p ≡ reply request p.candidates)
          × Answers request.padding p.candidates
    there e =
        let (lists, given, same, accepted) = respond_inv request answer p e in
        let carried : p.candidates ≡ lists = ap (λ (q : Prediction). q.candidates) same in
        (
          given ∙ ap answered (sym carried),
          same ∙ ap (reply request) (sym carried),
          rw carried (is_answer→Answers request.padding lists accepted),
        )

    back :
        (answer ≡ answered p.candidates)
          × (p ≡ reply request p.candidates)
          × Answers request.padding p.candidates
        → respond request answer ≡ inl p
    back (given, same, answers) =
        ap (respond request) given
        ∙ respond_accepts request p.candidates
            (Answers→is_answer request.padding p.candidates answers)
        ∙ ap inl (sym same)
