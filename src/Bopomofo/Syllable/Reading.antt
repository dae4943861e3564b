-- ===== src/Bopomofo/Syllable/Reading.antt =====
-- The reading of a syllable, `text`, against the operations (engine/src/bopomofo/syllable.cpp).
use ime_fcitx.Prelude.{
  ℕ, suc, ◌+◌, ◌≡◌, ap, ◌∙◌, Bool, true, false, arith, ◌⊎◌, inl, inr, ◌==◌, length, if◌then◌else◌,
  List, [], ◌∷◌, ◌++◌, length-append, Bool-cases,
}
use ime_fcitx.Bopomofo.Symbols.{
  is_bopomofo_initial, is_bopomofo_medial, is_bopomofo_final, is_bopomofo_tone,
  is_bopomofo_initial_lem, is_bopomofo_medial_lem, is_bopomofo_final_lem, is_bopomofo_tone_lem,
}
use ime_fcitx.Bopomofo.Syllable.{Syllable, new, empty, accept, pop_back, text, slot}
use ime_fcitx.Bopomofo.Syllable.Slots.{IsWellFormed}

-- One slot weighs 1 where it is filled.
abbrev weight : ℕ → ℕ
weight c = if c == 0 then 0 else 1

length-slot : (c : ℕ) → length (slot c) ≡ weight c
length-slot c = ground arith

length-text :
    (s : Syllable)
    → length (text s) ≡ weight s.initial + weight s.medial + weight s.final + weight s.tone
unfolding text
length-text s = simp (length-append, length-slot) (omega arith)

-- `pop_back` says whether it removed a symbol, and then the reading is one symbol shorter.
pub pop_back-length :
    (s : Syllable)
    → ((pop_back s).1 ≡ true) × (suc (length (text (pop_back s).0)) ≡ length (text s))
      ⊎ ((pop_back s).1 ≡ false) × (empty s ≡ true)
unfolding pop_back empty
pop_back-length s = ground (arith, length-text s, length-text (pop_back s).0)

-- Feeding symbols one by one; false once a symbol is refused.
abbrev pub accept_all : Syllable → List ℕ → Syllable × Bool
accept_all s [] = (s, true)
accept_all s (c ∷ cs) =
    let (s', fine) = accept s c in let rest = accept_all s' cs in if fine then rest else (s', false)

accept_all-append :
    (s : Syllable) {s' : Syllable} (cs ds : List ℕ)
    → accept_all s cs ≡ (s', true)
    → accept_all s (cs ++ ds) ≡ accept_all s' ds
accept_all-append s [] ds h = ap (λ (r : Syllable × Bool). accept_all r.0 ds) h
accept_all-append s (c ∷ cs) ds h = elim (Bool-cases (accept s c).1) [
  | inl e ↦ rw e (accept_all-append (accept s c).0 cs ds (rw e at h))
  | inr e ↦ absurd (cc)
]

-- The slots of a syllable, filled up to one of them.
abbrev with_tone : ℕ → ℕ → ℕ → ℕ → Syllable
with_tone i m f t = record { initial = i; medial = m; final = f; tone = t }

feed_initial :
    (i : ℕ)
    → (i ≡ 0) ⊎ (is_bopomofo_initial i ≡ true)
    → accept_all new (slot i) ≡ (with_tone i 0 0 0, true)
unfolding accept
feed_initial i h = ground (arith, is_bopomofo_initial_lem i)

feed_medial :
    (i m : ℕ)
    → (m ≡ 0) ⊎ (is_bopomofo_medial m ≡ true)
    → accept_all (with_tone i 0 0 0) (slot m) ≡ (with_tone i m 0 0, true)
unfolding accept
feed_medial i m h = ground (arith, is_bopomofo_initial_lem m, is_bopomofo_medial_lem m)

feed_final :
    (i m f : ℕ)
    → (f ≡ 0) ⊎ (is_bopomofo_final f ≡ true)
    → accept_all (with_tone i m 0 0) (slot f) ≡ (with_tone i m f 0, true)
unfolding accept
feed_final i m f h =
    ground (arith, is_bopomofo_initial_lem f, is_bopomofo_medial_lem f, is_bopomofo_final_lem f)

feed_tone :
    (i m f t : ℕ)
    → (t ≡ 0) ⊎ (is_bopomofo_tone t ≡ true)
    → accept_all (with_tone i m f 0) (slot t) ≡ (with_tone i m f t, true)
unfolding accept
feed_tone i m f t h = ground (
  arith,
  is_bopomofo_initial_lem t,
  is_bopomofo_medial_lem t,
  is_bopomofo_final_lem t,
  is_bopomofo_tone_lem t,
)

-- Typing the reading of a well-formed syllable into an empty one is accepted symbol by symbol and
-- rebuilds the syllable.
pub accept_all-text : (s : Syllable) → IsWellFormed s → accept_all new (text s) ≡ (s, true)
unfolding text
accept_all-text s w =
    accept_all-append new (slot s.initial) _ (feed_initial _ w.initial_class)
    ∙ accept_all-append _ (slot s.medial) _ (feed_medial _ _ w.medial_class)
    ∙ accept_all-append _ (slot s.final) _ (feed_final _ _ _ w.final_class)
    ∙ feed_tone _ _ _ _ w.tone_class

-- So two well-formed syllables with one reading are one syllable.
pub text-injective : (s t : Syllable) → IsWellFormed s → IsWellFormed t → text s ≡ text t → s ≡ t
text-injective s t w v e = cc (accept_all-text s w, accept_all-text t v)
