-- ===== src/Bopomofo/Hsu/Completion.antt =====
-- What an end key of the Hsu layout completes (`apply_hsu_key`, engine/src/bopomofo/keymap.cpp).
use ime_fcitx.Prelude.{
  ℕ, ◌≡◌, refl, Bool, true, false, ◌||◌, arith, ◌⊎◌, inl, inr, between, Option, none, some,
  Bool-cases, [],
}
use ime_fcitx.Bopomofo.Symbols.{is_bopomofo_tone, is_bopomofo_tone_lem}
use ime_fcitx.Bopomofo.Syllable.{
  Syllable, new, has_initial, has_medial, has_final, empty, complete, pop_back, remove_initial,
}
use ime_fcitx.Bopomofo.Syllable.Slots.{
  IsWellFormed, overwrite-IsWellFormed, new-IsWellFormed, pop_back-IsWellFormed,
}
use ime_fcitx.Bopomofo.Hsu.{
  KeyResult, completed, composing, rejected, no_result, is_hsu_end_key, normalize_singleton,
  convert_ge, hsu_tone, hsu_result, hsu_end_key, hsu_symbol, hsu_enter, apply_hsu_key,
}
use ime_fcitx.Bopomofo.Hsu.Phonotactics.{
  is_palatal, IsFront, IsPalatalOpen, hsu_symbol_class, put_initial, put_final, put_tone,
  convert_ge_lem, convert_ge-IsWellFormed, normalize_singleton-IsWellFormed, hsu_enter-IsWellFormed,
  hsu_enter_lem, hsu_enter-IsPalatalOpen,
}

-- The bopomofo of a reading without its tone.
abbrev has_base : Syllable → Bool
has_base s = has_initial s || has_medial s || has_final s

-- A palatal initial is followed by ㄧ or ㄩ.
abbrev pub IsPalatalClosed : Syllable → Type 0
IsPalatalClosed s = (is_palatal s.initial ≡ false) ⊎ IsFront s.medial

module _ (s : Syllable) where
  normalize_singleton_lem :
      (IsPalatalOpen s → IsPalatalClosed (normalize_singleton s))
      × (has_base (normalize_singleton s) ≡ has_base s)
      × ((normalize_singleton s).tone ≡ s.tone)
  unfolding normalize_singleton remove_initial
  normalize_singleton_lem = ground (
    arith,
    put_initial s 0x3113,
    put_initial s 0x3114,
    put_initial s 0x3115,
    put_final (record s { initial = 0 }) 0x311b,
    put_final (record s { initial = 0 }) 0x311c,
    put_final (record s { initial = 0 }) 0x3122,
    put_final (record s { initial = 0 }) 0x3123,
    put_final (record s { initial = 0 }) 0x3124,
    put_final (record s { initial = 0 }) 0x3126,
  )

  convert_ge-closed :
      (IsPalatalClosed s → IsPalatalClosed (convert_ge s))
      × (has_base (convert_ge s) ≡ has_base s)
      × ((convert_ge s).tone ≡ s.tone)
  convert_ge-closed = ground (arith, convert_ge_lem s)

  hsu_tone_class : (key : ℕ) → is_bopomofo_tone (hsu_tone key) ≡ true
  unfolding hsu_tone
  hsu_tone_class key = ground (arith, is_bopomofo_tone_lem (hsu_tone key))

pub end_key-IsWellFormed :
    (s : Syllable) (key : ℕ) → IsWellFormed s → IsWellFormed (hsu_end_key s key)
unfolding hsu_end_key
end_key-IsWellFormed s key w =
    overwrite-IsWellFormed _ (convert_ge-IsWellFormed _ (normalize_singleton-IsWellFormed s w))

-- An end key completes a reading that has a base, with its palatal initials closed.
hsu_end_key_lem :
    (s : Syllable) (key : ℕ)
    → IsPalatalOpen s
    → has_base s ≡ true
    → IsPalatalClosed (hsu_end_key s key) × (complete (hsu_end_key s key) ≡ true)
unfolding hsu_end_key complete empty
hsu_end_key_lem s key p b =
    let (closed, base, _) = normalize_singleton_lem s in
    let (closed', base', _) = convert_ge-closed (normalize_singleton s) in
    let palatals = closed' (closed p) in
    ground (
      arith,
      put_tone (convert_ge (normalize_singleton s)) (hsu_tone key),
      hsu_tone_class s key,
      is_bopomofo_tone_lem (hsu_tone key),
    )

-- An end key leaves a syllable that is not empty.
pub empty-hsu_end_key :
    (s : Syllable) (key : ℕ) → empty s ≡ false → empty (hsu_end_key s key) ≡ false
unfolding hsu_end_key empty
empty-hsu_end_key s key e =
    let (_, base, tone) = normalize_singleton_lem s in
    let (_, base', tone') = convert_ge-closed (normalize_singleton s) in
    ground (
      arith,
      put_tone (convert_ge (normalize_singleton s)) (hsu_tone key),
      hsu_tone_class s key,
      is_bopomofo_tone_lem (hsu_tone key),
    )

-- The syllables of the layout: well formed, no tone yet.
pub record IsOpen (s : Syllable) : Type 0 where
  pub well_formed : IsWellFormed s
  pub palatals : IsPalatalOpen s
  pub no_tone : s.tone ≡ 0

pub new-IsOpen : IsOpen new
new-IsOpen = record { well_formed = new-IsWellFormed; palatals = λ h. cc; no_tone = refl }

pub pop_back-IsOpen : (s : Syllable) → IsOpen s → IsOpen (pop_back s).0
unfolding pop_back
pop_back-IsOpen s o = record {
  well_formed = pop_back-IsWellFormed o.well_formed;
  palatals = ground arith;
  no_tone = ground arith;
}

hsu_enter-IsOpen :
    (s : Syllable) (c : ℕ)
    → between 0x3105 0x3129 c ≡ true
    → is_palatal c ≡ false
    → IsOpen s
    → IsOpen (hsu_enter s c)
hsu_enter-IsOpen s c h k o = record {
  well_formed = hsu_enter-IsWellFormed s c o.well_formed;
  palatals = hsu_enter-IsPalatalOpen s c h k o.palatals;
  no_tone = ground (arith, hsu_enter_lem s c, o.no_tone);
}

hsu_result-composing :
    (s : Syllable)
    → s.tone ≡ 0
    → hsu_result s ≡ (s, record { status = composing; alternative_readings = [] })
unfolding hsu_result complete
hsu_result-composing s h = ground arith

-- What a key does to an open syllable, by its status.
abbrev pub HsuOutcome : Syllable → Syllable × KeyResult → Type 0
HsuOutcome s (s', result) = elim result.status [
  | rejected ↦ s' ≡ s
  | composing ↦ IsOpen s'
  | completed ↦ IsWellFormed s' × IsPalatalClosed s' × (complete s' ≡ true)
]

hsu_result-completed :
    (s : Syllable)
    → IsWellFormed s
    → IsPalatalClosed s
    → complete s ≡ true
    → (t : Syllable) → HsuOutcome t (hsu_result s)
unfolding hsu_result
hsu_result-completed s w p c t = rw c (w, p, c)

end_key_base :
    (key : ℕ) (s : Syllable) → is_hsu_end_key key s ≡ true → s.tone ≡ 0 → has_base s ≡ true
unfolding is_hsu_end_key empty
end_key_base key s h k = ground arith

-- On an open syllable of the Hsu layout, a refused key changes nothing, a key that goes on leaves an
-- open syllable, and a key that completes leaves a complete one in which ㄐ, ㄑ, ㄒ stand before ㄧ or ㄩ.
pub apply_hsu_key_outcome : (s : Syllable) (key : ℕ) → IsOpen s → HsuOutcome s (apply_hsu_key s key)
unfolding apply_hsu_key
apply_hsu_key_outcome s key o = elim (Bool-cases (is_hsu_end_key key s)) [
  | inl e ↦
      let (closed, done) = hsu_end_key_lem s key o.palatals (end_key_base key s e o.no_tone) in
      rw e (hsu_result-completed _ (end_key-IsWellFormed s key o.well_formed) closed done s)
  | inr e ↦ rw e (enter (hsu_symbol (has_initial s || has_medial s) (has_medial s) key) refl)
]
  where
    enter :
        (r : Option ℕ)
        → hsu_symbol (has_initial s || has_medial s) (has_medial s) key ≡ r
        → HsuOutcome s (elim r [ none ↦ (s, no_result) | some c ↦ hsu_result (hsu_enter s c) ])
    enter none h = refl
    enter (some c) h =
        let (range, plain) = hsu_symbol_class _ _ key c h in
        let open' = hsu_enter-IsOpen s c range plain o in
        rw (hsu_result-composing (hsu_enter s c) open'.no_tone) open'
