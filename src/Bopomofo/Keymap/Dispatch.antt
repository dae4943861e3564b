-- ===== src/Bopomofo/Keymap/Dispatch.antt =====
-- What `apply_bopomofo_key` keeps, whatever the layout (engine/src/bopomofo/keymap.cpp).
use ime_fcitx.Prelude.{
  ℕ, ◌≡◌, refl, Bool, true, false, arith, inl, inr, between, Option, none, some, Option-cases,
  Bool-cases,
}
use ime_fcitx.Bopomofo.Symbols.{
  is_bopomofo_initial_lem, is_bopomofo_medial_lem, is_bopomofo_final_lem, is_bopomofo_tone_lem,
}
use ime_fcitx.Bopomofo.Syllable.{Syllable, empty, complete, accept, overwrite}
use ime_fcitx.Bopomofo.Syllable.Slots.{
  IsWellFormed, overwrite-IsWellFormed, accept-IsWellFormed, accept-empty, accept_refused,
}
use ime_fcitx.Bopomofo.Standard.{lookup_bopomofo_key}
use ime_fcitx.Bopomofo.Hsu.{
  KeyResult, completed, composing, rejected, no_result, is_hsu_end_key, hsu_end_key, hsu_symbol,
  hsu_enter, hsu_result, apply_hsu_key,
}
use ime_fcitx.Bopomofo.Hsu.Phonotactics.{hsu_enter-IsWellFormed, hsu_symbol_class, hsu_enter_lem}
use ime_fcitx.Bopomofo.Hsu.Completion.{end_key-IsWellFormed, empty-hsu_end_key}
use ime_fcitx.Bopomofo.Keymap.{
  KeyboardLayout, standard, hsu, accept_or_overwrite, apply_standard_key, adopt, dispatch_key,
  apply_bopomofo_key,
}

overwrite-empty :
    (s : Syllable) (c : ℕ) → (overwrite s c).1 ≡ true → empty (overwrite s c).0 ≡ false
unfolding overwrite empty
overwrite-empty s c h = ground (
  arith,
  is_bopomofo_initial_lem c,
  is_bopomofo_medial_lem c,
  is_bopomofo_final_lem c,
  is_bopomofo_tone_lem c,
)

-- What every key does to a well-formed syllable, by the status of its result.
abbrev pub KeyOutcome : Syllable → Syllable × KeyResult → Type 0
KeyOutcome s (s', result) = elim result.status [
  | rejected ↦ s' ≡ s
  | composing ↦ IsWellFormed s' × (empty s' ≡ false)
  | completed ↦ IsWellFormed s' × (complete s' ≡ true)
]

module _ (s : Syllable) (w : IsWellFormed s) where
  pub accept_or_overwrite-keeps :
      (c : ℕ)
      → IsWellFormed (accept_or_overwrite s c).0
        × ((accept_or_overwrite s c).1 ≡ true → empty (accept_or_overwrite s c).0 ≡ false)
  unfolding accept_or_overwrite
  accept_or_overwrite-keeps c = elim (Bool-cases (accept s c).1) [
    | inl e ↦ rw e (accept-IsWellFormed c w, λ _. accept-empty s c e)
    | inr e ↦ rw (e, accept_refused s c e) (overwrite-IsWellFormed c w, overwrite-empty s c)
  ]

  standard_symbol_outcome :
      (c : ℕ) (key : ℕ) (upper : Bool)
      → lookup_bopomofo_key key upper ≡ some c
      → KeyOutcome s (adopt s (apply_standard_key s key upper))
  unfolding apply_standard_key
  standard_symbol_outcome c key upper h =
      let (w', e') = accept_or_overwrite-keeps c in ground (arith, h)

  apply_standard_key_outcome :
      (key : ℕ) (upper : Bool) → KeyOutcome s (adopt s (apply_standard_key s key upper))
  unfolding apply_standard_key
  apply_standard_key_outcome key upper = elim (Option-cases (lookup_bopomofo_key key upper)) [
    | inl e ↦ rw (e, apply_standard_key) refl
    | inr (c, e) ↦ standard_symbol_outcome c key upper e
  ]

  hsu_result_outcome :
      (t : Syllable) → IsWellFormed t → empty t ≡ false → KeyOutcome s (adopt s (hsu_result t))
  unfolding hsu_result
  hsu_result_outcome t v e = elim (Bool-cases (complete t)) [
    | inl c ↦ rw c (v, c)
    | inr c ↦ rw c (v, e)
  ]

  enter_outcome :
      (later medial : Bool) (key : ℕ) (r : Option ℕ)
      → hsu_symbol later medial key ≡ r
      → KeyOutcome s
          (adopt s (elim r [ none ↦ (s, no_result) | some c ↦ hsu_result (hsu_enter s c) ]))
  enter_outcome later medial key none h = refl
  enter_outcome later medial key (some c) h =
      let (range, plain) = hsu_symbol_class later medial key c h in
      hsu_result_outcome (hsu_enter s c) (hsu_enter-IsWellFormed s c w)
        (unfold empty in ground (arith, hsu_enter_lem s c range))

  end_key-ne-empty : (key : ℕ) → is_hsu_end_key key s ≡ true → empty s ≡ false
  unfolding is_hsu_end_key
  end_key-ne-empty key h = ground arith

  hsu-KeyOutcome : (key : ℕ) → KeyOutcome s (adopt s (apply_hsu_key s key))
  unfolding apply_hsu_key
  hsu-KeyOutcome key = elim (Bool-cases (is_hsu_end_key key s)) [
    | inl e ↦ rw e (
        hsu_result_outcome (hsu_end_key s key) (end_key-IsWellFormed s key w)
          (empty-hsu_end_key s key (end_key-ne-empty key e)))
    | inr e ↦ rw e (enter_outcome _ _ key (hsu_symbol _ _ key) refl)
  ]

  dispatch_key_outcome :
      (layout : KeyboardLayout) (key : ℕ) (upper : Bool)
      → KeyOutcome s (adopt s (dispatch_key layout s key upper))
  dispatch_key_outcome standard key upper = apply_standard_key_outcome key upper
  dispatch_key_outcome hsu key upper = hsu-KeyOutcome key

  -- On either layout a refused key leaves a well-formed syllable as it was, a key that goes on leaves
  -- one that is well formed and not empty, and a key that completes leaves a well-formed, complete one.
  pub apply_bopomofo_key_outcome :
      (layout : KeyboardLayout) (key : ℕ) (accept_uppercase : Bool)
      → KeyOutcome s (apply_bopomofo_key s layout key accept_uppercase)
  unfolding apply_bopomofo_key
  apply_bopomofo_key_outcome layout key true = dispatch_key_outcome layout _ true
  apply_bopomofo_key_outcome layout key false = elim (Bool-cases (between b'A' b'Z' key)) [
    | inl e ↦ rw e refl
    | inr e ↦ rw e (dispatch_key_outcome layout key false)
  ]
