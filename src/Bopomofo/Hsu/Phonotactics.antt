-- ===== src/Bopomofo/Hsu/Phonotactics.antt =====
-- What the Hsu layout keeps of a syllable: its slots, and the initials ㄐ, ㄑ, ㄒ before ㄧ or ㄩ
-- (`apply_hsu_key`, engine/src/bopomofo/keymap.cpp).
use ime_fcitx.Prelude.{
  ℕ, ◌≡◌, refl, ◌+◌, ◌-◌, ◌&&◌, Bool, true, false, ◌||◌, arith, ◌⊎◌, between, ◌==◌, some,
  if◌then◌else◌, leb,
}
use ime_fcitx.Bopomofo.Symbols.{
  is_bopomofo_final, is_bopomofo_tone, is_bopomofo_initial_lem, is_bopomofo_medial_lem,
  is_bopomofo_final_lem, is_bopomofo_tone_lem,
}
use ime_fcitx.Bopomofo.Syllable.{Syllable, empty, overwrite}
use ime_fcitx.Bopomofo.Syllable.Slots.{
  IsWellFormed, overwrite-IsWellFormed, remove_initial-IsWellFormed,
}
use ime_fcitx.Bopomofo.Hsu.{
  normalize_singleton, convert_ge, hsu_symbol, retract_initial, palatalize_initial, hsu_enter, put,
}

-- ㄐ, ㄑ, ㄒ
abbrev pub is_palatal : ℕ → Bool
is_palatal c = between 0x3110 0x3112 c

-- ㄧ, ㄩ
abbrev pub IsFront : ℕ → Type 0
IsFront m = (m ≡ 0x3127) ⊎ (m ≡ 0x3129)

-- A palatal initial stands before ㄧ or ㄩ, or no vowel has been entered yet.
abbrev pub IsPalatalOpen : Syllable → Type 0
IsPalatalOpen s =
    is_palatal s.initial ≡ true → (IsFront s.medial) ⊎ ((s.medial ≡ 0) × (s.final ≡ 0))

-- A key enters an initial, medial or final, and never a palatal initial.
pub hsu_symbol_class :
    (later medial : Bool) (key c : ℕ)
    → hsu_symbol later medial key ≡ some c
    → (between 0x3105 0x3129 c ≡ true) × (is_palatal c ≡ false)
unfolding hsu_symbol
hsu_symbol_class later medial key c h = ground arith

if-IsWellFormed :
    (b : Bool) {x y : Syllable}
    → IsWellFormed x
    → IsWellFormed y
    → IsWellFormed (if b then x else y)
if-IsWellFormed true w v = w
if-IsWellFormed false w v = v

ruleset slot_rules = (if-IsWellFormed, overwrite-IsWellFormed, remove_initial-IsWellFormed)

module _ (s : Syllable) (w : IsWellFormed s) where
  pub convert_ge-IsWellFormed : IsWellFormed (convert_ge s)
  unfolding convert_ge
  convert_ge-IsWellFormed = search slot_rules

  pub normalize_singleton-IsWellFormed : IsWellFormed (normalize_singleton s)
  unfolding normalize_singleton
  normalize_singleton-IsWellFormed = search slot_rules depth 14

  retract_initial-IsWellFormed : (c : ℕ) → IsWellFormed (retract_initial c s)
  unfolding retract_initial
  retract_initial-IsWellFormed c = search slot_rules depth 7

  palatalize_initial-IsWellFormed : (c : ℕ) → IsWellFormed (palatalize_initial c s)
  unfolding palatalize_initial
  palatalize_initial-IsWellFormed c = search slot_rules depth 7

-- `overwrite` by the class of the symbol.
module _ (s : Syllable) (c : ℕ) where
  pub put_initial : between 0x3105 0x3119 c ≡ true → put s c ≡ record s { initial = c }
  unfolding overwrite
  put_initial h = ground (arith, is_bopomofo_initial_lem c)

  pub put_medial : between 0x3127 0x3129 c ≡ true → put s c ≡ record s { medial = c }
  unfolding overwrite
  put_medial h = ground (arith, is_bopomofo_initial_lem c, is_bopomofo_medial_lem c)

  pub put_final : between 0x311a 0x3126 c ≡ true → put s c ≡ record s { final = c }
  unfolding overwrite
  put_final h =
      ground (arith, is_bopomofo_initial_lem c, is_bopomofo_medial_lem c, is_bopomofo_final_lem c)

  pub put_tone : is_bopomofo_tone c ≡ true → empty s ≡ false → put s c ≡ record s { tone = c }
  unfolding overwrite
  put_tone h k = ground (
    arith,
    is_bopomofo_initial_lem c,
    is_bopomofo_medial_lem c,
    is_bopomofo_final_lem c,
    is_bopomofo_tone_lem c,
  )

-- The stages change the initial alone.
abbrev pub retracted : ℕ → ℕ
retracted i = if is_palatal i then i + 3 else i

abbrev pub palatalized : ℕ → ℕ
palatalized i = if between 0x3113 0x3115 i then i - 3 else i

abbrev pub front : ℕ → Bool
front c = c == 0x3127 || c == 0x3129

pub convert_ge_lem :
    (s : Syllable)
    → convert_ge s
      ≡ record s { initial = if s.initial == 0x310d && front s.medial then 0x3110 else s.initial }
unfolding convert_ge
convert_ge_lem s = ground (arith, put_initial s 0x3110)

retract_initial_lem :
    (c : ℕ) (s : Syllable)
    → retract_initial c s ≡ record s {
      initial =
          if c == 0x3128 || (is_bopomofo_final c && s.medial == 0)
          then retracted s.initial
          else s.initial;
    }
unfolding retract_initial
retract_initial_lem c s =
    ground (arith, put_initial s 0x3113, put_initial s 0x3114, put_initial s 0x3115)

palatalize_initial_lem :
    (c : ℕ) (s : Syllable)
    → palatalize_initial c s
      ≡ record s { initial = if front c then palatalized s.initial else s.initial }
unfolding palatalize_initial
palatalize_initial_lem c s =
    ground (arith, put_initial s 0x3110, put_initial s 0x3111, put_initial s 0x3112)

module _ (s : Syllable) (c : ℕ) where
  -- The syllable to which a symbol is added.
  abbrev prepared : Syllable
  prepared = palatalize_initial c (retract_initial c (convert_ge s))

  prepared-IsWellFormed : IsWellFormed s → IsWellFormed prepared
  prepared-IsWellFormed w =
      palatalize_initial-IsWellFormed _
        (retract_initial-IsWellFormed _ (convert_ge-IsWellFormed s w) c) c

  unfoldable pub prepared_initial : ℕ
  prepared_initial =
      let i = if s.initial == 0x310d && front s.medial then 0x3110 else s.initial in
      let j = if c == 0x3128 || (is_bopomofo_final c && s.medial == 0) then retracted i else i in
      if front c then palatalized j else j

  prepared_lem : prepared ≡ record s { initial = prepared_initial }
  unfolding prepared_initial
  prepared_lem = rw (convert_ge_lem, retract_initial_lem, palatalize_initial_lem) refl

  pub hsu_enter-IsWellFormed : IsWellFormed s → IsWellFormed (hsu_enter s c)
  unfolding hsu_enter
  hsu_enter-IsWellFormed w = overwrite-IsWellFormed c (prepared-IsWellFormed w)

  -- What a key enters into the slot of its class.
  pub hsu_enter_lem :
      between 0x3105 0x3129 c ≡ true
      → hsu_enter s c ≡ (
          if leb c 0x3119
          then record s { initial = c }
          else if leb c 0x3126
          then record s { initial = prepared_initial; final = c }
          else record s { initial = prepared_initial; medial = c })
  unfolding hsu_enter
  hsu_enter_lem h =
      ground
        (arith, prepared_lem, put_initial prepared c, put_medial prepared c, put_final prepared c)

  pub hsu_enter-IsPalatalOpen :
      between 0x3105 0x3129 c ≡ true
      → is_palatal c ≡ false
      → IsPalatalOpen s
      → IsPalatalOpen (hsu_enter s c)
  unfolding prepared_initial
  hsu_enter-IsPalatalOpen h k p = ground (arith, hsu_enter_lem, is_bopomofo_final_lem c)
