-- ===== src/Bopomofo/Syllable/Slots.antt =====
-- What the operations of `Syllable` keep of its slots (engine/src/bopomofo/syllable.cpp).
use ime_fcitx.Prelude.{ℕ, ◌≡◌, true, false, arith, ◌⊎◌}
use ime_fcitx.Bopomofo.Symbols.{
  is_bopomofo_initial, is_bopomofo_medial, is_bopomofo_final, is_bopomofo_tone,
  is_bopomofo_initial_lem, is_bopomofo_medial_lem, is_bopomofo_final_lem, is_bopomofo_tone_lem,
}
use ime_fcitx.Bopomofo.Syllable.{Syllable, new, empty, accept, overwrite, pop_back, remove_initial}

-- Each slot is empty or holds a symbol of its class.
pub record IsWellFormed (s : Syllable) : Type 0 where
  pub initial_class : (s.initial ≡ 0) ⊎ (is_bopomofo_initial s.initial ≡ true)
  pub medial_class : (s.medial ≡ 0) ⊎ (is_bopomofo_medial s.medial ≡ true)
  pub final_class : (s.final ≡ 0) ⊎ (is_bopomofo_final s.final ≡ true)
  pub tone_class : (s.tone ≡ 0) ⊎ (is_bopomofo_tone s.tone ≡ true)

pub new-IsWellFormed : IsWellFormed new
new-IsWellFormed = ground arith

pub accept-IsWellFormed : {s : Syllable} (c : ℕ) → IsWellFormed s → IsWellFormed (accept s c).0
unfolding accept
accept-IsWellFormed c w = ground arith

pub overwrite-IsWellFormed :
    {s : Syllable} (c : ℕ) → IsWellFormed s → IsWellFormed (overwrite s c).0
unfolding overwrite
overwrite-IsWellFormed c w = ground arith

pub pop_back-IsWellFormed : {s : Syllable} → IsWellFormed s → IsWellFormed (pop_back s).0
unfolding pop_back
pop_back-IsWellFormed w = ground arith

pub remove_initial-IsWellFormed :
    {s : Syllable} → IsWellFormed s → IsWellFormed (remove_initial s).0
unfolding remove_initial
remove_initial-IsWellFormed w = ground arith

-- A refused symbol leaves the syllable alone.
pub accept_refused : (s : Syllable) (c : ℕ) → (accept s c).1 ≡ false → (accept s c).0 ≡ s
unfolding accept
accept_refused s c h = ground arith

-- An accepted symbol is not NUL, so the syllable is no longer empty.
pub accept-empty : (s : Syllable) (c : ℕ) → (accept s c).1 ≡ true → empty (accept s c).0 ≡ false
unfolding accept empty
accept-empty s c h = ground (
  arith,
  is_bopomofo_initial_lem c,
  is_bopomofo_medial_lem c,
  is_bopomofo_final_lem c,
  is_bopomofo_tone_lem c,
)

-- Taking back the last symbol undoes an accepted symbol, before the tone is there.
pub pop_back-accept :
    (s : Syllable) (c : ℕ)
    → s.tone ≡ 0
    → (accept s c).1 ≡ true
    → pop_back (accept s c).0 ≡ (s, true)
unfolding accept pop_back
pop_back-accept s c h k = ground (
  arith,
  is_bopomofo_initial_lem c,
  is_bopomofo_medial_lem c,
  is_bopomofo_final_lem c,
  is_bopomofo_tone_lem c,
)
