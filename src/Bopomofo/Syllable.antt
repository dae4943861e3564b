-- ===== src/Bopomofo/Syllable.antt =====
-- Class `Syllable`, engine/src/bopomofo/syllable.cpp: four slots, 0 where a slot is empty. A method
-- that returns a bool returns it beside the new syllable.
pub mod Slots
pub mod Reading
use ime_fcitx.Prelude.{ℕ, Bool, true, false, not, ◌&&◌, ◌||◌, List, [], ◌∷◌, ◌++◌}
use ime_fcitx.Prelude.{◌==◌, if◌then◌else◌}
use ime_fcitx.Bopomofo.Symbols.{
  is_bopomofo_initial, is_bopomofo_medial, is_bopomofo_final, is_bopomofo_tone,
}

pub record Syllable : Type 0 where
  pub initial : ℕ
  pub medial : ℕ
  pub final : ℕ
  pub tone : ℕ

abbrev pub new : Syllable
new = record { initial = 0; medial = 0; final = 0; tone = 0 }

abbrev pub has_initial : Syllable → Bool
has_initial s = not (s.initial == 0)

abbrev pub has_medial : Syllable → Bool
has_medial s = not (s.medial == 0)

abbrev pub has_final : Syllable → Bool
has_final s = not (s.final == 0)

abbrev pub has_tone : Syllable → Bool
has_tone s = not (s.tone == 0)

unfoldable pub empty : Syllable → Bool
empty s = s.initial == 0 && s.medial == 0 && s.final == 0 && s.tone == 0

unfoldable pub complete : Syllable → Bool
complete s =
    not (s.tone == 0) && (not (s.initial == 0) || not (s.medial == 0) || not (s.final == 0))

unfoldable pub accept : Syllable → ℕ → Syllable × Bool
unfolding complete
accept s symbol =
    if complete s
    then (s, false)
    else if is_bopomofo_initial symbol
    then (if has_initial s || has_medial s || has_final s
        then (s, false)
        else (record s { initial = symbol }, true))
    else if is_bopomofo_medial symbol
    then (if has_medial s || has_final s then (s, false) else (record s { medial = symbol }, true))
    else if is_bopomofo_final symbol
    then (if has_final s then (s, false) else (record s { final = symbol }, true))
    else if is_bopomofo_tone symbol
    then (if has_tone s then (s, false) else (record s { tone = symbol }, true))
    else (s, false)

unfoldable pub overwrite : Syllable → ℕ → Syllable × Bool
unfolding empty
overwrite s symbol =
    if is_bopomofo_initial symbol
    then (record s { initial = symbol }, true)
    else if is_bopomofo_medial symbol
    then (record s { medial = symbol }, true)
    else if is_bopomofo_final symbol
    then (record s { final = symbol }, true)
    else if is_bopomofo_tone symbol
    then (if empty s then (s, false) else (record s { tone = symbol }, true))
    else (s, false)

unfoldable pub pop_back : Syllable → Syllable × Bool
pop_back s =
    if has_tone s
    then (record s { tone = 0 }, true)
    else if has_final s
    then (record s { final = 0 }, true)
    else if has_medial s
    then (record s { medial = 0 }, true)
    else if has_initial s
    then (record s { initial = 0 }, true)
    else (s, false)

unfoldable pub remove_initial : Syllable → Syllable × Bool
remove_initial s = if has_initial s then (record s { initial = 0 }, true) else (s, false)

unfoldable pub remove_tone : Syllable → Syllable × Bool
remove_tone s = if has_tone s then (record s { tone = 0 }, true) else (s, false)

-- `append_bmp`, for one slot: an empty slot adds nothing.
abbrev pub slot : ℕ → List ℕ
slot symbol = if symbol == 0 then [] else symbol ∷ []

unfoldable pub text : Syllable → List ℕ
text s = slot s.initial ++ (slot s.medial ++ (slot s.final ++ slot s.tone))
