-- ===== src/Bopomofo/Hsu.antt =====
-- The Hsu layout, `apply_hsu_key` of engine/src/bopomofo/keymap.cpp.
pub mod Phonotactics
pub mod Completion
use Prim.Native.Char.{code}
use ime_fcitx.Prelude.{ℕ, Bool, true, false, not, ◌&&◌, ◌||◌, Option, none, some, List, [], ◌∷◌}
use ime_fcitx.Prelude.{codes, ◌==◌, if◌then◌else◌, eq_codes}
use ime_fcitx.Bopomofo.Symbols.{is_bopomofo_final}
use ime_fcitx.Bopomofo.Syllable.{
  Syllable, has_initial, has_medial, has_final, empty, complete, overwrite, remove_initial, text,
}

pub data KeyStatus : Type 0 where
  rejected composing completed : KeyStatus

pub record KeyResult : Type 0 where
  pub status : KeyStatus
  pub alternative_readings : List (List ℕ)

-- `return {}`
abbrev pub no_result : KeyResult
no_result = record { status = rejected; alternative_readings = [] }

unfoldable pub is_hsu_end_key : ℕ → Syllable → Bool
is_hsu_end_key key s =
    if empty s
    then false
    else key == b'd' || key == b'f' || key == b'j' || key == b's' || key == b' '

-- `it->second` where the reading is in the table, and no readings elsewhere.
find_readings : List (List ℕ × List (List ℕ)) → List ℕ → List (List ℕ)
find_readings [] reading = []
find_readings ((r, alternatives) ∷ m) reading =
    if eq_codes reading r then alternatives else find_readings m reading

abbrev alternatives_table : List (List ℕ × List (List ℕ))
alternatives_table =
    (codes "ㄘ ", codes "ㄟ " ∷ [])
    ∷ (codes "ㄧ ", codes "ㄝ " ∷ [])
    ∷ (codes "ㄙ ", codes "˙" ∷ [])
    ∷ (codes "ㄉ ", codes "ˊ" ∷ [])
    ∷ (codes "ㄈ ", codes "ˇ" ∷ [])
    ∷ (codes "ㄜ ", codes "ㄍ " ∷ [])
    ∷ (codes "ㄛ ", codes "ㄏ " ∷ [])
    ∷ (codes "ㄓ ", codes "ㄐ " ∷ codes "ˋ" ∷ [])
    ∷ (codes "ㄤ ", codes "ㄎ " ∷ [])
    ∷ (codes "ㄦ ", codes "ㄌ " ∷ codes "ㄥ " ∷ [])
    ∷ (codes "ㄕ ", codes "ㄒ " ∷ [])
    ∷ (codes "ㄔ ", codes "ㄑ " ∷ [])
    ∷ (codes "ㄣ ", codes "ㄋ " ∷ [])
    ∷ (codes "ㄢ ", codes "ㄇ " ∷ [])
    ∷ []

unfoldable pub hsu_alternative_readings : Syllable → List (List ℕ)
unfolding find_readings text eq_codes
hsu_alternative_readings s = find_readings alternatives_table (text s)

-- `(void)syllable.overwrite(symbol)`
abbrev put : Syllable → ℕ → Syllable
put s symbol = (overwrite s symbol).0

-- `remove_initial` and then `overwrite`.
abbrev to_final : Syllable → ℕ → Syllable
to_final s symbol = put (remove_initial s).0 symbol

-- Step 1 of an end key: a lone initial becomes its counterpart.
unfoldable pub normalize_singleton : Syllable → Syllable
normalize_singleton s =
    if has_medial s || has_final s
    then s
    else if s.initial == code "ㄐ"
    then put s (code "ㄓ")
    else if s.initial == code "ㄑ"
    then put s (code "ㄔ")
    else if s.initial == code "ㄒ"
    then put s (code "ㄕ")
    else if s.initial == code "ㄏ"
    then to_final s (code "ㄛ")
    else if s.initial == code "ㄍ"
    then to_final s (code "ㄜ")
    else if s.initial == code "ㄇ"
    then to_final s (code "ㄢ")
    else if s.initial == code "ㄋ"
    then to_final s (code "ㄣ")
    else if s.initial == code "ㄎ"
    then to_final s (code "ㄤ")
    else if s.initial == code "ㄌ"
    then to_final s (code "ㄦ")
    else s

-- The delayed conversion of ㄍㄧ and ㄍㄩ to ㄐㄧ and ㄐㄩ.
unfoldable pub convert_ge : Syllable → Syllable
convert_ge s =
    if s.initial == code "ㄍ" && (s.medial == code "ㄧ" || s.medial == code "ㄩ")
    then put s (code "ㄐ")
    else s

-- Step 3 of an end key.
unfoldable pub hsu_tone : ℕ → ℕ
hsu_tone key =
    if key == b'd'
    then code "ˊ"
    else if key == b'f'
    then code "ˇ"
    else if key == b'j'
    then code "ˋ"
    else if key == b's'
    then code "˙"
    else code " "

-- The result for the syllable that a key has made.
unfoldable pub hsu_result : Syllable → Syllable × KeyResult
hsu_result s =
    if complete s
    then (s, record { status = completed; alternative_readings = hsu_alternative_readings s })
    else (s, record { status = composing; alternative_readings = [] })

unfoldable pub hsu_end_key : Syllable → ℕ → Syllable
unfolding hsu_tone
hsu_end_key s key = put (convert_ge (normalize_singleton s)) (hsu_tone key)

-- `later` is `has_initial() || has_medial()`.
unfoldable pub hsu_symbol : Bool → Bool → ℕ → Option ℕ
hsu_symbol later medial key =
    if key == b'a'
    then some (if later then code "ㄟ" else code "ㄘ")
    else if key == b'b'
    then some (code "ㄅ")
    else if key == b'c'
    then some (code "ㄕ")
    else if key == b'd'
    then some (code "ㄉ")
    else if key == b'e'
    then some (if medial then code "ㄝ" else code "ㄧ")
    else if key == b'f'
    then some (code "ㄈ")
    else if key == b'g'
    then some (if later then code "ㄜ" else code "ㄍ")
    else if key == b'h'
    then some (if later then code "ㄛ" else code "ㄏ")
    else if key == b'i'
    then some (code "ㄞ")
    else if key == b'j'
    then some (code "ㄓ")
    else if key == b'k'
    then some (if later then code "ㄤ" else code "ㄎ")
    else if key == b'l'
    then some (if later then code "ㄥ" else code "ㄌ")
    else if key == b'm'
    then some (if later then code "ㄢ" else code "ㄇ")
    else if key == b'n'
    then some (if later then code "ㄣ" else code "ㄋ")
    else if key == b'o'
    then some (code "ㄡ")
    else if key == b'p'
    then some (code "ㄆ")
    else if key == b'r'
    then some (code "ㄖ")
    else if key == b's'
    then some (code "ㄙ")
    else if key == b't'
    then some (code "ㄊ")
    else if key == b'u'
    then some (code "ㄩ")
    else if key == b'v'
    then some (code "ㄔ")
    else if key == b'w'
    then some (code "ㄠ")
    else if key == b'x'
    then some (code "ㄨ")
    else if key == b'y'
    then some (code "ㄚ")
    else if key == b'z'
    then some (code "ㄗ")
    else none

-- ㄐ, ㄑ, ㄒ before ㄨ, or before a final with no medial.
unfoldable pub retract_initial : ℕ → Syllable → Syllable
retract_initial symbol s =
    if symbol == code "ㄨ" || (is_bopomofo_final symbol && not (has_medial s))
    then (if s.initial == code "ㄐ"
        then put s (code "ㄓ")
        else if s.initial == code "ㄑ"
        then put s (code "ㄔ")
        else if s.initial == code "ㄒ"
        then put s (code "ㄕ")
        else s)
    else s

-- ㄓ, ㄔ, ㄕ before ㄧ or ㄩ.
unfoldable pub palatalize_initial : ℕ → Syllable → Syllable
palatalize_initial symbol s =
    if symbol == code "ㄧ" || symbol == code "ㄩ"
    then (if s.initial == code "ㄓ"
        then put s (code "ㄐ")
        else if s.initial == code "ㄔ"
        then put s (code "ㄑ")
        else if s.initial == code "ㄕ"
        then put s (code "ㄒ")
        else s)
    else s

unfoldable pub hsu_enter : Syllable → ℕ → Syllable
hsu_enter s symbol = put (palatalize_initial symbol (retract_initial symbol (convert_ge s))) symbol

unfoldable pub apply_hsu_key : Syllable → ℕ → Syllable × KeyResult
apply_hsu_key s key =
    if is_hsu_end_key key s
    then hsu_result (hsu_end_key s key)
    else elim (hsu_symbol (has_initial s || has_medial s) (has_medial s) key) [
      | none ↦ (s, no_result)
      | some symbol ↦ hsu_result (hsu_enter s symbol)
    ]
