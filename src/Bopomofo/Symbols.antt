-- ===== src/Bopomofo/Symbols.antt =====
-- The four classes of bopomofo symbols, engine/src/bopomofo/syllable.cpp.
use ime_fcitx.Prelude.{ℕ, ◌≡◌, Bool, ◌||◌, List, arith}
use ime_fcitx.Prelude.{codes, contains, between, ◌==◌}

abbrev pub initials : List ℕ
initials = codes "ㄅㄆㄇㄈㄉㄊㄋㄌㄍㄎㄏㄐㄑㄒㄓㄔㄕㄖㄗㄘㄙ"

abbrev pub medials : List ℕ
medials = codes "ㄧㄨㄩ"

abbrev pub finals : List ℕ
finals = codes "ㄚㄛㄜㄝㄞㄟㄠㄡㄢㄣㄤㄥㄦ"

abbrev pub tones : List ℕ
tones = codes " ˊˇˋ˙"

unfoldable pub is_bopomofo_initial : ℕ → Bool
is_bopomofo_initial symbol = contains initials symbol

unfoldable pub is_bopomofo_medial : ℕ → Bool
is_bopomofo_medial symbol = contains medials symbol

unfoldable pub is_bopomofo_final : ℕ → Bool
is_bopomofo_final symbol = contains finals symbol

unfoldable pub is_bopomofo_tone : ℕ → Bool
is_bopomofo_tone symbol = contains tones symbol

pub is_bopomofo_initial_lem : (c : ℕ) → is_bopomofo_initial c ≡ between 0x3105 0x3119 c
unfolding is_bopomofo_initial contains
is_bopomofo_initial_lem c = ground arith

pub is_bopomofo_medial_lem : (c : ℕ) → is_bopomofo_medial c ≡ between 0x3127 0x3129 c
unfolding is_bopomofo_medial contains
is_bopomofo_medial_lem c = ground arith

pub is_bopomofo_final_lem : (c : ℕ) → is_bopomofo_final c ≡ between 0x311a 0x3126 c
unfolding is_bopomofo_final contains
is_bopomofo_final_lem c = ground arith

pub is_bopomofo_tone_lem :
    (c : ℕ) → is_bopomofo_tone c ≡ (c == 32 || c == 0x2ca || c == 0x2c7 || c == 0x2cb || c == 0x2d9)
unfolding is_bopomofo_tone contains
is_bopomofo_tone_lem c = ground arith
