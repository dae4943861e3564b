-- ===== src/Bopomofo/Standard.antt =====
-- The lookup tables of engine/src/bopomofo/keymap.cpp. A table is the list of its pairs.
pub mod Bijection
use Prim.Native.Char.{code}
use ime_fcitx.Prelude.{
  ℕ, ◌+◌, Bool, true, false, Option, none, some, List, [], ◌∷◌, codes, ◌==◌, if◌then◌else◌, between,
}

abbrev pub Pairs : Type 0
Pairs = List (ℕ × ℕ)

-- The pairs of two texts read side by side.
abbrev pub pair_up : List ℕ → List ℕ → Pairs
pair_up [] _ = []
pair_up (_ ∷ _) [] = []
pair_up (k ∷ ks) (v ∷ vs) = (k, v) ∷ pair_up ks vs

-- `map.find(key)`
unfoldable pub find : Pairs → ℕ → Option ℕ
find [] key = none
find ((k, v) ∷ m) key = if key == k then some v else find m key

unfoldable pub normalize_ascii_letter : ℕ → ℕ
normalize_ascii_letter key = if between b'A' b'Z' key then key + 32 else key

abbrev pub bopomofo_keys : Pairs
bopomofo_keys =
    pair_up (codes "125890-qwertyuiopasdfghjkl;zxcvbnm,./ 6347")
      (codes "ㄅㄉㄓㄚㄞㄢㄦㄆㄊㄍㄐㄔㄗㄧㄛㄟㄣㄇㄋㄎㄑㄕㄘㄨㄜㄠㄤㄈㄌㄏㄒㄖㄙㄩㄝㄡㄥ ˊˇˋ˙")

unfoldable pub lookup_bopomofo_key : ℕ → Bool → Option ℕ
unfolding find normalize_ascii_letter
lookup_bopomofo_key key accept_uppercase =
    find bopomofo_keys (if accept_uppercase then normalize_ascii_letter key else key)

abbrev pub chewing_punctuation : Pairs
chewing_punctuation =
    pair_up (codes "[]{}'<:\">~!@#$%^&*()_+=\\|?,.;") (codes "「」『』、，：；。～！＠＃＄％︿＆＊（）—＋＝＼｜？，。；")

unfoldable pub lookup_chewing_punctuation_key : ℕ → Option ℕ
unfolding find
lookup_chewing_punctuation_key key = find chewing_punctuation key

abbrev pub microsoft_ctrl_punctuation : Pairs
microsoft_ctrl_punctuation = pair_up (codes "!',./;") (codes "！、，。？；")

unfoldable pub lookup_microsoft_ctrl_punctuation_key : ℕ → Option ℕ
unfolding find
lookup_microsoft_ctrl_punctuation_key key = find microsoft_ctrl_punctuation key
