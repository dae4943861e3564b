-- ===== src/Input/Keypad.antt =====
-- Keysyms of digits, the keypad and return, engine/src/input/keypad.cpp.
use Prim.Native.Char.{code}
use ime_fcitx.Prelude.{
  ℕ, ◌+◌, ◌-◌, ◌≡◌, ◌<◌, Bool, true, ◌||◌, Option, none, some, ◌==◌, if◌then◌else◌, between, arith,
}

unfoldable pub keypad_operator_keysym : ℕ → Option ℕ
keypad_operator_keysym keysym =
    if keysym == 0xffae
    then some (code ".")
    else if keysym == 0xffac
    then some (code ",")
    else if keysym == 0xffab
    then some (code "+")
    else if keysym == 0xffad
    then some (code "-")
    else if keysym == 0xffaa
    then some (code "*")
    else if keysym == 0xffaf
    then some (code "/")
    else if keysym == 0xffbd
    then some (code "=")
    else none

unfoldable pub is_ascii_digit_keysym : ℕ → Bool
is_ascii_digit_keysym keysym = between b'0' b'9' keysym

unfoldable pub keypad_digit_keysym : ℕ → Option ℕ
keypad_digit_keysym keysym =
    if between 0xffb0 0xffb9 keysym then some (b'0' + (keysym - 0xffb0)) else none

-- `none` stands for -1.
unfoldable pub ascii_digit_selection_index : ℕ → Option ℕ
ascii_digit_selection_index keysym =
    if between b'1' b'9' keysym
    then some (keysym - b'1')
    else if keysym == b'0'
    then some 9
    else none

unfoldable pub is_return_keysym : ℕ → Bool
is_return_keysym keysym = keysym == 0xff0d || keysym == 0xff8d

-- The ten digits choose the ten rows of a page, each its own, and no other key chooses one.
pub ascii_digit_selection_index-injective :
    (j k i : ℕ)
    → ascii_digit_selection_index j ≡ some i
    → ascii_digit_selection_index k ≡ some i
    → (j ≡ k) × (i < 10) × (is_ascii_digit_keysym j ≡ true)
unfolding ascii_digit_selection_index is_ascii_digit_keysym
ascii_digit_selection_index-injective j k i h h' = ground arith
