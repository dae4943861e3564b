-- ===== src/Bopomofo/Keymap.antt =====
-- `apply_bopomofo_key` of engine/src/bopomofo/keymap.cpp: one key on either layout.
pub mod Dispatch
use ime_fcitx.Prelude.{ℕ, Bool, true, false, ◌&&◌, ◌||◌, Option, none, some, [], between}
use ime_fcitx.Prelude.{if◌then◌else◌}
use ime_fcitx.Bopomofo.Symbols.{is_bopomofo_tone}
use ime_fcitx.Bopomofo.Syllable.{Syllable, complete, accept, overwrite}
use ime_fcitx.Bopomofo.Standard.{normalize_ascii_letter, lookup_bopomofo_key}
use ime_fcitx.Bopomofo.Hsu.{
  KeyStatus, rejected, composing, completed, KeyResult, no_result, apply_hsu_key,
}

pub data KeyboardLayout : Type 0 where
  standard hsu : KeyboardLayout

-- `candidate.accept(symbol) || candidate.overwrite(symbol)`
unfoldable pub accept_or_overwrite : Syllable → ℕ → Syllable × Bool
accept_or_overwrite s symbol =
    let (s', fine) = accept s symbol in if fine then (s', true) else overwrite s' symbol

unfoldable pub apply_standard_key : Syllable → ℕ → Bool → Syllable × KeyResult
unfolding accept_or_overwrite
apply_standard_key s key accept_uppercase = elim (lookup_bopomofo_key key accept_uppercase) [
  | none ↦ (s, no_result)
  | some symbol ↦
      let (s', fine) = accept_or_overwrite s symbol in
      if fine
      then (
        s',
        record {
          status = if is_bopomofo_tone symbol && complete s' then completed else composing;
          alternative_readings = [];
        },
      )
      else (s', no_result)
]

abbrev is_rejected : KeyStatus → Bool
is_rejected rejected = true
is_rejected _ = false

-- The syllable is replaced by the changed copy where the key is not rejected.
abbrev adopt : Syllable → Syllable × KeyResult → Syllable × KeyResult
adopt s (candidate, result) = if is_rejected result.status then (s, result) else (candidate, result)

abbrev dispatch_key : KeyboardLayout → Syllable → ℕ → Bool → Syllable × KeyResult
dispatch_key standard s key accept_uppercase = apply_standard_key s key accept_uppercase
dispatch_key hsu s key accept_uppercase = apply_hsu_key s key

unfoldable pub apply_bopomofo_key : Syllable → KeyboardLayout → ℕ → Bool → Syllable × KeyResult
apply_bopomofo_key s layout key accept_uppercase =
    if accept_uppercase
    then adopt s (dispatch_key layout s (normalize_ascii_letter key) accept_uppercase)
    else if between b'A' b'Z' key
    then (s, no_result)
    else adopt s (dispatch_key layout s key accept_uppercase)
