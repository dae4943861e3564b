-- ===== src/Tests/Bopomofo.antt =====
-- The bopomofo theorems at concrete inputs.
use Prim.Native.Char.{code}
use ime_fcitx.Prelude.{ℕ, ◌≡◌, refl, true, false, some, codes, contains}
use ime_fcitx.Bopomofo.Symbols.{
  is_bopomofo_initial, is_bopomofo_medial, is_bopomofo_final, is_bopomofo_tone,
}
use ime_fcitx.Bopomofo.Syllable
use ime_fcitx.Bopomofo.Syllable.{Syllable, accept, pop_back, text}
use ime_fcitx.Bopomofo.Syllable.Slots.{new-IsWellFormed}
use ime_fcitx.Bopomofo.Syllable.Reading.{accept_all, accept_all-text}
use ime_fcitx.Bopomofo.Standard.{find, lookup_bopomofo_key}
use ime_fcitx.Bopomofo.Standard.Bijection.{lookup_bopomofo_key-surjective}
use ime_fcitx.Bopomofo.Hsu.{
  apply_hsu_key, is_hsu_end_key, hsu_symbol, hsu_enter, hsu_end_key, hsu_result,
  normalize_singleton, convert_ge, retract_initial, palatalize_initial, hsu_alternative_readings,
}
use ime_fcitx.Bopomofo.Hsu.Completion.{HsuOutcome, new-IsOpen, apply_hsu_key_outcome}
use ime_fcitx.Bopomofo.Keymap.{standard, hsu, apply_bopomofo_key}
use ime_fcitx.Bopomofo.Keymap.Dispatch.{KeyOutcome, apply_bopomofo_key_outcome}
use ime_fcitx.Tests.Samples.{ni3, ni3-IsWellFormed}

accept_all-text_example : accept_all Syllable.new (text ni3) ≡ (ni3, true)
accept_all-text_example = accept_all-text ni3 ni3-IsWellFormed

abbrev ni_ : Syllable
ni_ = record ni3 { tone = 0 }

lookup_bopomofo_key-surjective_example : (k : ℕ) × (lookup_bopomofo_key k false ≡ some (code "ㄩ"))
unfolding is_bopomofo_initial is_bopomofo_medial contains
lookup_bopomofo_key-surjective_example = lookup_bopomofo_key-surjective (code "ㄩ") refl

apply_hsu_key_outcome_example : HsuOutcome Syllable.new (apply_hsu_key Syllable.new b'j')
apply_hsu_key_outcome_example = apply_hsu_key_outcome Syllable.new b'j' new-IsOpen

apply_bopomofo_key_outcome_example :
    KeyOutcome Syllable.new (apply_bopomofo_key Syllable.new standard b'U' true)
apply_bopomofo_key_outcome_example =
    apply_bopomofo_key_outcome Syllable.new new-IsWellFormed standard b'U' true

-- "je" and an end key type ㄐㄧˊ on the Hsu layout.
hsu_word :
    text
      (apply_bopomofo_key
        (apply_bopomofo_key (apply_bopomofo_key Syllable.new hsu b'j' true).0 hsu b'e' true).0
        hsu
        b'd'
        true).0
    ≡ codes "ㄐㄧˊ"
unfolding text apply_bopomofo_key apply_hsu_key is_hsu_end_key hsu_symbol hsu_enter hsu_end_key
    hsu_result normalize_singleton convert_ge retract_initial palatalize_initial
    hsu_alternative_readings Syllable.overwrite Syllable.remove_initial Syllable.complete
    Syllable.empty is_bopomofo_initial is_bopomofo_medial is_bopomofo_final is_bopomofo_tone
    contains ime_fcitx.Bopomofo.Standard.normalize_ascii_letter
hsu_word = refl
