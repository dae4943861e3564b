-- ===== src/Text/Sampler/Window.antt =====
-- What `CaretPrefixSampler::set_text` of engine/src/context/caret_prefix_sampler.hpp keeps of the text.
use ime_fcitx.Prelude.{
  ℕ, ◌+◌, ◌-◌, ◌≤◌, min, true, none, some, List, [], ◌∷◌, ◌≡◌, ◌≢◌, refl, ap, ◌∙◌, length, take,
  drop, All, arith,
}
use ime_fcitx.Text.Utf16.{u16_to_utf8}
use ime_fcitx.Text.Utf16.{IsUnit}
use ime_fcitx.Text.Utf16.Paired.{
  well_paired, empty_paired, u16_to_utf8-well_paired, well_paired-u16_to_utf8,
}
use ime_fcitx.Text.Utf16.Tail.{All-drop, length-drop}
use ime_fcitx.Text.Sampler.{Sampler, window, set_text}
use ime_fcitx.Text.Sampler.Cuts.{length-take, window_cut, before_caret_cut, All-take}

sample_of :
    (text : List ℕ) (end caret limit : ℕ)
    → All IsUnit text
    → well_paired (take end text) ≡ true
    → end ≤ length text
    → end ≤ caret
    → min caret (length text) ≤ end + 1
    → let start = window limit (take end text) in
      let sample = drop start (take end text) in
      (u16_to_utf8 sample ≢ none)
      × (sample ≡ drop start (take (start + length sample) text))
      × (length sample ≤ limit)
      × (start + length sample ≤ caret)
      × (min caret (length text) ≤ start + length sample + 1)
      × (min limit (start + length sample) ≤ length sample + 1)
sample_of text end caret limit units paired inside before near =
    let kept = take end text in
    let start = window limit kept in
    let (whole, low, high, most) = window_cut limit kept paired in
    let all : length kept ≡ end = length-take end text ∙ omega arith in
    let size : length (drop start kept) ≡ length kept - start = length-drop start kept in
    let stop : end ≡ start + length (drop start kept) = omega arith in
    (
      well_paired-u16_to_utf8 (drop start kept) (All-drop start kept (All-take end text units))
          whole,
      ap (λ n. drop start (take n text)) stop,
      omega arith,
      omega arith,
      omega arith,
      omega arith,
    )

-- After `set_text` with a text that can be written as UTF-8, the sample can be written as UTF-8 too. It
-- is the part of the text from the window's start on, within the bound, and it ends at the caret or
-- one unit before it. It has all the units up to there, or as many as the bound, or one less than that.
pub set_text_window :
    (text : List ℕ) (caret : ℕ) (sampler : Sampler) {bytes : List ℕ}
    → All IsUnit text
    → u16_to_utf8 text ≡ some bytes
    → let after = set_text text caret sampler in
      let size = length after.text_before_caret in
      (u16_to_utf8 after.text_before_caret ≢ none)
      × (after.text_before_caret ≡ drop after.window_start (take (after.window_start + size) text))
      × (size ≤ sampler.max_code_units)
      × (after.window_start + size ≤ caret)
      × (min caret (length text) ≤ after.window_start + size + 1)
      × (min sampler.max_code_units (after.window_start + size) ≤ size + 1)
unfolding set_text
set_text_window [] caret sampler units e = (
  well_paired-u16_to_utf8 [] units empty_paired,
  refl,
  omega arith,
  omega arith,
  omega arith,
  omega arith,
)
set_text_window (u ∷ us) caret sampler units e =
    let (end, cut, paired, inside, before, near) =
      before_caret_cut (u ∷ us) caret (u16_to_utf8-well_paired (u ∷ us) e) in
    rw cut (sample_of (u ∷ us) end caret sampler.max_code_units units paired inside before near)
