-- ===== src/Text/Sampler.antt =====
-- `CaretPrefixSampler`, engine/src/context/caret_prefix_sampler.hpp: the text before the caret of the
-- focused widget, cut to a number of UTF-16 units.
pub mod Cuts
pub mod Window
use ime_fcitx.Prelude.{
  ℕ, ◌+◌, ◌-◌, ◌*◌, min, Bool, true, false, ◌&&◌, List, [], ◌∷◌, length, take, drop, ltb, ◌==◌,
  if◌then◌else◌,
}
use ime_fcitx.Text.Utf16.{is_high_surrogate, unit_at, splits_pair}

pub record Sampler : Type 0 where
  pub max_code_units : ℕ
  pub window_start : ℕ
  pub text_before_caret : List ℕ
  pub sampled : Bool
  pub usable : Bool

-- The constructor.
abbrev pub new : ℕ → Sampler
new limit = record {
  max_code_units = limit;
  window_start = 0;
  text_before_caret = [];
  sampled = false;
  usable = false;
}

-- The text less a high surrogate at its end, whose pair the caret cuts.
unfoldable pub trimmed : List ℕ → List ℕ
trimmed text =
    let last = length text - 1 in
    if ltb 0 (length text) && is_high_surrogate (unit_at text last) then take last text else text

-- The text up to the caret, or all of it when the caret is past its end.
unfoldable pub before_caret : List ℕ → ℕ → List ℕ
before_caret text caret = trimmed (take (min caret (length text)) text)

-- Where the window starts in the text before the caret.
unfoldable pub window : ℕ → List ℕ → ℕ
window limit text =
    let start = length text - limit in
    if ltb limit (length text) then if splits_pair text start then start + 1 else start else 0

unfoldable pub set_text : List ℕ → ℕ → Sampler → Sampler
set_text [] caret sampler = record sampler {
  text_before_caret = [];
  window_start = 0;
  sampled = false;
  usable = false;
}
set_text (unit ∷ units) caret sampler =
    let kept = before_caret (unit ∷ units) caret in
    let start = window sampler.max_code_units kept in
    record sampler {
      text_before_caret = drop start kept;
      window_start = start;
      sampled = true;
      usable = true;
    }
