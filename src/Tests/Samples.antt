-- ===== src/Tests/Samples.antt =====
-- Buffers and syllables for the tests.
use Prim.Native.Char.{code}
use ime_fcitx.Prelude.{refl, true, some, none, [], ◌∷◌, arith, inl, inr}
use ime_fcitx.Prelude.{contains}
use ime_fcitx.Bopomofo.Symbols.{
  is_bopomofo_initial, is_bopomofo_medial, is_bopomofo_final, is_bopomofo_tone,
}
use ime_fcitx.Bopomofo.Syllable
use ime_fcitx.Bopomofo.Syllable.{Syllable}
use ime_fcitx.Bopomofo.Syllable.Slots.{IsWellFormed}
use ime_fcitx.Composition.Segment.{Segment, blank}
use ime_fcitx.Composition.Buffer.{Buffer}
use ime_fcitx.Composition.Validity.{IsValidSegment, IsValidBuffer}

-- ㄋㄧˇ
abbrev pub ni3 : Syllable
ni3 = record { initial = code "ㄋ"; medial = code "ㄧ"; final = 0; tone = code "ˇ" }

-- ㄏㄠ, with no tone yet
abbrev pub hao : Syllable
hao = record { initial = code "ㄏ"; medial = 0; final = code "ㄠ"; tone = 0 }

abbrev pub ni : Segment
ni = record blank {
  syllable = ni3;
  candidates = code "你" ∷ code "妳" ∷ [];
  reading_finalized = true;
}

abbrev pub letter : Segment
letter = record blank { literal = code "A" }

abbrev pub typing : Segment
typing = record blank { syllable = hao }

-- A|你ㄏㄠ and the caret behind all three
abbrev pub three : Buffer
three = record {
  segments = letter ∷ ni ∷ typing ∷ [];
  caret = 3;
  revision = 7;
  last_edited_segment = some 2;
  selection_anchor = none;
}

pub ni3-IsWellFormed : IsWellFormed ni3
unfolding is_bopomofo_initial is_bopomofo_medial is_bopomofo_final is_bopomofo_tone contains
ni3-IsWellFormed = record {
  initial_class = inr refl;
  medial_class = inr refl;
  final_class = inl refl;
  tone_class = inr refl;
}

hao-IsWellFormed : IsWellFormed hao
unfolding is_bopomofo_initial is_bopomofo_medial is_bopomofo_final is_bopomofo_tone contains
hao-IsWellFormed = record {
  initial_class = inr refl;
  medial_class = inl refl;
  final_class = inr refl;
  tone_class = inl refl;
}

blank-IsWellFormed : IsWellFormed Syllable.new
blank-IsWellFormed = record {
  initial_class = inl refl;
  medial_class = inl refl;
  final_class = inl refl;
  tone_class = inl refl;
}

letter-IsValidSegment : IsValidSegment letter
letter-IsValidSegment = record {
  well_formed = blank-IsWellFormed;
  not_blank = inl (omega arith);
  selection = inl refl;
  finalized = λ h. cc;
  pinned = λ h. cc;
}

pub ni-IsValidSegment : IsValidSegment ni
unfolding Syllable.empty Syllable.complete
ni-IsValidSegment = record {
  well_formed = ni3-IsWellFormed;
  not_blank = inr refl;
  selection = inl refl;
  finalized = λ h. refl;
  pinned = λ h. cc;
}

typing-IsValidSegment : IsValidSegment typing
unfolding Syllable.empty
typing-IsValidSegment = record {
  well_formed = hao-IsWellFormed;
  not_blank = inr refl;
  selection = inl refl;
  finalized = λ h. cc;
  pinned = λ h. cc;
}

pub three-IsValidBuffer : IsValidBuffer three
three-IsValidBuffer = record {
  caret_bound = omega arith;
  anchor_bound = omega arith;
  edited_bound = omega arith;
  each = (letter-IsValidSegment, (ni-IsValidSegment, (typing-IsValidSegment, tt)));
}
