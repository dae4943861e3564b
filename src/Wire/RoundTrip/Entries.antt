-- ===== src/Wire/RoundTrip/Entries.antt =====
-- The repeated fields of engine/src/protocol/protocol.cpp are read back as they were written.
use ime_fcitx.Prelude.{
  ℕ, ◌^◌, ◌<◌, Bool, true, false, not, ◌||◌, some, List, [], ◌∷◌, map, ◌==◌, leb, length, All, ◌≡◌,
  refl, ap, ◌∙◌, arith, if◌then◌else◌,
}
use ime_fcitx.Wire.Messages.{
  PaddingEntry, CommitEntry, SessionStatus, max_repeated_fields, max_bopomofo_code_units,
}
use ime_fcitx.Wire.Reading.{
  Reader, Writer, ◌>>=◌, ◌>>◌, return, require, ◌<+>◌, provided, write_each, ReadsBack,
  >>=-ReadsBack, provided-ReadsBack,
}
use ime_fcitx.Wire.Fields.{
  u8, u64, flag, id, checked, text16, scalar, read_u8, read_u64, read_flag, read_id, read_utf16,
  read_scalar,
}
use ime_fcitx.Wire.Entries.{
  append_padding, append_candidate, append_candidate_list, append_candidates, append_session_status,
  append_commit_entry, same_flag, read_padding_kind, read_padding_entry, read_padding,
  read_candidate_list, read_candidates, read_session_status, read_commit_rest, read_commit_entry,
}
use ime_fcitx.Wire.RoundTrip.Fields.{
  >>=-pure-ReadsBack, some-ReadsBack, flag-ReadsBack, id-ReadsBack, u64-ReadsBack,
}
use ime_fcitx.Wire.RoundTrip.Repeats.{
  map_id, text16-ReadsBack, scalar-ReadsBack, repeated-ReadsBack,
}
use ime_fcitx.Wire.RoundTrip.Sizes.{
  append_padding-AtLeast, append_candidate-AtLeast, append_candidate_list-AtLeast,
}

abbrev pub Units : List ℕ → Type 0
Units = All (λ unit. unit < 65536)

-- The field of an entry that is not written is blank.
unfoldable pub canonical_padding : PaddingEntry → PaddingEntry
canonical_padding entry =
    if entry.chosen then record entry { bopomofo = [] } else record entry { chosen_char = 0 }

padding_entry-ReadsBack :
    (chosen : Bool) (bopomofo : List ℕ) (chosen_char : ℕ)
    → Units bopomofo
    → let entry : PaddingEntry = record {
      chosen = chosen;
      bopomofo = bopomofo;
      chosen_char = chosen_char;
    } in
      ReadsBack (append_padding entry) read_padding_entry (canonical_padding entry)
unfolding append_padding read_padding_entry read_padding_kind canonical_padding flag u8 read_u8
padding_entry-ReadsBack true bopomofo chosen_char h =
    let result : PaddingEntry = record {
      chosen = true;
      bopomofo = [];
      chosen_char = chosen_char;
    } in
    let after : ℕ → Reader PaddingEntry = λ c.
      require (not (c == 0)) >> return (record { chosen = true; bopomofo = []; chosen_char = c }) in
    >>=-ReadsBack (flag true) _ read_u8 read_padding_kind 1 result
      (some-ReadsBack (1 ∷ []) read_u8 1 (λ rest. refl))
      (provided-ReadsBack (not (chosen_char == 0)) (scalar chosen_char) (read_scalar >>= after)
        result
        (λ nonzero.
          >>=-pure-ReadsBack (scalar chosen_char) read_scalar after chosen_char result
            (scalar-ReadsBack chosen_char) (λ rest. rw nonzero refl)))
padding_entry-ReadsBack false bopomofo chosen_char h =
    >>=-ReadsBack (flag false) _ read_u8 read_padding_kind 0 _
      (some-ReadsBack (0 ∷ []) read_u8 0 (λ rest. refl))
      (>>=-pure-ReadsBack (text16 bopomofo max_bopomofo_code_units)
        (read_utf16 max_bopomofo_code_units) _ bopomofo _
        (text16-ReadsBack bopomofo max_bopomofo_code_units (omega arith) h) (λ rest. refl))

pub padding-ReadsBack :
    (padding : List PaddingEntry)
    → All (λ entry. Units entry.bopomofo) padding
    → ReadsBack
        (checked (length padding) max_repeated_fields <+> write_each append_padding padding)
        read_padding
        (map canonical_padding padding)
unfolding read_padding
padding-ReadsBack padding h =
    repeated-ReadsBack 1 (λ entry. Units entry.bopomofo) append_padding read_padding_entry
      canonical_padding padding max_repeated_fields (omega arith)
      (λ count remaining room. ground arith) append_padding-AtLeast h
      (λ entry units. padding_entry-ReadsBack entry.chosen entry.bopomofo entry.chosen_char units)

candidate-ReadsBack : (candidate : ℕ) → ReadsBack (append_candidate candidate) read_scalar candidate
unfolding append_candidate
candidate-ReadsBack candidate =
    provided-ReadsBack (not (candidate == 0)) (scalar candidate) read_scalar candidate
      (λ nonzero. scalar-ReadsBack candidate)

abbrev Anything : {A : Type 0} → A → Type 0
Anything a = Unit

anything : {A : Type 0} (items : List A) → All Anything items
anything [] = tt
anything (item ∷ items) = (tt, anything items)

candidate_list-ReadsBack :
    (list : List ℕ) → ReadsBack (append_candidate_list list) read_candidate_list list
unfolding append_candidate_list read_candidate_list
candidate_list-ReadsBack list bytes e rest =
    repeated-ReadsBack 4 Anything append_candidate read_scalar (λ candidate. candidate) list
      max_repeated_fields (omega arith) (λ count remaining room. ground arith)
      append_candidate-AtLeast (anything list) (λ candidate any. candidate-ReadsBack candidate)
      bytes e rest
    ∙ ap (λ xs. some (xs, rest)) (map_id list)

pub candidates-ReadsBack :
    (lists : List (List ℕ)) → ReadsBack (append_candidates lists) read_candidates lists
unfolding append_candidates read_candidates
candidates-ReadsBack lists bytes e rest =
    repeated-ReadsBack 4 Anything append_candidate_list read_candidate_list (λ list. list) lists
      max_repeated_fields (omega arith) (λ count remaining room. ground arith)
      append_candidate_list-AtLeast (anything lists) (λ list any. candidate_list-ReadsBack list)
      bytes e rest
    ∙ ap (λ xs. some (xs, rest)) (map_id lists)

pub session_status-ReadsBack :
    (value : SessionStatus)
    → length value.session_id ≡ 16
    → value.last_request_id < 2 ^ 64
    → ReadsBack (append_session_status value) read_session_status value
unfolding append_session_status read_session_status
session_status-ReadsBack value h k =
    >>=-ReadsBack (id value.session_id) _ read_id _ value.session_id value
      (id-ReadsBack value.session_id h)
      (>>=-ReadsBack (flag value.active) _ read_flag _ value.active value
        (flag-ReadsBack value.active)
        (>>=-ReadsBack (flag value.closing) _ read_flag _ value.closing value
          (flag-ReadsBack value.closing)
          (>>=-ReadsBack (flag value.engine_loaded) _ read_flag _ value.engine_loaded value
            (flag-ReadsBack value.engine_loaded)
            (>>=-pure-ReadsBack (u64 value.last_request_id) read_u64 _ value.last_request_id value
              (u64-ReadsBack value.last_request_id k) (λ rest. refl)))))

-- The number of a flag.
abbrev number : Bool → ℕ
number true = 1
number false = 0

number-ReadsBack : (b : Bool) → ReadsBack (flag b) read_u8 (number b)
unfolding flag u8 read_u8
number-ReadsBack true = some-ReadsBack (1 ∷ []) read_u8 1 (λ rest. refl)
number-ReadsBack false = some-ReadsBack (0 ∷ []) read_u8 0 (λ rest. refl)

number-flag : (b : Bool) → not (number b == 0) ≡ b
number-flag true = refl
number-flag false = refl

-- The flags of an entry are small.
flags-accepted :
    (zero manual literal : Bool)
    → not zero ≡ true
    → not (zero || not (leb (number manual) 1) || not (leb (number literal) 1)) ≡ true
flags-accepted true manual literal h = absurd (cc)
flags-accepted false true true h = refl
flags-accepted false true false h = refl
flags-accepted false false true h = refl
flags-accepted false false false h = refl

provided-<+>-ReadsBack :
    {B : Type 0} (c : Bool) (w v : Writer) (r : Reader B) (b : B)
    → (c ≡ true → ReadsBack (w <+> v) r b)
    → ReadsBack (provided c w <+> v) r b
provided-<+>-ReadsBack true w v r b h bytes e rest = h refl bytes e rest
provided-<+>-ReadsBack false w v r b h bytes e rest = absurd (cc)

-- The reader of an entry behind its reading.
commit_entry_rest-ReadsBack :
    (entry : CommitEntry)
    → same_flag entry.literal (length entry.reading == 0) ≡ true
    → ReadsBack
        (provided (not (entry.character == 0)) (scalar entry.character)
          <+> flag entry.manually_selected
          <+> flag entry.literal)
        (read_commit_rest entry.reading)
        entry
unfolding read_commit_rest
commit_entry_rest-ReadsBack entry same =
    provided-<+>-ReadsBack (not (entry.character == 0)) (scalar entry.character) _
      (read_commit_rest entry.reading) entry
      (λ nonzero.
        >>=-ReadsBack (scalar entry.character) _ read_scalar _ entry.character entry
          (scalar-ReadsBack entry.character)
          (>>=-ReadsBack (flag entry.manually_selected) _ read_u8 _ (number entry.manually_selected)
            entry (number-ReadsBack entry.manually_selected)
            (>>=-pure-ReadsBack (flag entry.literal) read_u8 _ (number entry.literal) entry
              (number-ReadsBack entry.literal)
              (λ rest.
                rw
                  (
                    flags-accepted (entry.character == 0) entry.manually_selected entry.literal
                        nonzero,
                    number-flag entry.literal,
                    number-flag entry.manually_selected,
                    same,
                  )
                  refl))))

pub commit_entry-ReadsBack :
    (entry : CommitEntry)
    → Units entry.reading
    → ReadsBack (append_commit_entry entry) read_commit_entry entry
unfolding append_commit_entry read_commit_entry
commit_entry-ReadsBack entry h =
    provided-ReadsBack (same_flag entry.literal (length entry.reading == 0)) _ read_commit_entry
      entry
      (λ same.
        >>=-ReadsBack (text16 entry.reading 64) _ (read_utf16 64) read_commit_rest entry.reading
          entry (text16-ReadsBack entry.reading 64 (omega arith) h)
          (commit_entry_rest-ReadsBack entry same))
