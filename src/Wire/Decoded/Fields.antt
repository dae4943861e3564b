-- ===== src/Wire/Decoded/Fields.antt =====
-- What the readers of texts and of repeated fields promise, engine/src/protocol/protocol.cpp.
use ime_fcitx.Prelude.{
  ℕ, ◌≤◌, Bool, true, false, not, ◌||◌, List, ◌==◌, leb, leb→le, length, All, ◌≡◌, refl, arith,
  if◌then◌else◌,
}
use ime_fcitx.Wire.Messages.{
  max_utf8_string_bytes, PaddingEntry, CommitEntry, max_bopomofo_code_units,
}
use ime_fcitx.Wire.Reading.{read_each}
use ime_fcitx.Wire.Fields.{read_u8, read_u32, read_utf8, read_utf16, require_remaining, count_ok}
use ime_fcitx.Wire.Characters.{valid_scalar, valid_utf16, valid_utf8}
use ime_fcitx.Wire.Fields.{read_raw, read_u16, read_scalar}
use ime_fcitx.Wire.Entries.{
  read_padding_kind, read_padding_entry, read_padding, read_candidate_list, read_candidates,
  read_commit_rest, read_commit_entry, same_flag,
}
use ime_fcitx.Wire.Decode.{read_commit_entries}
use ime_fcitx.Wire.Results.{
  Gives, >>=-Gives, any-Gives, require-Gives, if-Gives, refuse-Gives, return-Gives, read_each-Gives,
}
use ime_fcitx.Wire.Decoded.Identifiers.{read_raw-Gives}

-- A text of UTF-16, not longer than the limit.
abbrev pub IsText : ℕ → List ℕ → Type 0
IsText limit value = (valid_utf16 value ≡ true) × (length value ≤ limit)

pub read_utf16-Gives : (limit : ℕ) → Gives (IsText limit) (read_utf16 limit)
unfolding read_utf16
read_utf16-Gives limit = any-Gives (IsText limit) read_u32 _ (λ count.
    require-Gives (IsText limit) (leb count limit) _ (λ fits.
      any-Gives (IsText limit) (require_remaining _) _ (λ room.
        >>=-Gives (λ value. All (λ unit. Unit) value × (length value ≡ count)) (IsText limit)
          (read_each count read_u16) _
          (read_each-Gives (λ unit. Unit) read_u16 (λ bytes rest a e. tt) count)
          (λ value read. require-Gives (IsText limit) (valid_utf16 value) _ (λ valid.
            return-Gives (IsText limit) value (
              valid,
              (let (any, size) = read in let below = leb→le count limit fits in rw size below),
            ))))))

-- A text of UTF-8, not longer than the limit of such texts.
abbrev pub IsUtf8 : List ℕ → Type 0
IsUtf8 value = (valid_utf8 value ≡ true) × (length value ≤ max_utf8_string_bytes)

pub read_utf8-Gives : Gives IsUtf8 read_utf8
unfolding read_utf8
read_utf8-Gives = any-Gives IsUtf8 read_u32 _ (λ size.
    require-Gives IsUtf8 (leb size max_utf8_string_bytes) _ (λ fits.
      >>=-Gives (λ value. length value ≡ size) IsUtf8 (read_raw size) _ (read_raw-Gives size)
        (λ value count. require-Gives IsUtf8 (valid_utf8 value) _ (λ valid.
          return-Gives IsUtf8 value
            (valid, (let below = leb→le size max_utf8_string_bytes fits in rw count below))))))

pub read_scalar-Gives : Gives (λ value. valid_scalar value ≡ true) read_scalar
unfolding read_scalar
read_scalar-Gives =
    any-Gives (λ value. valid_scalar value ≡ true) read_u32 _
      (λ value. require-Gives _ (valid_scalar value) _ (λ valid. return-Gives _ value valid))

-- A character, or the text of a syllable.
unfoldable pub IsPadding : PaddingEntry → Type 0
IsPadding entry =
    if entry.chosen
    then (valid_scalar entry.chosen_char ≡ true) × (not (entry.chosen_char == 0) ≡ true)
    else IsText max_bopomofo_code_units entry.bopomofo

read_padding_entry-Gives : Gives IsPadding read_padding_entry
unfolding read_padding_entry read_padding_kind IsPadding
read_padding_entry-Gives = any-Gives IsPadding read_u8 read_padding_kind (λ kind.
    if-Gives IsPadding (kind == 0) _ _
      (λ e.
        >>=-Gives (IsText max_bopomofo_code_units) IsPadding (read_utf16 max_bopomofo_code_units) _
          (read_utf16-Gives max_bopomofo_code_units)
          (λ bopomofo text. return-Gives IsPadding _ text))
      (λ e.
        if-Gives IsPadding (kind == 1) _ _
          (λ e.
            >>=-Gives (λ value. valid_scalar value ≡ true) IsPadding read_scalar _ read_scalar-Gives
              (λ chosen_char valid.
                require-Gives IsPadding (not (chosen_char == 0)) _
                  (λ nonzero. return-Gives IsPadding _ (valid, nonzero))))
          (λ e. refuse-Gives IsPadding)))

pub read_padding-Gives : Gives (All IsPadding) read_padding
unfolding read_padding count_ok
read_padding-Gives = any-Gives (All IsPadding) read_u32 _ (λ count.
    any-Gives (All IsPadding) (count_ok count 1) _ (λ room bytes rest a e.
      let (all, size) =
        read_each-Gives IsPadding read_padding_entry read_padding_entry-Gives count bytes rest a
          e in
      all))

abbrev pub Scalars : List ℕ → Type 0
Scalars = All (λ value. valid_scalar value ≡ true)

read_candidate_list-Gives : Gives Scalars read_candidate_list
unfolding read_candidate_list
read_candidate_list-Gives = any-Gives Scalars read_u32 _ (λ count.
    any-Gives Scalars (count_ok count 4) _ (λ room bytes rest a e.
      let (all, size) = read_each-Gives _ read_scalar read_scalar-Gives count bytes rest a e in
      all))

pub read_candidates-Gives : Gives (All Scalars) read_candidates
unfolding read_candidates
read_candidates-Gives = any-Gives (All Scalars) read_u32 _ (λ segments.
    any-Gives (All Scalars) (count_ok segments 4) _ (λ room bytes rest a e.
      let (all, size) =
        read_each-Gives Scalars read_candidate_list read_candidate_list-Gives segments bytes rest a
          e in
      all))

-- A character with its reading, which is missing for a literal and only then.
abbrev pub IsCommitEntry : CommitEntry → Type 0
IsCommitEntry entry =
    IsText 64 entry.reading
    × (valid_scalar entry.character ≡ true)
    × (not (entry.character == 0) ≡ true)
    × (entry.literal ≡ (length entry.reading == 0))

same_flag→eq : (a b : Bool) → same_flag a b ≡ true → a ≡ b
same_flag→eq true true h = refl
same_flag→eq true false h = absurd (cc)
same_flag→eq false true h = absurd (cc)
same_flag→eq false false h = refl

first_of_three : (a b c : Bool) → not (a || b || c) ≡ true → not a ≡ true
first_of_three true b c h = absurd (cc)
first_of_three false b c h = refl

read_commit_entry-Gives : Gives IsCommitEntry read_commit_entry
unfolding read_commit_entry read_commit_rest
read_commit_entry-Gives =
    >>=-Gives (IsText 64) IsCommitEntry (read_utf16 64) _ (read_utf16-Gives 64) (λ reading text.
      >>=-Gives (λ value. valid_scalar value ≡ true) IsCommitEntry read_scalar _ read_scalar-Gives
        (λ character valid. any-Gives IsCommitEntry read_u8 _ (λ manual.
          any-Gives IsCommitEntry read_u8 _ (λ literal.
            require-Gives IsCommitEntry
              (not (character == 0 || not (leb manual 1) || not (leb literal 1))) _
              (λ small.
                require-Gives IsCommitEntry (same_flag (not (literal == 0)) (length reading == 0)) _
                  (λ same. return-Gives IsCommitEntry _ (
                    text,
                    valid,
                    first_of_three (character == 0) _ _ small,
                    same_flag→eq (not (literal == 0)) (length reading == 0) same,
                  )))))))

-- At least one entry and at most 1024, of an answer that is not empty.
abbrev pub IsCommitOf : List ℕ → List CommitEntry → Type 0
IsCommitOf answer entries =
    All IsCommitEntry entries × (1 ≤ length entries) × (length entries ≤ 1024) × (1 ≤ length answer)

commit_size :
    (n m : ℕ) → not (n == 0 || not (leb n 1024) || m == 0) ≡ true → (1 ≤ n) × (n ≤ 1024) × (1 ≤ m)
commit_size n m h = ground arith

pub read_commit_entries-Gives :
    (answer : List ℕ) → Gives (IsCommitOf answer) (read_commit_entries answer)
unfolding read_commit_entries
read_commit_entries-Gives answer = any-Gives (IsCommitOf answer) read_u32 _ (λ count.
    any-Gives (IsCommitOf answer) (count_ok count 10) _ (λ room.
      require-Gives (IsCommitOf answer)
        (not (count == 0 || not (leb count 1024) || length answer == 0)) _
        (λ accepted bytes rest entries e.
          let (all, size) =
            read_each-Gives IsCommitEntry read_commit_entry read_commit_entry-Gives count bytes rest
              entries e in
          let (some_entry, few, answered) = commit_size count (length answer) accepted in
          rw size (all, some_entry, few, answered))))
