-- ===== src/Wire/RoundTrip/Sizes.antt =====
-- How many bytes a field takes at least, engine/src/protocol/protocol.cpp.
use ime_fcitx.Prelude.{
  ℕ, ◌+◌, ◌≤◌, Bool, true, false, some, List, [], ◌∷◌, length, length-append, ◌≡◌, arith,
}
use ime_fcitx.Wire.Messages.{PaddingEntry, CommitEntry, max_repeated_fields}
use ime_fcitx.Wire.Reading.{Writer, ◌<+>◌, provided, <+>-some}
use ime_fcitx.Wire.Fields.{u8, u32, flag, checked, text16, scalar, low_bytes}
use ime_fcitx.Wire.Entries.{
  append_padding, append_candidate, append_candidate_list, append_commit_entry,
}

-- The writer refuses or writes so many bytes at least.
abbrev pub AtLeast : ℕ → Writer → Type 0
AtLeast m w = (bytes : List ℕ) → w ≡ some bytes → m ≤ length bytes

module _ (m n : ℕ) (w v : Writer) where
  <+>-AtLeast : AtLeast m w → AtLeast n v → AtLeast (m + n) (w <+> v)
  <+>-AtLeast h k bytes e =
      let (xs, ys, ex, ey, same) = <+>-some w v e in
      let front = h xs ex in
      let back = k ys ey in let sum = length-append xs ys in rw (same, sum) (omega arith)

provided-AtLeast : (m : ℕ) (c : Bool) (w : Writer) → AtLeast m w → AtLeast m (provided c w)
provided-AtLeast m true w h bytes e = h bytes e
provided-AtLeast m false w h bytes e = absurd (cc)

some-AtLeast : (xs : List ℕ) → AtLeast (length xs) (some xs)
some-AtLeast xs bytes e = let same : xs ≡ bytes = cc in rw (← same) (omega arith)

any-AtLeast : (w : Writer) → AtLeast 0 w
any-AtLeast w bytes e = omega arith

flag-AtLeast : (b : Bool) → AtLeast 1 (flag b)
unfolding flag u8
flag-AtLeast true = some-AtLeast (1 ∷ [])
flag-AtLeast false = some-AtLeast (0 ∷ [])

u32-AtLeast : (value : ℕ) → AtLeast 4 (u32 value)
unfolding u32 low_bytes
u32-AtLeast value = some-AtLeast (low_bytes 4 value)

checked-AtLeast : (size limit : ℕ) → AtLeast 4 (checked size limit)
unfolding checked
checked-AtLeast size limit = provided-AtLeast 4 _ (u32 size) (u32-AtLeast size)

scalar-AtLeast : (value : ℕ) → AtLeast 4 (scalar value)
unfolding scalar
scalar-AtLeast value = provided-AtLeast 4 _ (u32 value) (u32-AtLeast value)

text16-AtLeast : (value : List ℕ) (limit : ℕ) → AtLeast 4 (text16 value limit)
unfolding text16
text16-AtLeast value limit = provided-AtLeast 4 _ _ (
    <+>-AtLeast 4 0 (checked (length value) limit) _ (checked-AtLeast (length value) limit)
      (any-AtLeast _))

pub append_padding-AtLeast : (entry : PaddingEntry) → AtLeast 1 (append_padding entry)
unfolding append_padding
append_padding-AtLeast entry =
    <+>-AtLeast 1 0 (flag entry.chosen) _ (flag-AtLeast entry.chosen) (any-AtLeast _)

pub append_candidate-AtLeast : (candidate : ℕ) → AtLeast 4 (append_candidate candidate)
unfolding append_candidate
append_candidate-AtLeast candidate =
    provided-AtLeast 4 _ (scalar candidate) (scalar-AtLeast candidate)

pub append_candidate_list-AtLeast : (list : List ℕ) → AtLeast 4 (append_candidate_list list)
unfolding append_candidate_list
append_candidate_list-AtLeast list =
    <+>-AtLeast 4 0 (checked (length list) max_repeated_fields) _
      (checked-AtLeast (length list) max_repeated_fields) (any-AtLeast _)

pub append_commit_entry-AtLeast : (entry : CommitEntry) → AtLeast 10 (append_commit_entry entry)
unfolding append_commit_entry
append_commit_entry-AtLeast entry = provided-AtLeast 10 _ _ (
    <+>-AtLeast 4 6 (text16 entry.reading 64) _ (text16-AtLeast entry.reading 64) (
      <+>-AtLeast 4 2 _ _
        (provided-AtLeast 4 _ (scalar entry.character) (scalar-AtLeast entry.character))
        (<+>-AtLeast 1 1 (flag entry.manually_selected) (flag entry.literal)
          (flag-AtLeast entry.manually_selected) (flag-AtLeast entry.literal))))
