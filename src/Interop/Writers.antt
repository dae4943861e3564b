-- ===== src/Interop/Writers.antt =====
-- What the service writes is what the engine writes: ime-unix-service/src/pipe/protocol.cpp against
-- engine/src/protocol/protocol.cpp.
use ime_fcitx.Prelude.{
  ℕ, Bool, true, false, not, ◌||◌, Option, none, some, List, leb, ◌≡◌, refl, ap,
}
use mathlib.Core.Path.{fun_ext}
use ime_fcitx.Wire.Messages.{Message, ErrorCode, error_number}
use ime_fcitx.Wire.Reading.{Writer, provided}
use ime_fcitx.Wire
use ime_fcitx.Pipe
use ime_fcitx.Interop.Characters.{valid_scalar-same, valid_utf16-same, valid_utf8-same}
use ime_fcitx.Interop.Fields.{append_u16-same, append_u32-same, append_u64-same}

pub u8-same : Pipe.Fields.append_u8 ≡ Wire.Fields.u8
unfolding Pipe.Fields.append_u8 Wire.Fields.u8
u8-same = refl

flag_at : (b : Bool) → Pipe.Fields.append_flag b ≡ Wire.Fields.flag b
unfolding Pipe.Fields.append_flag Wire.Fields.flag Pipe.Fields.append_u8 Wire.Fields.u8
flag_at true = refl
flag_at false = refl

pub flag-same : Pipe.Fields.append_flag ≡ Wire.Fields.flag
flag-same = fun_ext flag_at

pub id-same : Pipe.Fields.append_id ≡ Wire.Fields.id
unfolding Pipe.Fields.append_id Wire.Fields.id
id-same = refl

pub type-same : Pipe.Fields.append_type ≡ Wire.Fields.type
unfolding Pipe.Fields.append_type Wire.Fields.type Pipe.Fields.append_u8 Wire.Fields.u8
type-same = refl

pub checked-same : Pipe.Fields.checked_size ≡ Wire.Fields.checked
unfolding Pipe.Fields.checked_size Wire.Fields.checked
checked-same = ap (λ u size limit. provided (leb size limit) (u size)) append_u32-same

pub text8-same : Pipe.Fields.append_utf8 ≡ Wire.Fields.text8
unfolding Pipe.Fields.append_utf8 Wire.Fields.text8
text8-same =
    fun_ext
      (λ value. rw (Pipe.Fields.append_utf8, Wire.Fields.text8, valid_utf8-same, checked-same) refl)

pub text16-same : Pipe.Fields.append_utf16 ≡ Wire.Fields.text16
unfolding Pipe.Fields.append_utf16 Wire.Fields.text16
text16-same = fun_ext (λ value. fun_ext (λ limit.
    rw
      (
        Pipe.Fields.append_utf16, Wire.Fields.text16, valid_utf16-same, checked-same,
        append_u16-same,
      )
      refl))

scalar-same : Pipe.Fields.append_scalar ≡ Wire.Fields.scalar
unfolding Pipe.Fields.append_scalar Wire.Fields.scalar
scalar-same = fun_ext (λ value.
    rw (Pipe.Fields.append_scalar, Wire.Fields.scalar, valid_scalar-same, append_u32-same) refl)

pub padding-same : Pipe.Entries.append_padding ≡ Wire.Entries.append_padding
unfolding Pipe.Entries.append_padding Wire.Entries.append_padding
padding-same = fun_ext (λ entry.
    rw
      (
        Pipe.Entries.append_padding, Wire.Entries.append_padding, flag-same, scalar-same,
        text16-same,
      )
      refl)

candidate-same : Pipe.Entries.append_candidate ≡ Wire.Entries.append_candidate
unfolding Pipe.Entries.append_candidate Wire.Entries.append_candidate
candidate-same = fun_ext (λ candidate.
    rw (Pipe.Entries.append_candidate, Wire.Entries.append_candidate, scalar-same) refl)

candidate_list-same : Pipe.Entries.append_candidate_list ≡ Wire.Entries.append_candidate_list
unfolding Pipe.Entries.append_candidate_list Wire.Entries.append_candidate_list
candidate_list-same = fun_ext (λ list.
    rw
      (
        Pipe.Entries.append_candidate_list, Wire.Entries.append_candidate_list, checked-same,
        candidate-same,
      )
      refl)

pub candidates-same : Pipe.Entries.append_candidates ≡ Wire.Entries.append_candidates
unfolding Pipe.Entries.append_candidates Wire.Entries.append_candidates
candidates-same = fun_ext (λ lists.
    rw
      (
        Pipe.Entries.append_candidates, Wire.Entries.append_candidates, checked-same,
        candidate_list-same,
      )
      refl)

session_status-same : Pipe.Entries.append_session_status ≡ Wire.Entries.append_session_status
unfolding Pipe.Entries.append_session_status Wire.Entries.append_session_status
session_status-same = fun_ext (λ value.
    rw
      (
        Pipe.Entries.append_session_status, Wire.Entries.append_session_status, id-same, flag-same,
        append_u64-same,
      )
      refl)

pub commit_entry-same : Pipe.Entries.append_commit_entry ≡ Wire.Entries.append_commit_entry
unfolding Pipe.Entries.append_commit_entry Wire.Entries.append_commit_entry
commit_entry-same = fun_ext (λ entry.
    rw
      (
        Pipe.Entries.append_commit_entry, Wire.Entries.append_commit_entry, text16-same,
        scalar-same, flag-same,
      )
      refl)

pub optional_id_at :
    (value : Option (List ℕ))
    → Pipe.Encode.append_optional_id value ≡ Wire.Encode.append_optional_id value
unfolding Pipe.Encode.append_optional_id Wire.Encode.append_optional_id
optional_id_at none = rw flag-same refl
optional_id_at (some session_id) = rw (flag-same, id-same) refl

pub optional_status_at :
    (value : Option Wire.Messages.SessionStatus)
    → Pipe.Encode.append_optional_status value ≡ Wire.Encode.append_optional_status value
unfolding Pipe.Encode.append_optional_status Wire.Encode.append_optional_status
optional_status_at none = rw flag-same refl
optional_status_at (some session) = rw (flag-same, session_status-same) refl

pub provided_and :
    (a b : Bool) (w : Writer) → provided (not a) (provided (not b) w) ≡ provided (not (a || b)) w
provided_and true b w = refl
provided_and false b w = refl
