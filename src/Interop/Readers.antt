-- ===== src/Interop/Readers.antt =====
-- What the service reads is what the engine reads: ime-unix-service/src/pipe/protocol.cpp against
-- engine/src/protocol/protocol.cpp.
use ime_fcitx.Prelude.{◌≡◌, refl}
use mathlib.Core.Path.{fun_ext}
use ime_fcitx.Wire
use ime_fcitx.Pipe
use ime_fcitx.Interop.Characters.{valid_scalar-same, valid_utf16-same, valid_utf8-same}
use ime_fcitx.Interop.Fields.{u8-same, u16-same, u32-same, u64-same}

pub flag-same : Pipe.Fields.flag ≡ Wire.Fields.read_flag
unfolding Pipe.Fields.flag Wire.Fields.read_flag
flag-same = fun_ext (λ bytes. rw (Pipe.Fields.flag, Wire.Fields.read_flag, u8-same) refl)

pub raw-same : Pipe.Fields.raw ≡ Wire.Fields.read_raw
unfolding Pipe.Fields.raw Wire.Fields.read_raw
raw-same = refl

pub id-same : Pipe.Fields.id ≡ Wire.Fields.read_id
unfolding Pipe.Fields.id Wire.Fields.read_id
id-same = fun_ext (λ bytes. rw (Pipe.Fields.id, Wire.Fields.read_id, raw-same) refl)

pub utf8-same : Pipe.Fields.utf8 ≡ Wire.Fields.read_utf8
unfolding Pipe.Fields.utf8 Wire.Fields.read_utf8
utf8-same = fun_ext (λ bytes.
    rw (Pipe.Fields.utf8, Wire.Fields.read_utf8, u32-same, raw-same, valid_utf8-same) refl)

pub require_remaining-same : Pipe.Fields.require_remaining ≡ Wire.Fields.require_remaining
unfolding Pipe.Fields.require_remaining Wire.Fields.require_remaining
require_remaining-same = refl

pub utf16-same : Pipe.Fields.utf16 ≡ Wire.Fields.read_utf16
unfolding Pipe.Fields.utf16 Wire.Fields.read_utf16
utf16-same = fun_ext (λ limit.
    rw
      (
        Pipe.Fields.utf16, Wire.Fields.read_utf16, u32-same, require_remaining-same, u16-same,
        valid_utf16-same,
      )
      refl)

scalar-same : Pipe.Fields.scalar ≡ Wire.Fields.read_scalar
unfolding Pipe.Fields.scalar Wire.Fields.read_scalar
scalar-same =
    fun_ext
      (λ bytes. rw (Pipe.Fields.scalar, Wire.Fields.read_scalar, u32-same, valid_scalar-same) refl)

type_of_code-same : Pipe.Fields.type_of_code ≡ Wire.Fields.type_of_code
unfolding Pipe.Fields.type_of_code Wire.Fields.type_of_code
type_of_code-same = refl

pub type-same : Pipe.Fields.read_type ≡ Wire.Fields.read_type
unfolding Pipe.Fields.read_type Wire.Fields.read_type
type-same =
    fun_ext
      (λ bytes. rw (Pipe.Fields.read_type, Wire.Fields.read_type, u8-same, type_of_code-same) refl)

pub count-same : Pipe.Fields.require_count ≡ Wire.Fields.count_ok
unfolding Pipe.Fields.require_count Wire.Fields.count_ok Pipe.Fields.require_remaining
    Wire.Fields.require_remaining
count-same = refl

padding_kind-same : Pipe.Entries.read_padding_kind ≡ Wire.Entries.read_padding_kind
unfolding Pipe.Entries.read_padding_kind Wire.Entries.read_padding_kind
padding_kind-same = fun_ext (λ kind.
    rw (Pipe.Entries.read_padding_kind, Wire.Entries.read_padding_kind, utf16-same, scalar-same)
      refl)

padding_entry-same : Pipe.Entries.read_padding_entry ≡ Wire.Entries.read_padding_entry
unfolding Pipe.Entries.read_padding_entry Wire.Entries.read_padding_entry
padding_entry-same = fun_ext (λ bytes.
    rw
      (Pipe.Entries.read_padding_entry, Wire.Entries.read_padding_entry, u8-same, padding_kind-same)
      refl)

pub padding-same : Pipe.Entries.read_padding ≡ Wire.Entries.read_padding
unfolding Pipe.Entries.read_padding Wire.Entries.read_padding
padding-same = fun_ext (λ bytes.
    rw
      (
        Pipe.Entries.read_padding, Wire.Entries.read_padding, u32-same, count-same,
        padding_entry-same,
      )
      refl)

candidate_list-same : Pipe.Entries.read_candidate_list ≡ Wire.Entries.read_candidate_list
unfolding Pipe.Entries.read_candidate_list Wire.Entries.read_candidate_list
candidate_list-same = fun_ext (λ bytes.
    rw
      (
        Pipe.Entries.read_candidate_list, Wire.Entries.read_candidate_list, u32-same, count-same,
        scalar-same,
      )
      refl)

pub candidates-same : Pipe.Entries.read_candidates ≡ Wire.Entries.read_candidates
unfolding Pipe.Entries.read_candidates Wire.Entries.read_candidates
candidates-same = fun_ext (λ bytes.
    rw
      (
        Pipe.Entries.read_candidates, Wire.Entries.read_candidates, u32-same, count-same,
        candidate_list-same,
      )
      refl)

pub session_status-same : Pipe.Entries.read_session_status ≡ Wire.Entries.read_session_status
unfolding Pipe.Entries.read_session_status Wire.Entries.read_session_status
session_status-same = fun_ext (λ bytes.
    rw
      (
        Pipe.Entries.read_session_status, Wire.Entries.read_session_status, id-same, flag-same,
        u64-same,
      )
      refl)

commit_rest-same : Pipe.Entries.read_commit_rest ≡ Wire.Entries.read_commit_rest
unfolding Pipe.Entries.read_commit_rest Wire.Entries.read_commit_rest
commit_rest-same = fun_ext (λ reading.
    rw (Pipe.Entries.read_commit_rest, Wire.Entries.read_commit_rest, scalar-same, u8-same) refl)

pub commit_entry-same : Pipe.Entries.read_commit_entry ≡ Wire.Entries.read_commit_entry
unfolding Pipe.Entries.read_commit_entry Wire.Entries.read_commit_entry
commit_entry-same = fun_ext (λ bytes.
    rw
      (Pipe.Entries.read_commit_entry, Wire.Entries.read_commit_entry, utf16-same, commit_rest-same)
      refl)
