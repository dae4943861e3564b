-- ===== src/Interop/Decode.antt =====
-- What the service decodes is what the engine decodes: ime-unix-service/src/pipe/protocol.cpp against
-- engine/src/protocol/protocol.cpp.
use ime_fcitx.Prelude.{
  ℕ, ◌/◌, Bool, true, false, not, ◌&&◌, ◌||◌, Option-cases, none, List, [], ◌∷◌, ◌==◌, leb, length,
  ◌≡◌, refl, ap, ◌∙◌, arith, inl, inr,
}
use mathlib.Core.Path.{fun_ext, ap₂}
use ime_fcitx.Wire.Messages.{Message, MessageType, CommitEntry}
use ime_fcitx.Wire.Messages.{
  open_session, predict, prediction, close_session, status, shutdown, error, record_commit,
  discard_commit,
}
use ime_fcitx.Wire.Reading.{Reader, ◌>>=◌, ◌>>◌, require, read_each}
use ime_fcitx.Wire
use ime_fcitx.Pipe
use ime_fcitx.Interop.Fields.{u8-same, u32-same, u64-same}
use ime_fcitx.Interop.Readers.{
  flag-same, id-same, utf8-same, utf16-same, type-same, require_remaining-same, padding-same,
  candidates-same, session_status-same, commit_entry-same,
}
use ime_fcitx.Interop.Consumption.{read_each-Consumes, read_commit_entry-Consumes}

done_at :
    {A : Type 0} (a : A) (bytes : List ℕ)
    → Pipe.Fields.require_done a bytes ≡ Wire.Fields.done a bytes
unfolding Pipe.Fields.require_done Wire.Fields.done
done_at a [] = refl
done_at a (byte ∷ bytes) = refl

done-same : Pipe.Fields.require_done {A = Message} ≡ Wire.Fields.done {A = Message}
done-same = fun_ext (λ a. fun_ext (done_at a))

optional_at :
    {A : Type 0} (r : Reader A) (present : Bool)
    → Pipe.Decode.read_optional r present ≡ Wire.Decode.read_optional r present
unfolding Pipe.Decode.read_optional Wire.Decode.read_optional
optional_at r true = refl
optional_at r false = refl

optional-same : {A : Type 0} → Pipe.Decode.read_optional {A = A} ≡ Wire.Decode.read_optional {A = A}
optional-same = fun_ext (λ r. fun_ext (optional_at r))

error_of_number-same : Pipe.Decode.error_of_number ≡ Wire.Decode.error_of_number
unfolding Pipe.Decode.error_of_number Wire.Decode.error_of_number
error_of_number-same = refl

-- Entries that the engine's bound on their number refuses do not fit into what is left.
too_many_entries :
    (count : ℕ) (bytes : List ℕ)
    → leb count 1024 ≡ true
    → (leb count 65536 && (10 == 0 || leb count (length bytes / 10))) ≡ false
    → read_each count Wire.Entries.read_commit_entry bytes ≡ none
too_many_entries count bytes few refused =
    elim (Option-cases (read_each count Wire.Entries.read_commit_entry bytes)) [
      | inl e ↦ e
      | inr ((entries, rest), e) ↦
          let taken =
            read_each-Consumes 10 Wire.Entries.read_commit_entry read_commit_entry-Consumes count
              bytes rest entries e in
          absurd (ground arith)
    ]

-- A test in front that only refuses what is refused behind it.
skipped_test :
    {A : Type 0} (c d : Bool) (r : Reader A) (bytes : List ℕ)
    → (c ≡ true → d ≡ false → r bytes ≡ none)
    → (require c >> r) bytes ≡ (require d >> (require c >> r)) bytes
skipped_test c true r bytes h = refl
skipped_test true false r bytes h = h refl refl
skipped_test false false r bytes h = refl

middle_test : (a b c : Bool) → not (a || not b || c) ≡ true → b ≡ true
middle_test a true c h = refl
middle_test true false c h = absurd (cc)
middle_test false false c h = absurd (cc)

-- What follows the number of the entries, with the engine's bound on it and without.
entries_at :
    (answer : List ℕ) (count : ℕ) (bytes : List ℕ)
    → (require (not (count == 0 || not (leb count 1024) || length answer == 0))
          >> read_each count Wire.Entries.read_commit_entry)
        bytes
      ≡ (Wire.Fields.count_ok count 10
            >> (require (not (count == 0 || not (leb count 1024) || length answer == 0))
                >> read_each count Wire.Entries.read_commit_entry))
          bytes
unfolding Wire.Fields.count_ok Wire.Fields.require_remaining
entries_at answer count bytes =
    let accepted = not (count == 0 || not (leb count 1024) || length answer == 0) in
    let room = leb count 65536 && (10 == 0 || leb count (length bytes / 10)) in
    skipped_test accepted room (read_each count Wire.Entries.read_commit_entry) bytes
      (λ yes refused.
        too_many_entries count bytes
          (middle_test (count == 0) (leb count 1024) (length answer == 0) yes) refused)

commit_entries_at :
    (answer : List ℕ)
    → Pipe.Decode.read_commit_entries answer ≡ Wire.Decode.read_commit_entries answer
unfolding Pipe.Decode.read_commit_entries Wire.Decode.read_commit_entries
commit_entries_at answer =
    let later : (count : ℕ) → _ = λ count. fun_ext (entries_at answer count) in
    rw (u32-same, commit_entry-same) (ap (λ f. Wire.Fields.read_u32 >>= f) (fun_ext later))

commit_entries-same : Pipe.Decode.read_commit_entries ≡ Wire.Decode.read_commit_entries
commit_entries-same = fun_ext commit_entries_at

decode_open_session-same : Pipe.Decode.decode_open_session ≡ Wire.Decode.decode_open_session
unfolding Pipe.Decode.decode_open_session Wire.Decode.decode_open_session
decode_open_session-same = fun_ext (λ kind.
    rw (Pipe.Decode.decode_open_session, Wire.Decode.decode_open_session, id-same, done-same) refl)

decode_predict-same : Pipe.Decode.decode_predict ≡ Wire.Decode.decode_predict
unfolding Pipe.Decode.decode_predict Wire.Decode.decode_predict
decode_predict-same = fun_ext (λ bytes.
    rw
      (
        Pipe.Decode.decode_predict, Wire.Decode.decode_predict, id-same, u64-same, utf16-same,
        padding-same, done-same,
      )
      refl)

decode_prediction-same : Pipe.Decode.decode_prediction ≡ Wire.Decode.decode_prediction
unfolding Pipe.Decode.decode_prediction Wire.Decode.decode_prediction
decode_prediction-same = fun_ext (λ bytes.
    rw
      (
        Pipe.Decode.decode_prediction, Wire.Decode.decode_prediction, id-same, u64-same,
        candidates-same, done-same,
      )
      refl)

decode_close_session-same : Pipe.Decode.decode_close_session ≡ Wire.Decode.decode_close_session
unfolding Pipe.Decode.decode_close_session Wire.Decode.decode_close_session
decode_close_session-same = fun_ext (λ kind.
    rw
      (
        Pipe.Decode.decode_close_session, Wire.Decode.decode_close_session, id-same, flag-same,
        done-same,
      )
      refl)

decode_status-same : Pipe.Decode.decode_status ≡ Wire.Decode.decode_status
unfolding Pipe.Decode.decode_status Wire.Decode.decode_status
decode_status-same = fun_ext (λ kind.
    rw
      (
        Pipe.Decode.decode_status,
        Wire.Decode.decode_status,
        id-same,
        flag-same,
        u32-same,
        session_status-same,
        optional-same {A = List ℕ},
        optional-same {A = Wire.Messages.SessionStatus},
        done-same,
      )
      refl)

decode_shutdown-same : Pipe.Decode.decode_shutdown ≡ Wire.Decode.decode_shutdown
unfolding Pipe.Decode.decode_shutdown Wire.Decode.decode_shutdown
decode_shutdown-same = fun_ext (λ kind.
    rw (Pipe.Decode.decode_shutdown, Wire.Decode.decode_shutdown, flag-same, done-same) refl)

decode_discard_commit-same : Pipe.Decode.decode_discard_commit ≡ Wire.Decode.decode_discard_commit
unfolding Pipe.Decode.decode_discard_commit Wire.Decode.decode_discard_commit
decode_discard_commit-same = fun_ext (λ kind.
    rw
      (
        Pipe.Decode.decode_discard_commit, Wire.Decode.decode_discard_commit, id-same, flag-same,
        done-same,
      )
      refl)

decode_error-same : Pipe.Decode.decode_error ≡ Wire.Decode.decode_error
unfolding Pipe.Decode.decode_error Wire.Decode.decode_error
decode_error-same = fun_ext (λ bytes.
    rw
      (
        Pipe.Decode.decode_error, Wire.Decode.decode_error, u8-same, error_of_number-same, id-same,
        u64-same, utf8-same, done-same,
      )
      refl)

decode_record_commit-same : Pipe.Decode.decode_record_commit ≡ Wire.Decode.decode_record_commit
unfolding Pipe.Decode.decode_record_commit Wire.Decode.decode_record_commit
decode_record_commit-same = fun_ext (λ kind.
    rw
      (
        Pipe.Decode.decode_record_commit, Wire.Decode.decode_record_commit, id-same, utf16-same,
        flag-same, commit_entries-same, done-same,
      )
      refl)

body_at : (t : MessageType) → Pipe.Decode.decode_body t ≡ Wire.Decode.decode_body t
unfolding Pipe.Decode.decode_body Wire.Decode.decode_body
body_at open_session = rw (u8-same, decode_open_session-same) refl
body_at predict = decode_predict-same
body_at prediction = decode_prediction-same
body_at close_session = rw (u8-same, decode_close_session-same) refl
body_at status = rw (u8-same, decode_status-same) refl
body_at shutdown = rw (u8-same, decode_shutdown-same) refl
body_at error = decode_error-same
body_at record_commit = rw (u8-same, decode_record_commit-same) refl
body_at discard_commit = rw (u8-same, decode_discard_commit-same) refl

open_frame-same : Pipe.Decode.open_frame ≡ Wire.Decode.open_frame
unfolding Pipe.Decode.open_frame Wire.Decode.open_frame
open_frame-same = rw (u32-same, require_remaining-same) refl

run_at :
    {A : Type 0} (r : Reader A) (frame : List ℕ)
    → Pipe.Decode.run_reader r frame ≡ Wire.Decode.run_reader r frame
unfolding Pipe.Decode.run_reader Wire.Decode.run_reader
run_at r frame = refl

-- The service and the engine read the same message from each frame, or both refuse it; the engine
-- tests the number of the entries of a commit against the bytes that are left, and the service
-- does not need to.
pub decode-engine : (frame : List ℕ) → Pipe.Decode.decode frame ≡ Wire.Decode.decode frame
unfolding Pipe.Decode.decode Wire.Decode.decode
decode-engine frame =
    run_at _ frame
    ∙ ap₂ (λ o k. Wire.Decode.run_reader (o >>= λ u. k) frame) open_frame-same
        (ap₂ (λ r b. r >>= b) type-same (fun_ext body_at))

pub decode_message_type-engine :
    (frame : List ℕ) → Pipe.Decode.decode_message_type frame ≡ Wire.Decode.decode_message_type frame
unfolding Pipe.Decode.decode_message_type Wire.Decode.decode_message_type
decode_message_type-engine frame =
    run_at _ frame
    ∙ ap₂ (λ o k. Wire.Decode.run_reader (o >>= λ u. k) frame) open_frame-same type-same
