-- ===== src/Wire/RoundTrip/Messages.antt =====
-- Whatever `encode` of engine/src/protocol/protocol.cpp writes, `decode` reads back.
use ime_fcitx.Prelude.{
  ℕ, ◌+◌, ◌≤◌, Bool, true, not, Option, none, some, List, [], ◌∷◌, ◌++◌, map, ◌==◌, leb, leb→le,
  length, ◌≡◌, refl, sym, ap, ◌∙◌, arith, Bool-cases, Option-cases, ==_refl, inl, inr,
}
use ime_fcitx.Wire.Messages.{max_frame_payload_bytes, Message, is_zero}
use ime_fcitx.Wire.Messages.{
  open_session, close_session, status, shutdown, record_commit, discard_commit,
}
use ime_fcitx.Wire.Messages.{
  open_session_request, open_session_response, predict_request, prediction_response,
  close_session_request, close_session_response, status_request, status_response, shutdown_request,
  shutdown_response, error_response, record_commit_request, record_commit_response,
  discard_commit_request, discard_commit_response,
}
use ime_fcitx.Wire.Reading.{
  Reader, ◌>>=◌, ◌>>◌, require, ◌<+>◌, ReadsBackAll, bind_some, >>=-ReadsBackAll,
  provided-ReadsBackAll,
}
use ime_fcitx.Wire.Fields.{
  u8, u32, flag, id, low_bytes, read_u8, read_u32, read_flag, read_id, done, require_remaining,
}
use ime_fcitx.Wire.Encode.{append_optional_id, encode_payload, make_frame, encode}
use ime_fcitx.Wire.Decode.{
  decode_open_session, decode_close_session, decode_status, decode_shutdown, decode_record_commit,
  decode_discard_commit, decode_body, read_optional, open_frame, run_reader, decode,
}
use ime_fcitx.Wire.RoundTrip.Fields.{flag-ReadsBack, id-ReadsBack, u32-ReadsBack}
use ime_fcitx.Wire.RoundTrip.Entries.{canonical_padding}
use ime_fcitx.Wire.RoundTrip.Payload.{
  >>=-done-ReadsBackAll, assoc-ReadsBackAll, typed-ReadsBackAll, kind-ReadsBackAll, payload_reader,
}
use ime_fcitx.Wire.RoundTrip.Requests.{
  IsPredict, IsPrediction, IsRecordCommit, predict-ReadsBackAll, prediction-ReadsBackAll,
  record_commit-ReadsBackAll,
}
use ime_fcitx.Wire.RoundTrip.Responses.{
  IsId, IsStatus, IsError, OptionAll, optional_id-ReadsBack, status-ReadsBackAll,
  error-ReadsBackAll,
}

-- The fields are within their machine types: 16 bytes, and units and numbers of their widths.
unfoldable pub IsMessage : Message → Type 0
IsMessage open_session_request = Unit
IsMessage (open_session_response session_id service_epoch) = IsId session_id × IsId service_epoch
IsMessage (predict_request value) = IsPredict value
IsMessage (prediction_response value) = IsPrediction value
IsMessage (close_session_request session_id) = IsId session_id
IsMessage (close_session_response session_id closed) = IsId session_id
IsMessage (status_request session_id) = OptionAll IsId session_id
IsMessage (status_response value) = IsStatus value
IsMessage shutdown_request = Unit
IsMessage (shutdown_response accepted) = Unit
IsMessage (error_response value) = IsError value
IsMessage (record_commit_request value) = IsRecordCommit value
IsMessage (record_commit_response event_id stored) = IsId event_id
IsMessage (discard_commit_request event_id) = IsId event_id
IsMessage (discard_commit_response event_id discarded) = IsId event_id

-- The message without the fields of its padding that are not sent.
unfoldable pub canonical : Message → Message
canonical (predict_request value) =
    predict_request (record value { padding = map canonical_padding value.padding })
canonical message = message

-- An identifier and a flag, and the end.
pair-ReadsBackAll :
    (session_id : List ℕ) (b : Bool) (f : List ℕ → Bool → Message)
    → IsId session_id
    → ReadsBackAll
        (id session_id <+> flag b)
        (read_id >>= λ session_id. read_flag >>= λ b. done (f session_id b))
        (f session_id b)
unfolding done
pair-ReadsBackAll session_id b f h =
    >>=-ReadsBackAll (id session_id) (flag b) read_id _ session_id _ (id-ReadsBack session_id h)
      (>>=-done-ReadsBackAll (flag b) read_flag _ b _ (flag-ReadsBack b) refl)

-- The same with a test that the identifier is not zero.
named_pair-ReadsBackAll :
    (session_id : List ℕ) (b : Bool) (f : List ℕ → Bool → Message)
    → IsId session_id
    → not (is_zero session_id) ≡ true
    → ReadsBackAll
        (id session_id <+> flag b)
        (read_id >>= λ session_id.
          read_flag >>= λ b. (require (not (is_zero session_id)) >> done (f session_id b)))
        (f session_id b)
unfolding done
named_pair-ReadsBackAll session_id b f h k =
    >>=-ReadsBackAll (id session_id) (flag b) read_id _ session_id _ (id-ReadsBack session_id h) (
      >>=-done-ReadsBackAll (flag b) read_flag
        (λ b. require (not (is_zero session_id)) >> done (f session_id b)) b (f session_id b)
        (flag-ReadsBack b) (rw k refl))

named-ReadsBackAll :
    (session_id : List ℕ) (f : List ℕ → Message)
    → IsId session_id
    → not (is_zero session_id) ≡ true
    → ReadsBackAll
        (id session_id)
        (read_id >>= λ session_id. (require (not (is_zero session_id)) >> done (f session_id)))
        (f session_id)
unfolding done
named-ReadsBackAll session_id f h k =
    >>=-done-ReadsBackAll (id session_id) read_id
      (λ session_id. require (not (is_zero session_id)) >> done (f session_id)) session_id
      (f session_id) (id-ReadsBack session_id h) (rw k refl)

bare-ReadsBackAll :
    (f : ℕ → Reader Message) (m : Message)
    → f 0 [] ≡ some (m, [])
    → ReadsBackAll (u8 0) (read_u8 >>= f) m
unfolding u8 read_u8
bare-ReadsBackAll f m h bytes e =
    let same : 0 ∷ [] ≡ bytes = cc in ap (read_u8 >>= f) (sym same) ∙ h

payload-ReadsBackAll :
    (m : Message) → IsMessage m → ReadsBackAll (encode_payload m) payload_reader (canonical m)
unfolding encode_payload canonical IsMessage decode_body decode_open_session decode_close_session
    decode_shutdown decode_status decode_record_commit decode_discard_commit done
payload-ReadsBackAll open_session_request h =
    typed-ReadsBackAll open_session _ _
      (bare-ReadsBackAll decode_open_session open_session_request refl)
payload-ReadsBackAll (open_session_response session_id service_epoch) (session, epoch) =
    typed-ReadsBackAll open_session _ _ (
      kind-ReadsBackAll 1 _ decode_open_session _ (omega arith) (
        >>=-ReadsBackAll (id session_id) (id service_epoch) read_id _ session_id _
          (id-ReadsBack session_id session)
          (>>=-done-ReadsBackAll (id service_epoch) read_id _ service_epoch _
            (id-ReadsBack service_epoch epoch) refl)))
payload-ReadsBackAll (predict_request value) h = predict-ReadsBackAll value h
payload-ReadsBackAll (prediction_response value) h = prediction-ReadsBackAll value h
payload-ReadsBackAll (close_session_request session_id) h =
    provided-ReadsBackAll (not (is_zero session_id)) _ payload_reader _ (λ named.
      typed-ReadsBackAll close_session _ _ (
        kind-ReadsBackAll 0 _ decode_close_session _ (omega arith)
          (named-ReadsBackAll session_id close_session_request h named)))
payload-ReadsBackAll (close_session_response session_id closed) h =
    provided-ReadsBackAll (not (is_zero session_id)) _ payload_reader _ (λ named.
      typed-ReadsBackAll close_session _ _ (
        kind-ReadsBackAll 1 _ decode_close_session _ (omega arith)
          (named_pair-ReadsBackAll session_id closed close_session_response h named)))
payload-ReadsBackAll (status_request session_id) h =
    let after : Option (List ℕ) → Reader Message = λ session_id. done (status_request session_id) in
    typed-ReadsBackAll status _ _ (
      kind-ReadsBackAll 0 _ decode_status _ (omega arith) (
        assoc-ReadsBackAll _ read_flag (read_optional read_id) _ _ (
          >>=-done-ReadsBackAll (append_optional_id session_id)
            (read_flag >>= read_optional read_id) after session_id _
            (optional_id-ReadsBack session_id h) refl)))
payload-ReadsBackAll (status_response value) h = status-ReadsBackAll value h
payload-ReadsBackAll shutdown_request h =
    typed-ReadsBackAll shutdown _ _ (bare-ReadsBackAll decode_shutdown shutdown_request refl)
payload-ReadsBackAll (shutdown_response accepted) h = typed-ReadsBackAll shutdown _ _ (
    kind-ReadsBackAll 1 _ decode_shutdown _ (omega arith)
      (>>=-done-ReadsBackAll (flag accepted) read_flag _ accepted _ (flag-ReadsBack accepted) refl))
payload-ReadsBackAll (error_response value) h = error-ReadsBackAll value h
payload-ReadsBackAll (record_commit_request value) h = record_commit-ReadsBackAll value h
payload-ReadsBackAll (record_commit_response event_id stored) h =
    typed-ReadsBackAll record_commit _ _ (
      kind-ReadsBackAll 1 _ decode_record_commit _ (omega arith)
        (pair-ReadsBackAll event_id stored record_commit_response h))
payload-ReadsBackAll (discard_commit_request event_id) h =
    provided-ReadsBackAll (not (is_zero event_id)) _ payload_reader _ (λ named.
      typed-ReadsBackAll discard_commit _ _ (
        kind-ReadsBackAll 0 _ decode_discard_commit _ (omega arith)
          (named-ReadsBackAll event_id discard_commit_request h named)))
payload-ReadsBackAll (discard_commit_response event_id discarded) h =
    provided-ReadsBackAll (not (is_zero event_id)) _ payload_reader _ (λ named.
      typed-ReadsBackAll discard_commit _ _ (
        kind-ReadsBackAll 1 _ decode_discard_commit _ (omega arith)
          (named_pair-ReadsBackAll event_id discarded discard_commit_response h named)))

-- A frame has the length of its payload and four bytes more, 1 MiB and four bytes at most, and
-- opening it gives the payload.
pub make_frame-opens :
    (payload frame : List ℕ)
    → make_frame payload ≡ some frame
    → (open_frame frame ≡ some (tt, payload))
      × (length frame ≡ 4 + length payload)
      × (length payload ≤ 1048576)
unfolding make_frame open_frame require_remaining u32 low_bytes
make_frame-opens payload frame e =
    elim (Bool-cases (leb (length payload) max_frame_payload_bytes)) [
      | inr large ↦
          let refused : make_frame payload ≡ none = rw (make_frame, large) refl in absurd (cc)
      | inl fits ↦
          let below = leb→le (length payload) max_frame_payload_bytes fits in
          let n = length payload in
          let framed : some (low_bytes 4 n ++ payload) ≡ some frame =
            sym (rw (make_frame, fits) refl) ∙ e in
          let same : low_bytes 4 n ++ payload ≡ frame = cc in
          let number = u32-ReadsBack n (omega arith) (low_bytes 4 n) refl payload in
          let after : ℕ → Reader (Unit {0}) = λ size.
            require (leb size max_frame_payload_bytes)
            >> require_remaining (λ remaining. remaining == size) in
          rw (← same)
            (bind_some read_u32 after number ∙ rw (fits, ==_refl n) refl, omega arith, below)
    ]

-- A message with fields of their machine types that `encode` accepts is what `decode` gives for
-- the frame, but for the field of each padding entry that is not sent.
pub decode-encode :
    (m : Message) (frame : List ℕ)
    → IsMessage m
    → encode m ≡ some frame
    → decode frame ≡ some (canonical m)
unfolding encode decode run_reader
decode-encode m frame h e = elim (Option-cases (encode_payload m)) [
  | inl none_e ↦ let refused : encode m ≡ none = rw (encode, none_e) refl in absurd (cc)
  | inr (payload, some_e) ↦
      let framed : make_frame payload ≡ some frame = sym (rw (encode, some_e) refl) ∙ e in
      let (opened, size, below) = make_frame-opens payload frame framed in
      let whole =
        bind_some open_frame (λ u. payload_reader) opened
        ∙ payload-ReadsBackAll m h payload some_e in
      rw (run_reader, whole) refl
]
