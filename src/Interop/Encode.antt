-- ===== src/Interop/Encode.antt =====
-- What the service encodes is what the engine encodes: ime-unix-service/src/pipe/protocol.cpp against
-- engine/src/protocol/protocol.cpp.
use ime_fcitx.Prelude.{ℕ, not, ◌&&◌, ◌||◌, none, some, ◌==◌, leb, ltb, ◌≡◌, refl, arith}
use mathlib.Core.Path.{fun_ext, ap₂}
use ime_fcitx.Wire.Messages.{Message, error_number, is_zero}
use ime_fcitx.Wire.Messages.{
  open_session_request, open_session_response, predict_request, prediction_response,
  close_session_request, close_session_response, status_request, status_response, shutdown_request,
  shutdown_response, error_response, record_commit_request, record_commit_response,
  discard_commit_request, discard_commit_response,
}
use ime_fcitx.Wire
use ime_fcitx.Pipe
use ime_fcitx.Interop.Fields.{append_u32-same, append_u64-same}
use ime_fcitx.Interop.Writers.{
  u8-same, type-same, text8-same, text16-same, flag-same, id-same, checked-same, candidates-same,
  padding-same, commit_entry-same, optional_id_at, optional_status_at, provided_and,
}

predict_at :
    (value : Wire.Messages.PredictRequest)
    → Pipe.Encode.encode_predict value ≡ Wire.Encode.encode_predict value
unfolding Pipe.Encode.encode_predict Wire.Encode.encode_predict
predict_at value =
    rw
      (
        Pipe.Encode.encode_predict,
        Wire.Encode.encode_predict,
        provided_and (is_zero value.session_id) (value.request_id == 0),
        type-same,
        id-same,
        append_u64-same,
        text16-same,
        checked-same,
        padding-same,
      )
      refl

prediction_at :
    (value : Wire.Messages.Prediction)
    → Pipe.Encode.encode_prediction value ≡ Wire.Encode.encode_prediction value
unfolding Pipe.Encode.encode_prediction Wire.Encode.encode_prediction
prediction_at value =
    rw
      (
        Pipe.Encode.encode_prediction,
        Wire.Encode.encode_prediction,
        provided_and (is_zero value.session_id) (value.request_id == 0),
        type-same,
        id-same,
        append_u64-same,
        candidates-same,
      )
      refl

status_at :
    (value : Wire.Messages.StatusResponse)
    → Pipe.Encode.encode_status value ≡ Wire.Encode.encode_status value
unfolding Pipe.Encode.encode_status Wire.Encode.encode_status
status_at value =
    rw
      (
        Pipe.Encode.encode_status,
        Wire.Encode.encode_status,
        type-same,
        u8-same,
        id-same,
        flag-same,
        append_u32-same,
        optional_status_at value.session,
      )
      refl

record_commit_at :
    (value : Wire.Messages.RecordCommitRequest)
    → Pipe.Encode.encode_record_commit value ≡ Wire.Encode.encode_record_commit value
unfolding Pipe.Encode.encode_record_commit Wire.Encode.encode_record_commit
record_commit_at value =
    rw
      (
        Pipe.Encode.encode_record_commit, Wire.Encode.encode_record_commit, type-same, u8-same,
        id-same, text16-same, checked-same, commit_entry-same,
      )
      refl

error_range : (raw : ℕ) → not (ltb raw 1 || ltb 9 raw) ≡ (leb 1 raw && leb raw 9)
error_range raw = ground arith

error_at :
    (value : Wire.Messages.Error) → Pipe.Encode.encode_error value ≡ Wire.Encode.encode_error value
unfolding Pipe.Encode.encode_error Wire.Encode.encode_error
error_at value =
    rw
      (
        Pipe.Encode.encode_error,
        Wire.Encode.encode_error,
        error_range (error_number value.code),
        type-same,
        u8-same,
        id-same,
        append_u64-same,
        text8-same,
      )
      refl

payload_at : (m : Message) → Pipe.Encode.encode_payload m ≡ Wire.Encode.encode_payload m
unfolding Pipe.Encode.encode_payload Wire.Encode.encode_payload
payload_at open_session_request = rw (type-same, u8-same) refl
payload_at (open_session_response session_id service_epoch) = rw (type-same, u8-same, id-same) refl
payload_at (predict_request value) = predict_at value
payload_at (prediction_response value) = prediction_at value
payload_at (close_session_request session_id) = rw (type-same, u8-same, id-same) refl
payload_at (close_session_response session_id closed) =
    rw (type-same, u8-same, id-same, flag-same) refl
payload_at (status_request session_id) = rw (type-same, u8-same, optional_id_at session_id) refl
payload_at (status_response value) = status_at value
payload_at shutdown_request = rw (type-same, u8-same) refl
payload_at (shutdown_response accepted) = rw (type-same, u8-same, flag-same) refl
payload_at (error_response value) = error_at value
payload_at (record_commit_request value) = record_commit_at value
payload_at (record_commit_response event_id stored) =
    rw (type-same, u8-same, id-same, flag-same) refl
payload_at (discard_commit_request event_id) = rw (type-same, u8-same, id-same) refl
payload_at (discard_commit_response event_id discarded) =
    rw (type-same, u8-same, id-same, flag-same) refl

frame-same : Pipe.Encode.frame ≡ Wire.Encode.make_frame
unfolding Pipe.Encode.frame Wire.Encode.make_frame
frame-same =
    fun_ext (λ payload. rw (Pipe.Encode.frame, Wire.Encode.make_frame, append_u32-same) refl)

-- The service and the engine write the same bytes for each message, or both refuse it.
pub encode-engine : (m : Message) → Pipe.Encode.encode m ≡ Wire.Encode.encode m
unfolding Pipe.Encode.encode Wire.Encode.encode
encode-engine m =
    ap₂ (λ e f. elim e [ none ↦ none | some payload ↦ f payload ]) (payload_at m) frame-same
