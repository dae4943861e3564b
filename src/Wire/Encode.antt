-- ===== src/Wire/Encode.antt =====
-- `encode`, engine/src/protocol/protocol.cpp.
use ime_fcitx.Prelude.{ℕ, true, false, not, ◌&&◌, ◌||◌, Option, none, some, List, ◌==◌, leb, length}
use ime_fcitx.Wire.Messages.{
  RecordCommitRequest, PredictRequest, Prediction, SessionStatus, StatusResponse, Error, Message,
  error_number, is_zero, max_frame_payload_bytes, max_repeated_fields, max_context_code_units,
}
use ime_fcitx.Wire.Messages.{
  open_session, predict, prediction, close_session, status, shutdown, error, record_commit,
  discard_commit,
}
use ime_fcitx.Wire.Messages.{
  open_session_request, open_session_response, predict_request, prediction_response,
  close_session_request, close_session_response, status_request, status_response, shutdown_request,
  shutdown_response, error_response, record_commit_request, record_commit_response,
  discard_commit_request, discard_commit_response,
}
use ime_fcitx.Wire.Reading.{Writer, ◌<+>◌, provided, write_each}
use ime_fcitx.Wire.Fields.{u8, u32, u64, flag, id, checked, text8, text16, type}
use ime_fcitx.Wire.Entries.{
  append_padding, append_candidates, append_session_status, append_commit_entry,
}

-- An identifier that may be missing.
unfoldable pub append_optional_id : Option (List ℕ) → Writer
append_optional_id none = flag false
append_optional_id (some session_id) = flag true <+> id session_id

unfoldable pub append_optional_status : Option SessionStatus → Writer
append_optional_status none = flag false
append_optional_status (some session) = flag true <+> append_session_status session

unfoldable pub encode_predict : PredictRequest → Writer
encode_predict value = provided (not (is_zero value.session_id || value.request_id == 0)) (
    type predict
    <+> id value.session_id
    <+> u64 value.request_id
    <+> u64 value.buffer_revision
    <+> text16 value.context max_context_code_units
    <+> checked (length value.padding) max_repeated_fields
    <+> write_each append_padding value.padding)

unfoldable pub encode_prediction : Prediction → Writer
encode_prediction value = provided (not (is_zero value.session_id || value.request_id == 0)) (
    type prediction
    <+> id value.session_id
    <+> u64 value.request_id
    <+> u64 value.buffer_revision
    <+> append_candidates value.candidates)

unfoldable pub encode_status : StatusResponse → Writer
encode_status value =
    type status
    <+> u8 1
    <+> id value.service_epoch
    <+> flag value.shutting_down
    <+> flag value.model_loaded
    <+> u32 value.active_sessions
    <+> u32 value.max_sessions
    <+> append_optional_status value.session

unfoldable pub encode_record_commit : RecordCommitRequest → Writer
encode_record_commit value =
    provided
      (not (
        is_zero value.event_id
        || is_zero value.source_id
        || length value.entries == 0
        || not (leb (length value.entries) 1024)
        || length value.answer == 0))
      (type record_commit
        <+> u8 0
        <+> id value.event_id
        <+> id value.source_id
        <+> text16 value.context 4096
        <+> text16 value.answer 1024
        <+> checked (length value.entries) 1024
        <+> write_each append_commit_entry value.entries)

unfoldable pub encode_error : Error → Writer
encode_error value =
    let raw = error_number value.code in
    provided (leb 1 raw && leb raw 9) (
      type error
      <+> u8 raw
      <+> id value.session_id
      <+> u64 value.request_id
      <+> u64 value.buffer_revision
      <+> text8 value.message)

unfoldable pub encode_payload : Message → Writer
encode_payload open_session_request = type open_session <+> u8 0
encode_payload (open_session_response session_id service_epoch) =
    type open_session <+> u8 1 <+> id session_id <+> id service_epoch
encode_payload (predict_request value) = encode_predict value
encode_payload (prediction_response value) = encode_prediction value
encode_payload (close_session_request session_id) =
    provided (not (is_zero session_id)) (type close_session <+> u8 0 <+> id session_id)
encode_payload (close_session_response session_id closed) =
    provided (not (is_zero session_id))
      (type close_session <+> u8 1 <+> id session_id <+> flag closed)
encode_payload (status_request session_id) = type status <+> u8 0 <+> append_optional_id session_id
encode_payload (status_response value) = encode_status value
encode_payload shutdown_request = type shutdown <+> u8 0
encode_payload (shutdown_response accepted) = type shutdown <+> u8 1 <+> flag accepted
encode_payload (error_response value) = encode_error value
encode_payload (record_commit_request value) = encode_record_commit value
encode_payload (record_commit_response event_id stored) =
    type record_commit <+> u8 1 <+> id event_id <+> flag stored
encode_payload (discard_commit_request event_id) =
    provided (not (is_zero event_id)) (type discard_commit <+> u8 0 <+> id event_id)
encode_payload (discard_commit_response event_id discarded) =
    provided (not (is_zero event_id))
      (type discard_commit <+> u8 1 <+> id event_id <+> flag discarded)

unfoldable pub make_frame : List ℕ → Writer
make_frame payload =
    provided (leb (length payload) max_frame_payload_bytes) (u32 (length payload) <+> some payload)

unfoldable pub encode : Message → Writer
encode message = elim (encode_payload message) [ none ↦ none | some payload ↦ make_frame payload ]
