-- ===== src/Pipe/Decode.antt =====
-- `decode`, ime-unix-service/src/pipe/protocol.cpp.
use ime_fcitx.Prelude.{
  ℕ, Bool, true, false, not, ◌||◌, Option, none, some, List, ◌==◌, leb, length, if◌then◌else◌,
}
use ime_fcitx.Wire.Messages.{
  MessageType, ErrorCode, CommitEntry, Message, is_zero, max_frame_payload_bytes,
  max_context_code_units,
}
use ime_fcitx.Wire.Messages.{
  open_session, predict, prediction, close_session, status, shutdown, error, record_commit,
  discard_commit,
}
use ime_fcitx.Wire.Messages.{
  unknown_session, invalid_argument, protocol_error, unauthorized, session_busy, out_of_order,
  resource_exhausted, model_error, service_shutting_down,
}
use ime_fcitx.Wire.Messages.{
  open_session_request, open_session_response, predict_request, prediction_response,
  close_session_request, close_session_response, status_request, status_response, shutdown_request,
  shutdown_response, error_response, record_commit_request, record_commit_response,
  discard_commit_request, discard_commit_response,
}
use ime_fcitx.Wire.Reading.{Reader, ◌>>=◌, ◌>>◌, return, refuse, require, read_each}
use ime_fcitx.Pipe.Fields.{
  append_type, u8, u32, u64, flag, id, utf8, utf16, read_type, require_done, require_remaining,
}
use ime_fcitx.Pipe.Entries.{read_padding, read_candidates, read_session_status, read_commit_entry}

unfoldable pub decode_open_session : ℕ → Reader Message
decode_open_session kind =
    if kind == 0
    then require_done open_session_request
    else if kind == 1
    then (do
      session_id ← id
      service_epoch ← id
      require_done (open_session_response session_id service_epoch))
    else refuse

unfoldable pub decode_predict : Reader Message
decode_predict = do
  session_id ← id
  request_id ← u64
  buffer_revision ← u64
  require (not (request_id == 0))
  context ← utf16 max_context_code_units
  padding ← read_padding
  require_done (
      predict_request (record {
        session_id = session_id;
        request_id = request_id;
        buffer_revision = buffer_revision;
        context = context;
        padding = padding;
      }))

unfoldable pub decode_prediction : Reader Message
decode_prediction = do
  session_id ← id
  request_id ← u64
  buffer_revision ← u64
  require (not (request_id == 0))
  candidates ← read_candidates
  require_done (
      prediction_response (record {
        session_id = session_id;
        request_id = request_id;
        buffer_revision = buffer_revision;
        candidates = candidates;
      }))

unfoldable pub decode_close_session : ℕ → Reader Message
decode_close_session kind =
    if kind == 0
    then (do
      session_id ← id
      require (not (is_zero session_id))
      require_done (close_session_request session_id))
    else if kind == 1
    then (do
      session_id ← id
      closed ← flag
      require (not (is_zero session_id))
      require_done (close_session_response session_id closed))
    else refuse

-- What a append_flag in front says may be missing.
unfoldable pub read_optional : {A : Type 0} → Reader A → Bool → Reader (Option A)
read_optional r true = do a ← r; return (some a)
read_optional r false = return none

unfoldable pub decode_status : ℕ → Reader Message
decode_status kind =
    if kind == 0
    then (do
      present ← flag
      session_id ← read_optional id present
      require_done (status_request session_id))
    else if kind == 1
    then (do
      service_epoch ← id
      shutting_down ← flag
      model_loaded ← flag
      active_sessions ← u32
      max_sessions ← u32
      present ← flag
      session ← read_optional read_session_status present
      require_done (
          status_response (record {
            service_epoch = service_epoch;
            shutting_down = shutting_down;
            model_loaded = model_loaded;
            active_sessions = active_sessions;
            max_sessions = max_sessions;
            session = session;
          })))
    else refuse

unfoldable pub decode_shutdown : ℕ → Reader Message
decode_shutdown kind =
    if kind == 0
    then require_done shutdown_request
    else if kind == 1
    then (do accepted ← flag; require_done (shutdown_response accepted))
    else refuse

-- The entries of a commit: at least one and at most 1024.
unfoldable pub read_commit_entries : List ℕ → Reader (List CommitEntry)
read_commit_entries answer = do
  count ← u32
  require (not (count == 0 || not (leb count 1024) || length answer == 0))
  read_each count read_commit_entry

unfoldable pub decode_record_commit : ℕ → Reader Message
decode_record_commit kind =
    if kind == 0
    then (do
      event_id ← id
      source_id ← id
      require (not (is_zero event_id || is_zero source_id))
      context ← utf16 4096
      answer ← utf16 1024
      entries ← read_commit_entries answer
      require_done (
          record_commit_request (record {
            event_id = event_id;
            source_id = source_id;
            context = context;
            answer = answer;
            entries = entries;
          })))
    else if kind == 1
    then (do event_id ← id; stored ← flag; require_done (record_commit_response event_id stored))
    else refuse

unfoldable pub decode_discard_commit : ℕ → Reader Message
decode_discard_commit kind =
    if kind == 0
    then (do
      event_id ← id
      require (not (is_zero event_id))
      require_done (discard_commit_request event_id))
    else if kind == 1
    then (do
      event_id ← id
      discarded ← flag
      require (not (is_zero event_id))
      require_done (discard_commit_response event_id discarded))
    else refuse

unfoldable pub error_of_number : ℕ → Reader ErrorCode
error_of_number raw =
    if raw == 1
    then return unknown_session
    else if raw == 2
    then return invalid_argument
    else if raw == 3
    then return protocol_error
    else if raw == 4
    then return unauthorized
    else if raw == 5
    then return session_busy
    else if raw == 6
    then return out_of_order
    else if raw == 7
    then return resource_exhausted
    else if raw == 8
    then return model_error
    else if raw == 9
    then return service_shutting_down
    else refuse

unfoldable pub decode_error : Reader Message
decode_error = do
  raw ← u8
  code ← error_of_number raw
  session_id ← id
  request_id ← u64
  buffer_revision ← u64
  message ← utf8
  require_done (
      error_response (record {
        code = code;
        session_id = session_id;
        request_id = request_id;
        buffer_revision = buffer_revision;
        message = message;
      }))

unfoldable pub decode_body : MessageType → Reader Message
decode_body open_session = do kind ← u8; decode_open_session kind
decode_body predict = decode_predict
decode_body prediction = decode_prediction
decode_body close_session = do kind ← u8; decode_close_session kind
decode_body status = do kind ← u8; decode_status kind
decode_body shutdown = do kind ← u8; decode_shutdown kind
decode_body error = decode_error
decode_body record_commit = do kind ← u8; decode_record_commit kind
decode_body discard_commit = do kind ← u8; decode_discard_commit kind

-- The constructor of `Reader`: the length in front is that of what follows.
unfoldable pub open_frame : Reader (Unit {0})
open_frame = do
  length ← u32
  require (leb length max_frame_payload_bytes)
  require_remaining (λ remaining. remaining == length)

-- A reader on a frame; what is left does not matter to it.
unfoldable pub run_reader : {A : Type 0} → Reader A → List ℕ → Option A
run_reader r frame = elim (r frame) [ none ↦ none | some (a, rest) ↦ some a ]

unfoldable pub decode : List ℕ → Option Message
decode frame = run_reader (do open_frame; append_type ← read_type; decode_body append_type) frame

unfoldable pub decode_message_type : List ℕ → Option MessageType
decode_message_type frame = run_reader (do open_frame; read_type) frame
