-- ===== src/Wire/Messages.antt =====
-- The messages of engine/src/protocol/protocol.hpp; ime-unix-service/src/pipe/protocol.hpp declares the
-- same. An identifier is a list of 16 bytes.
use ime_fcitx.Prelude.{ℕ, Bool, true, ◌&&◌, Option, List, [], ◌∷◌, ◌==◌}

abbrev pub max_frame_payload_bytes : ℕ
max_frame_payload_bytes = 1048576

abbrev pub max_repeated_fields : ℕ
max_repeated_fields = 65536

abbrev pub max_context_code_units : ℕ
max_context_code_units = 65536

abbrev pub max_bopomofo_code_units : ℕ
max_bopomofo_code_units = 4096

abbrev pub max_utf8_string_bytes : ℕ
max_utf8_string_bytes = 262144

pub data MessageType : Type 0 where
  open_session predict prediction close_session status shutdown error record_commit discard_commit :
      MessageType

pub data ErrorCode : Type 0 where
  unknown_session invalid_argument protocol_error unauthorized session_busy out_of_order
        resource_exhausted model_error service_shutting_down :
      ErrorCode

pub record PaddingEntry : Type 0 where
  pub chosen : Bool
  pub bopomofo : List ℕ
  pub chosen_char : ℕ

pub record CommitEntry : Type 0 where
  pub reading : List ℕ
  pub character : ℕ
  pub manually_selected : Bool
  pub literal : Bool

pub record RecordCommitRequest : Type 0 where
  pub event_id : List ℕ
  pub source_id : List ℕ
  pub context : List ℕ
  pub answer : List ℕ
  pub entries : List CommitEntry

pub record PredictRequest : Type 0 where
  pub session_id : List ℕ
  pub request_id : ℕ
  pub buffer_revision : ℕ
  pub context : List ℕ
  pub padding : List PaddingEntry

pub record Prediction : Type 0 where
  pub session_id : List ℕ
  pub request_id : ℕ
  pub buffer_revision : ℕ
  pub candidates : List (List ℕ)

pub record SessionStatus : Type 0 where
  pub session_id : List ℕ
  pub active : Bool
  pub closing : Bool
  pub engine_loaded : Bool
  pub last_request_id : ℕ

pub record StatusResponse : Type 0 where
  pub service_epoch : List ℕ
  pub shutting_down : Bool
  pub model_loaded : Bool
  pub active_sessions : ℕ
  pub max_sessions : ℕ
  pub session : Option SessionStatus

pub record Error : Type 0 where
  pub code : ErrorCode
  pub session_id : List ℕ
  pub request_id : ℕ
  pub buffer_revision : ℕ
  pub message : List ℕ

-- `Message`; the structures of one or two fields are the arguments of their constructors.
pub data Message : Type 0 where
  open_session_request : Message
  open_session_response : List ℕ → List ℕ → Message
  predict_request : PredictRequest → Message
  prediction_response : Prediction → Message
  close_session_request : List ℕ → Message
  close_session_response : List ℕ → Bool → Message
  status_request : Option (List ℕ) → Message
  status_response : StatusResponse → Message
  shutdown_request : Message
  shutdown_response : Bool → Message
  error_response : Error → Message
  record_commit_request : RecordCommitRequest → Message
  record_commit_response : List ℕ → Bool → Message
  discard_commit_request : List ℕ → Message
  discard_commit_response : List ℕ → Bool → Message

-- `message_type`
unfoldable pub message_type : Message → MessageType
message_type open_session_request = open_session
message_type (open_session_response session_id service_epoch) = open_session
message_type (predict_request r) = predict
message_type (prediction_response r) = prediction
message_type (close_session_request session_id) = close_session
message_type (close_session_response session_id closed) = close_session
message_type (status_request session_id) = status
message_type (status_response r) = status
message_type shutdown_request = shutdown
message_type (shutdown_response accepted) = shutdown
message_type (error_response e) = error
message_type (record_commit_request r) = record_commit
message_type (record_commit_response event_id stored) = record_commit
message_type (discard_commit_request event_id) = discard_commit
message_type (discard_commit_response event_id discarded) = discard_commit

-- The numbers of the types.
unfoldable pub type_code : MessageType → ℕ
type_code open_session = 1
type_code predict = 2
type_code prediction = 3
type_code close_session = 4
type_code status = 5
type_code shutdown = 6
type_code error = 7
type_code record_commit = 8
type_code discard_commit = 9

-- The numbers of the error codes.
unfoldable pub error_number : ErrorCode → ℕ
error_number unknown_session = 1
error_number invalid_argument = 2
error_number protocol_error = 3
error_number unauthorized = 4
error_number session_busy = 5
error_number out_of_order = 6
error_number resource_exhausted = 7
error_number model_error = 8
error_number service_shutting_down = 9

unfoldable pub is_zero : List ℕ → Bool
is_zero [] = true
is_zero (x ∷ id) = x == 0 && is_zero id
