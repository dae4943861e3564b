-- ===== src/Wire/Decoded/Bodies.antt =====
-- What each part of `decode`, engine/src/protocol/protocol.cpp, promises of a message.
use ime_fcitx.Prelude.{ℕ, true, not, ◌||◌, List, ◌==◌, All, ◌≡◌, refl, if◌then◌else◌}
use ime_fcitx.Wire.Messages.{MessageType, Message, message_type, is_zero, max_context_code_units}
use ime_fcitx.Wire.Messages.{
  open_session, predict, prediction, close_session, status, shutdown, error, record_commit,
  discard_commit,
}
use ime_fcitx.Wire.Messages.{
  open_session_request, open_session_response, predict_request, prediction_response,
  close_session_request, close_session_response, status_request, status_response, shutdown_request,
  shutdown_response, error_response, record_commit_request, record_commit_response,
  discard_commit_request, discard_commit_response,
}
use ime_fcitx.Wire.Reading.{Reader, ◌>>=◌, refuse}
use ime_fcitx.Wire.Fields.{read_u8, read_u32, read_u64, read_flag, read_id, read_utf8, read_utf16}
use ime_fcitx.Wire.Decode.{
  decode_open_session, decode_predict, decode_prediction, decode_close_session, decode_status,
  decode_shutdown, decode_record_commit, decode_discard_commit, decode_error, decode_body,
  read_optional,
}
use ime_fcitx.Wire.Results.{
  Gives, >>=-Gives, any-Gives, require-Gives, if-Gives, refuse-Gives, done-Gives,
}
use ime_fcitx.Wire.Entries.{read_padding, read_candidates, read_session_status}
use ime_fcitx.Wire.Decode.{read_commit_entries, error_of_number}
use ime_fcitx.Wire.Decoded.Fields.{
  IsUtf8, IsText, IsPadding, Scalars, IsCommitOf, read_utf16-Gives, read_utf8-Gives,
  read_padding-Gives, read_candidates-Gives, read_commit_entries-Gives,
}
use ime_fcitx.Wire.Decoded.Identifiers.{
  IsId, IsOptionalId, IsOptionalStatus, read_id-Gives, read_optional_id-Gives,
  read_optional_status-Gives,
}

-- What the receiver of a message may rely on. The session of a prediction and of an error, and what an
-- answer names, may be zero.
unfoldable pub IsDecoded : Message → Type 0
IsDecoded (open_session_response session_id service_epoch) = IsId session_id × IsId service_epoch
IsDecoded (predict_request value) =
    IsId value.session_id
    × (not (value.request_id == 0) ≡ true)
    × IsText max_context_code_units value.context
    × All IsPadding value.padding
IsDecoded (prediction_response value) =
    IsId value.session_id × (not (value.request_id == 0) ≡ true) × All Scalars value.candidates
IsDecoded (close_session_request session_id) = IsId session_id × (not (is_zero session_id) ≡ true)
IsDecoded (close_session_response session_id closed) =
    IsId session_id × (not (is_zero session_id) ≡ true)
IsDecoded (status_request session_id) = IsOptionalId session_id
IsDecoded (status_response value) = IsId value.service_epoch × IsOptionalStatus value.session
IsDecoded (record_commit_request value) =
    IsId value.event_id
    × IsId value.source_id
    × (not (is_zero value.event_id || is_zero value.source_id) ≡ true)
    × IsText 4096 value.context
    × IsText 1024 value.answer
    × IsCommitOf value.answer value.entries
IsDecoded (record_commit_response event_id recorded) = IsId event_id
IsDecoded (discard_commit_request event_id) = IsId event_id × (not (is_zero event_id) ≡ true)
IsDecoded (discard_commit_response event_id discarded) =
    IsId event_id × (not (is_zero event_id) ≡ true)
IsDecoded (error_response value) = IsId value.session_id × IsUtf8 value.message
IsDecoded message = Unit

abbrev pub Promise : MessageType → Message → Type 0
Promise t m = (message_type m ≡ t) × IsDecoded m

-- The two kinds of a body.
kinds-Gives :
    (t : MessageType) (kind : ℕ) (r s : Reader Message)
    → Gives (Promise t) r
    → Gives (Promise t) s
    → Gives (Promise t) (if kind == 0 then r else if kind == 1 then s else refuse)
kinds-Gives t kind r s h k =
    if-Gives (Promise t) (kind == 0) r _ (λ e. h)
      (λ e. if-Gives (Promise t) (kind == 1) s refuse (λ e. k) (λ e. refuse-Gives (Promise t)))

-- The identifier in front.
id-Gives :
    (t : MessageType) (f : List ℕ → Reader Message)
    → ((id : List ℕ) → IsId id → Gives (Promise t) (f id))
    → Gives (Promise t) (read_id >>= f)
id-Gives t f h = >>=-Gives IsId (Promise t) read_id f read_id-Gives h

decode_open_session-Gives : (kind : ℕ) → Gives (Promise open_session) (decode_open_session kind)
unfolding decode_open_session message_type IsDecoded
decode_open_session-Gives kind =
    kinds-Gives open_session kind _ _
      (done-Gives (Promise open_session) open_session_request (refl, tt))
      (id-Gives open_session _ (λ session_id h. id-Gives open_session _ (λ service_epoch k.
        done-Gives (Promise open_session) (open_session_response session_id service_epoch)
          (refl, (h, k)))))

decode_predict-Gives : Gives (Promise predict) decode_predict
unfolding decode_predict message_type IsDecoded
decode_predict-Gives = id-Gives predict _ (λ session_id session_id-IsId.
    any-Gives (Promise predict) read_u64 _ (λ request_id.
      any-Gives (Promise predict) read_u64 _ (λ buffer_revision.
        require-Gives (Promise predict) (not (request_id == 0)) _ (λ nonzero.
          >>=-Gives (IsText max_context_code_units) (Promise predict)
            (read_utf16 max_context_code_units) _ (read_utf16-Gives max_context_code_units)
            (λ context text.
              >>=-Gives (All IsPadding) (Promise predict) read_padding _ read_padding-Gives
                (λ padding all.
                  done-Gives (Promise predict) _ (refl, (session_id-IsId, nonzero, text, all))))))))

decode_prediction-Gives : Gives (Promise prediction) decode_prediction
unfolding decode_prediction message_type IsDecoded
decode_prediction-Gives = id-Gives prediction _ (λ session_id session_id-IsId.
    any-Gives (Promise prediction) read_u64 _ (λ request_id.
      any-Gives (Promise prediction) read_u64 _ (λ buffer_revision.
        require-Gives (Promise prediction) (not (request_id == 0)) _ (λ nonzero.
          >>=-Gives (All Scalars) (Promise prediction) read_candidates _ read_candidates-Gives
            (λ candidates all.
              done-Gives (Promise prediction) _ (refl, (session_id-IsId, nonzero, all)))))))

decode_close_session-Gives : (kind : ℕ) → Gives (Promise close_session) (decode_close_session kind)
unfolding decode_close_session message_type IsDecoded
decode_close_session-Gives kind =
    kinds-Gives close_session kind _ _
      (id-Gives close_session _ (λ session_id session_id-IsId.
        require-Gives (Promise close_session) (not (is_zero session_id)) _ (λ named.
          done-Gives (Promise close_session) (close_session_request session_id)
            (refl, (session_id-IsId, named)))))
      (id-Gives close_session _ (λ session_id session_id-IsId.
        any-Gives (Promise close_session) read_flag _ (λ closed.
          require-Gives (Promise close_session) (not (is_zero session_id)) _ (λ named.
            done-Gives (Promise close_session) (close_session_response session_id closed)
              (refl, (session_id-IsId, named))))))

decode_discard_commit-Gives :
    (kind : ℕ) → Gives (Promise discard_commit) (decode_discard_commit kind)
unfolding decode_discard_commit message_type IsDecoded
decode_discard_commit-Gives kind =
    kinds-Gives discard_commit kind _ _
      (id-Gives discard_commit _ (λ event_id event_id-IsId.
        require-Gives (Promise discard_commit) (not (is_zero event_id)) _ (λ named.
          done-Gives (Promise discard_commit) (discard_commit_request event_id)
            (refl, (event_id-IsId, named)))))
      (id-Gives discard_commit _ (λ event_id event_id-IsId.
        any-Gives (Promise discard_commit) read_flag _ (λ discarded.
          require-Gives (Promise discard_commit) (not (is_zero event_id)) _ (λ named.
            done-Gives (Promise discard_commit) (discard_commit_response event_id discarded)
              (refl, (event_id-IsId, named))))))

decode_status-Gives : (kind : ℕ) → Gives (Promise status) (decode_status kind)
unfolding decode_status message_type IsDecoded
decode_status-Gives kind =
    kinds-Gives status kind _ _
      (any-Gives (Promise status) read_flag _ (λ present.
        >>=-Gives IsOptionalId (Promise status) (read_optional read_id present) _
          (read_optional_id-Gives present)
          (λ session_id h. done-Gives (Promise status) (status_request session_id) (refl, h))))
      (id-Gives status _ (λ service_epoch service_epoch-IsId.
        any-Gives (Promise status) read_flag _ (λ shutting_down.
          any-Gives (Promise status) read_flag _ (λ model_loaded.
            any-Gives (Promise status) read_u32 _ (λ active_sessions.
              any-Gives (Promise status) read_u32 _ (λ max_sessions.
                any-Gives (Promise status) read_flag _ (λ present.
                  >>=-Gives IsOptionalStatus (Promise status)
                    (read_optional read_session_status present) _
                    (read_optional_status-Gives present)
                    (λ session h.
                      done-Gives (Promise status) _ (refl, (service_epoch-IsId, h))))))))))

decode_shutdown-Gives : (kind : ℕ) → Gives (Promise shutdown) (decode_shutdown kind)
unfolding decode_shutdown message_type IsDecoded
decode_shutdown-Gives kind =
    kinds-Gives shutdown kind _ _ (done-Gives (Promise shutdown) shutdown_request (refl, tt)) (
      any-Gives (Promise shutdown) read_flag _
        (λ accepted. done-Gives (Promise shutdown) (shutdown_response accepted) (refl, tt)))

decode_record_commit-Gives : (kind : ℕ) → Gives (Promise record_commit) (decode_record_commit kind)
unfolding decode_record_commit message_type IsDecoded
decode_record_commit-Gives kind =
    kinds-Gives record_commit kind _ _
      (id-Gives record_commit _ (λ event_id event_id-IsId.
        id-Gives record_commit _ (λ source_id source_id-IsId.
          require-Gives (Promise record_commit) (not (is_zero event_id || is_zero source_id)) _
            (λ named.
              >>=-Gives (IsText 4096) (Promise record_commit) (read_utf16 4096) _
                (read_utf16-Gives 4096)
                (λ context context_text.
                  >>=-Gives (IsText 1024) (Promise record_commit) (read_utf16 1024) _
                    (read_utf16-Gives 1024)
                    (λ answer answer_text.
                      >>=-Gives (IsCommitOf answer) (Promise record_commit)
                        (read_commit_entries answer) _ (read_commit_entries-Gives answer)
                        (λ entries commit. done-Gives (Promise record_commit) _ (
                          refl,
                          (event_id-IsId, source_id-IsId, named, context_text, answer_text, commit),
                        ))))))))
      (id-Gives record_commit _ (λ event_id h.
        any-Gives (Promise record_commit) read_flag _ (λ recorded.
          done-Gives (Promise record_commit) (record_commit_response event_id recorded) (refl, h))))

decode_error-Gives : Gives (Promise error) decode_error
unfolding decode_error message_type IsDecoded
decode_error-Gives = any-Gives (Promise error) read_u8 _ (λ raw.
    any-Gives (Promise error) (error_of_number raw) _ (λ code.
      id-Gives error _ (λ session_id session_id-IsId.
        any-Gives (Promise error) read_u64 _ (λ request_id.
          any-Gives (Promise error) read_u64 _ (λ buffer_revision.
            >>=-Gives IsUtf8 (Promise error) read_utf8 _ read_utf8-Gives
              (λ message text. done-Gives (Promise error) _ (refl, (session_id-IsId, text))))))))

pub decode_body-Gives : (t : MessageType) → Gives (Promise t) (decode_body t)
unfolding decode_body
decode_body-Gives open_session =
    any-Gives (Promise open_session) read_u8 decode_open_session decode_open_session-Gives
decode_body-Gives predict = decode_predict-Gives
decode_body-Gives prediction = decode_prediction-Gives
decode_body-Gives close_session =
    any-Gives (Promise close_session) read_u8 decode_close_session decode_close_session-Gives
decode_body-Gives status = any-Gives (Promise status) read_u8 decode_status decode_status-Gives
decode_body-Gives shutdown =
    any-Gives (Promise shutdown) read_u8 decode_shutdown decode_shutdown-Gives
decode_body-Gives error = decode_error-Gives
decode_body-Gives record_commit =
    any-Gives (Promise record_commit) read_u8 decode_record_commit decode_record_commit-Gives
decode_body-Gives discard_commit =
    any-Gives (Promise discard_commit) read_u8 decode_discard_commit decode_discard_commit-Gives
