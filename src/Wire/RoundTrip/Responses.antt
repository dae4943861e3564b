-- ===== src/Wire/RoundTrip/Responses.antt =====
-- The bodies of the answers are read back as they were written, engine/src/protocol/protocol.cpp.
use ime_fcitx.Prelude.{
  ℕ, ◌^◌, ◌<◌, true, false, Option, none, some, List, [], ◌∷◌, length, ◌≡◌, refl, arith,
}
use ime_fcitx.Wire.Messages.{ErrorCode, SessionStatus, StatusResponse, Error, Message, error_number}
use ime_fcitx.Wire.Messages.{status, error}
use ime_fcitx.Wire.Messages.{
  unknown_session, invalid_argument, protocol_error, unauthorized, session_busy, out_of_order,
  resource_exhausted, model_error, service_shutting_down,
}
use ime_fcitx.Wire.Messages.{status_response, error_response}
use ime_fcitx.Wire.Reading.{
  Reader, ◌>>=◌, ReadsBack, ReadsBackAll, >>=-ReadsBack, >>=-ReadsBackAll, provided-ReadsBackAll,
}
use ime_fcitx.Wire.Fields.{
  u8, u32, u64, flag, id, text8, read_u8, read_u32, read_u64, read_flag, read_id, read_utf8, done,
}
use ime_fcitx.Wire.Entries.{append_session_status, read_session_status}
use ime_fcitx.Wire.Encode.{append_optional_id, append_optional_status, encode_status, encode_error}
use ime_fcitx.Wire.Decode.{decode_status, decode_error, decode_body, read_optional, error_of_number}
use ime_fcitx.Wire.RoundTrip.Fields.{
  >>=-pure-ReadsBack, some-ReadsBack, flag-ReadsBack, id-ReadsBack, u32-ReadsBack, u64-ReadsBack,
  text8-ReadsBack,
}
use ime_fcitx.Wire.RoundTrip.Entries.{session_status-ReadsBack}
use ime_fcitx.Wire.RoundTrip.Payload.{
  >>=-done-ReadsBackAll, typed-ReadsBackAll, kind-ReadsBackAll, assoc-ReadsBackAll, payload_reader,
}

abbrev pub IsId : List ℕ → Type 0
IsId value = length value ≡ 16

abbrev pub IsSessionStatus : SessionStatus → Type 0
IsSessionStatus value = IsId value.session_id × (value.last_request_id < 2 ^ 64)

-- The value, where there is one, has the property.
abbrev pub OptionAll : {A : Type 0} → (A → Type 0) → Option A → Type 0
OptionAll P none = Unit
OptionAll P (some a) = P a

pub optional_id-ReadsBack :
    (value : Option (List ℕ))
    → OptionAll IsId value
    → ReadsBack (append_optional_id value) (read_flag >>= read_optional read_id) value
unfolding append_optional_id read_optional
optional_id-ReadsBack none h =
    >>=-pure-ReadsBack (flag false) read_flag _ false none (flag-ReadsBack false) (λ rest. refl)
optional_id-ReadsBack (some value) h =
    >>=-ReadsBack (flag true) (id value) read_flag _ true (some value) (flag-ReadsBack true) (
      >>=-pure-ReadsBack (id value) read_id _ value (some value) (id-ReadsBack value h)
        (λ rest. refl))

pub optional_status-ReadsBack :
    (value : Option SessionStatus)
    → OptionAll IsSessionStatus value
    → ReadsBack
        (append_optional_status value)
        (read_flag >>= read_optional read_session_status)
        value
unfolding append_optional_status read_optional
optional_status-ReadsBack none h =
    >>=-pure-ReadsBack (flag false) read_flag _ false none (flag-ReadsBack false) (λ rest. refl)
optional_status-ReadsBack (some value) (session, request) =
    >>=-ReadsBack (flag true) (append_session_status value) read_flag _ true (some value)
      (flag-ReadsBack true)
      (>>=-pure-ReadsBack (append_session_status value) read_session_status _ value (some value)
        (session_status-ReadsBack value session request) (λ rest. refl))

abbrev pub IsStatus : StatusResponse → Type 0
IsStatus value =
    IsId value.service_epoch
    × (value.active_sessions < 2 ^ 32)
    × (value.max_sessions < 2 ^ 32)
    × OptionAll IsSessionStatus value.session

pub status-ReadsBackAll :
    (value : StatusResponse)
    → IsStatus value
    → ReadsBackAll (encode_status value) payload_reader (status_response value)
unfolding encode_status decode_body decode_status done
status-ReadsBackAll value (epoch, active, most, session) =
    let after : Option SessionStatus → Reader Message =
      λ session. done (status_response (record value { session = session })) in
    typed-ReadsBackAll status _ _ (
      kind-ReadsBackAll 1 _ decode_status _ (omega arith) (
        >>=-ReadsBackAll (id value.service_epoch) _ read_id _ value.service_epoch _
          (id-ReadsBack value.service_epoch epoch)
          (>>=-ReadsBackAll (flag value.shutting_down) _ read_flag _ value.shutting_down _
            (flag-ReadsBack value.shutting_down)
            (>>=-ReadsBackAll (flag value.model_loaded) _ read_flag _ value.model_loaded _
              (flag-ReadsBack value.model_loaded)
              (>>=-ReadsBackAll (u32 value.active_sessions) _ read_u32 _ value.active_sessions _
                (u32-ReadsBack value.active_sessions active)
                (>>=-ReadsBackAll (u32 value.max_sessions) _ read_u32 _ value.max_sessions _
                  (u32-ReadsBack value.max_sessions most)
                  (assoc-ReadsBackAll _ read_flag (read_optional read_session_status) _ _ (
                    >>=-done-ReadsBackAll (append_optional_status value.session)
                      (read_flag >>= read_optional read_session_status) after value.session _
                      (optional_status-ReadsBack value.session session) refl))))))))

code-ReadsBack :
    (code : ErrorCode) → ReadsBack (u8 (error_number code)) (read_u8 >>= error_of_number) code
unfolding u8 read_u8 error_number error_of_number
code-ReadsBack unknown_session =
    some-ReadsBack (1 ∷ []) (read_u8 >>= error_of_number) unknown_session (λ rest. refl)
code-ReadsBack invalid_argument =
    some-ReadsBack (2 ∷ []) (read_u8 >>= error_of_number) invalid_argument (λ rest. refl)
code-ReadsBack protocol_error =
    some-ReadsBack (3 ∷ []) (read_u8 >>= error_of_number) protocol_error (λ rest. refl)
code-ReadsBack unauthorized =
    some-ReadsBack (4 ∷ []) (read_u8 >>= error_of_number) unauthorized (λ rest. refl)
code-ReadsBack session_busy =
    some-ReadsBack (5 ∷ []) (read_u8 >>= error_of_number) session_busy (λ rest. refl)
code-ReadsBack out_of_order =
    some-ReadsBack (6 ∷ []) (read_u8 >>= error_of_number) out_of_order (λ rest. refl)
code-ReadsBack resource_exhausted =
    some-ReadsBack (7 ∷ []) (read_u8 >>= error_of_number) resource_exhausted (λ rest. refl)
code-ReadsBack model_error =
    some-ReadsBack (8 ∷ []) (read_u8 >>= error_of_number) model_error (λ rest. refl)
code-ReadsBack service_shutting_down =
    some-ReadsBack (9 ∷ []) (read_u8 >>= error_of_number) service_shutting_down (λ rest. refl)

abbrev pub IsError : Error → Type 0
IsError value =
    IsId value.session_id × (value.request_id < 2 ^ 64) × (value.buffer_revision < 2 ^ 64)

pub error-ReadsBackAll :
    (value : Error)
    → IsError value
    → ReadsBackAll (encode_error value) payload_reader (error_response value)
unfolding encode_error decode_body decode_error done
error-ReadsBackAll value (session, request, revision) =
    provided-ReadsBackAll _ _ payload_reader _ (λ small. typed-ReadsBackAll error _ _ (
      assoc-ReadsBackAll _ read_u8 error_of_number _ _ (
        >>=-ReadsBackAll (u8 (error_number value.code)) _ (read_u8 >>= error_of_number) _ value.code
          _ (code-ReadsBack value.code)
          (>>=-ReadsBackAll (id value.session_id) _ read_id _ value.session_id _
            (id-ReadsBack value.session_id session)
            (>>=-ReadsBackAll (u64 value.request_id) _ read_u64 _ value.request_id _
              (u64-ReadsBack value.request_id request)
              (>>=-ReadsBackAll (u64 value.buffer_revision) _ read_u64 _ value.buffer_revision _
                (u64-ReadsBack value.buffer_revision revision)
                (>>=-done-ReadsBackAll (text8 value.message) read_utf8 _ value.message _
                  (text8-ReadsBack value.message) refl)))))))
