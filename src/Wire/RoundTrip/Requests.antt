-- ===== src/Wire/RoundTrip/Requests.antt =====
-- The bodies of the messages are read back as they were written, engine/src/protocol/protocol.cpp.
use ime_fcitx.Prelude.{
  ℕ, ◌/◌, ◌^◌, ◌<◌, Bool, true, false, not, ◌&&◌, ◌||◌, some, List, map, ◌==◌, leb, leb→le, length,
  length-append, All, ◌≡◌, refl, ap, ◌∙◌, arith,
}
use ime_fcitx.Wire.Messages.{
  CommitEntry, RecordCommitRequest, PredictRequest, Prediction, is_zero, max_context_code_units,
}
use ime_fcitx.Wire.Messages.{predict, prediction, record_commit}
use ime_fcitx.Wire.Messages.{predict_request, prediction_response, record_commit_request}
use ime_fcitx.Wire.Reading.{
  ◌<+>◌, read_each, write_each, ReadsBack, ReadsBackAll, >>=-ReadsBackAll, require-ReadsBack,
  require-ReadsBackAll, provided-ReadsBackAll,
}
use ime_fcitx.Wire.Fields.{u64, id, checked, text16, read_u64, read_id, read_utf16, count_ok, done}
use ime_fcitx.Wire.Entries.{
  append_candidates, append_commit_entry, read_padding, read_candidates, read_commit_entry,
}
use ime_fcitx.Wire.Encode.{encode_predict, encode_prediction, encode_record_commit}
use ime_fcitx.Wire.Decode.{
  decode_predict, decode_prediction, decode_record_commit, decode_body, read_commit_entries,
}
use ime_fcitx.Wire.RoundTrip.Fields.{
  id-ReadsBack, u64-ReadsBack, require_remaining-ReadsBack, sized-ReadsBack,
}
use ime_fcitx.Wire.RoundTrip.Repeats.{
  read_each-ReadsBack, write_each-length, map_id, text16-ReadsBack,
}
use ime_fcitx.Wire.RoundTrip.Sizes.{append_commit_entry-AtLeast}
use ime_fcitx.Wire.RoundTrip.Entries.{
  Units, canonical_padding, padding-ReadsBack, candidates-ReadsBack, commit_entry-ReadsBack,
}
use ime_fcitx.Wire.RoundTrip.Payload.{
  >>=-done-ReadsBackAll, typed-ReadsBackAll, kind-ReadsBackAll, not_or_right, payload_reader,
}

abbrev pub IsPredict : PredictRequest → Type 0
IsPredict value =
    (length value.session_id ≡ 16)
    × (value.request_id < 2 ^ 64)
    × (value.buffer_revision < 2 ^ 64)
    × Units value.context
    × All (λ entry. Units entry.bopomofo) value.padding

pub predict-ReadsBackAll :
    (value : PredictRequest)
    → IsPredict value
    → ReadsBackAll
        (encode_predict value)
        payload_reader
        (predict_request (record value { padding = map canonical_padding value.padding }))
unfolding encode_predict decode_body decode_predict done
predict-ReadsBackAll value (session, request, revision, context, padding) =
    provided-ReadsBackAll _ _ payload_reader _ (λ numbered.
      let nonzero = not_or_right (is_zero value.session_id) (value.request_id == 0) numbered in
      typed-ReadsBackAll predict _ _ (
        >>=-ReadsBackAll (id value.session_id) _ read_id _ value.session_id _
          (id-ReadsBack value.session_id session)
          (>>=-ReadsBackAll (u64 value.request_id) _ read_u64 _ value.request_id _
            (u64-ReadsBack value.request_id request)
            (>>=-ReadsBackAll (u64 value.buffer_revision) _ read_u64 _ value.buffer_revision _
              (u64-ReadsBack value.buffer_revision revision)
              (require-ReadsBackAll (not (value.request_id == 0)) _ _ _ nonzero (
                >>=-ReadsBackAll (text16 value.context max_context_code_units) _
                  (read_utf16 max_context_code_units) _ value.context _
                  (text16-ReadsBack value.context max_context_code_units (omega arith) context)
                  (>>=-done-ReadsBackAll _ read_padding _ (map canonical_padding value.padding) _
                    (padding-ReadsBack value.padding padding) refl)))))))

abbrev pub IsPrediction : Prediction → Type 0
IsPrediction value =
    (length value.session_id ≡ 16) × (value.request_id < 2 ^ 64) × (value.buffer_revision < 2 ^ 64)

pub prediction-ReadsBackAll :
    (value : Prediction)
    → IsPrediction value
    → ReadsBackAll (encode_prediction value) payload_reader (prediction_response value)
unfolding encode_prediction decode_body decode_prediction done
prediction-ReadsBackAll value (session, request, revision) =
    provided-ReadsBackAll _ _ payload_reader _ (λ numbered.
      let nonzero = not_or_right (is_zero value.session_id) (value.request_id == 0) numbered in
      typed-ReadsBackAll prediction _ _ (
        >>=-ReadsBackAll (id value.session_id) _ read_id _ value.session_id _
          (id-ReadsBack value.session_id session)
          (>>=-ReadsBackAll (u64 value.request_id) _ read_u64 _ value.request_id _
            (u64-ReadsBack value.request_id request)
            (>>=-ReadsBackAll (u64 value.buffer_revision) _ read_u64 _ value.buffer_revision _
              (u64-ReadsBack value.buffer_revision revision)
              (require-ReadsBackAll (not (value.request_id == 0)) _ _ _ nonzero (
                >>=-done-ReadsBackAll (append_candidates value.candidates) read_candidates _
                  value.candidates _ (candidates-ReadsBack value.candidates) refl))))))

abbrev pub IsRecordCommit : RecordCommitRequest → Type 0
IsRecordCommit value =
    (length value.event_id ≡ 16)
    × (length value.source_id ≡ 16)
    × Units value.context
    × Units value.answer
    × All (λ entry. Units entry.reading) value.entries

-- The tests on the parts of a commit, apart.
commit_tests :
    (event source empty large : Bool) (answer : Bool)
    → not (event || source || empty || large || answer) ≡ true
    → (not (event || source) ≡ true) × (not (empty || large || answer) ≡ true)
commit_tests false false empty large answer h = (refl, h)
commit_tests true source empty large answer h = absurd (cc)
commit_tests false true empty large answer h = absurd (cc)

commit_entries-ReadsBack :
    (entries : List CommitEntry) (answer : List ℕ)
    → All (λ entry. Units entry.reading) entries
    → not (length entries == 0 || not (leb (length entries) 1024) || length answer == 0) ≡ true
    → ReadsBack
        (checked (length entries) 1024 <+> write_each append_commit_entry entries)
        (read_commit_entries answer)
        entries
unfolding read_commit_entries count_ok
commit_entries-ReadsBack entries answer h accepted =
    sized-ReadsBack (length entries) 1024 (write_each append_commit_entry entries) _ entries
      (omega arith)
      (λ fits.
        require_remaining-ReadsBack
          (λ remaining.
            leb (length entries) 65536 && (10 == 0 || leb (length entries) (remaining / 10)))
          (write_each append_commit_entry entries) _ entries
          (λ bytes rest e.
            let below = leb→le (length entries) 1024 fits in
            let space =
              write_each-length append_commit_entry 10 append_commit_entry-AtLeast entries bytes
                e in
            let sum = length-append bytes rest in ground arith)
          (require-ReadsBack _ (write_each append_commit_entry entries)
            (read_each (length entries) read_commit_entry) entries accepted
            (λ bytes e rest.
              read_each-ReadsBack (λ entry. Units entry.reading) append_commit_entry
                read_commit_entry (λ entry. entry) entries h commit_entry-ReadsBack bytes e rest
              ∙ ap (λ xs. some (xs, rest)) (map_id entries))))

pub record_commit-ReadsBackAll :
    (value : RecordCommitRequest)
    → IsRecordCommit value
    → ReadsBackAll (encode_record_commit value) payload_reader (record_commit_request value)
unfolding encode_record_commit decode_body decode_record_commit done
record_commit-ReadsBackAll value (event, source, context, answer, entries) =
    provided-ReadsBackAll _ _ payload_reader _ (λ accepted.
      let (named, counted) =
        commit_tests (is_zero value.event_id) (is_zero value.source_id) (length value.entries == 0)
          (not (leb (length value.entries) 1024)) (length value.answer == 0) accepted in
      typed-ReadsBackAll record_commit _ _ (
        kind-ReadsBackAll 0 _ decode_record_commit _ (omega arith) (
          >>=-ReadsBackAll (id value.event_id) _ read_id _ value.event_id _
            (id-ReadsBack value.event_id event)
            (>>=-ReadsBackAll (id value.source_id) _ read_id _ value.source_id _
              (id-ReadsBack value.source_id source)
              (require-ReadsBackAll (not (is_zero value.event_id || is_zero value.source_id)) _ _ _
                named
                (>>=-ReadsBackAll (text16 value.context 4096) _ (read_utf16 4096) _ value.context _
                  (text16-ReadsBack value.context 4096 (omega arith) context)
                  (>>=-ReadsBackAll (text16 value.answer 1024) _ (read_utf16 1024) _ value.answer _
                    (text16-ReadsBack value.answer 1024 (omega arith) answer)
                    (>>=-done-ReadsBackAll _ (read_commit_entries value.answer) _ value.entries _
                      (commit_entries-ReadsBack value.entries value.answer entries counted)
                      refl))))))))
