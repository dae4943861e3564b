-- ===== src/Pipe/Entries.antt =====
-- The repeated fields of a message, ime-unix-service/src/pipe/protocol.cpp: padding, candidates, the status of a
-- session and the entries of a commit.
use ime_fcitx.Prelude.{ℕ, Bool, true, false, not, ◌||◌, List, [], ◌==◌, leb, length, if◌then◌else◌}
use ime_fcitx.Wire.Messages.{
  PaddingEntry, CommitEntry, SessionStatus, max_repeated_fields, max_bopomofo_code_units,
}
use ime_fcitx.Wire.Reading.{
  Reader, Writer, ◌>>=◌, ◌>>◌, return, refuse, require, ◌<+>◌, provided, read_each, write_each,
}
use ime_fcitx.Pipe.Fields.{
  append_u64, append_flag, append_id, checked_size, append_utf16, append_scalar, u8, u32, u64, flag,
  id, utf16, scalar, require_count,
}

unfoldable pub append_padding : PaddingEntry → Writer
append_padding entry =
    append_flag entry.chosen
    <+> (if entry.chosen
        then provided (not (entry.chosen_char == 0)) (append_scalar entry.chosen_char)
        else append_utf16 entry.bopomofo max_bopomofo_code_units)

-- What follows the kind of an entry.
unfoldable pub read_padding_kind : ℕ → Reader PaddingEntry
read_padding_kind kind =
    if kind == 0
    then (do
      bopomofo ← utf16 max_bopomofo_code_units
      return (record { chosen = false; bopomofo = bopomofo; chosen_char = 0 }))
    else if kind == 1
    then (do
      chosen_char ← scalar
      require (not (chosen_char == 0))
      return (record { chosen = true; bopomofo = []; chosen_char = chosen_char }))
    else refuse

unfoldable pub read_padding_entry : Reader PaddingEntry
read_padding_entry = do kind ← u8; read_padding_kind kind

unfoldable pub read_padding : Reader (List PaddingEntry)
read_padding = do count ← u32; require_count count 1; read_each count read_padding_entry

unfoldable pub append_candidate : ℕ → Writer
append_candidate candidate = provided (not (candidate == 0)) (append_scalar candidate)

unfoldable pub append_candidate_list : List ℕ → Writer
append_candidate_list list =
    checked_size (length list) max_repeated_fields <+> write_each append_candidate list

unfoldable pub append_candidates : List (List ℕ) → Writer
append_candidates lists =
    checked_size (length lists) max_repeated_fields <+> write_each append_candidate_list lists

unfoldable pub read_candidate_list : Reader (List ℕ)
read_candidate_list = do count ← u32; require_count count 4; read_each count scalar

unfoldable pub read_candidates : Reader (List (List ℕ))
read_candidates = do
  segments ← u32
  require_count segments 4
  read_each segments read_candidate_list

unfoldable pub append_session_status : SessionStatus → Writer
append_session_status value =
    append_id value.session_id
    <+> append_flag value.active
    <+> append_flag value.closing
    <+> append_flag value.engine_loaded
    <+> append_u64 value.last_request_id

unfoldable pub read_session_status : Reader SessionStatus
read_session_status = do
  session_id ← id
  active ← flag
  closing ← flag
  engine_loaded ← flag
  last_request_id ← u64
  return (record {
    session_id = session_id;
    active = active;
    closing = closing;
    engine_loaded = engine_loaded;
    last_request_id = last_request_id;
  })

-- `a == b` of two flags
abbrev pub same_flag : Bool → Bool → Bool
same_flag true b = b
same_flag false b = not b

unfoldable pub append_commit_entry : CommitEntry → Writer
append_commit_entry entry = provided (same_flag entry.literal (length entry.reading == 0)) (
    append_utf16 entry.reading 64
    <+> provided (not (entry.character == 0)) (append_scalar entry.character)
    <+> append_flag entry.manually_selected
    <+> append_flag entry.literal)

-- What follows the reading of an entry.
unfoldable pub read_commit_rest : List ℕ → Reader CommitEntry
read_commit_rest reading = do
  character ← scalar
  manual ← u8
  literal ← u8
  require (not (character == 0 || not (leb manual 1) || not (leb literal 1)))
  require (same_flag (not (literal == 0)) (length reading == 0))
  return (record {
    reading = reading;
    character = character;
    manually_selected = not (manual == 0);
    literal = not (literal == 0);
  })

unfoldable pub read_commit_entry : Reader CommitEntry
read_commit_entry = do reading ← utf16 64; read_commit_rest reading
