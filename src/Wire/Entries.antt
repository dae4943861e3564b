-- ===== src/Wire/Entries.antt =====
-- The repeated fields of a message, engine/src/protocol/protocol.cpp: padding, candidates, the status of a
-- session and the entries of a commit.
use ime_fcitx.Prelude.{ℕ, Bool, true, false, not, ◌||◌, List, [], ◌==◌, leb, length, if◌then◌else◌}
use ime_fcitx.Wire.Messages.{
  PaddingEntry, CommitEntry, SessionStatus, max_repeated_fields, max_bopomofo_code_units,
}
use ime_fcitx.Wire.Reading.{
  Reader, Writer, ◌>>=◌, ◌>>◌, return, refuse, require, ◌<+>◌, provided, read_each, write_each,
}
use ime_fcitx.Wire.Fields.{
  u64, flag, id, checked, text16, scalar, read_u8, read_u32, read_u64, read_flag, read_id,
  read_utf16, read_scalar, count_ok,
}

unfoldable pub append_padding : PaddingEntry → Writer
append_padding entry =
    flag entry.chosen
    <+> (if entry.chosen
        then provided (not (entry.chosen_char == 0)) (scalar entry.chosen_char)
        else text16 entry.bopomofo max_bopomofo_code_units)

-- What follows the kind of an entry.
unfoldable pub read_padding_kind : ℕ → Reader PaddingEntry
read_padding_kind kind =
    if kind == 0
    then (do
      bopomofo ← read_utf16 max_bopomofo_code_units
      return (record { chosen = false; bopomofo = bopomofo; chosen_char = 0 }))
    else if kind == 1
    then (do
      chosen_char ← read_scalar
      require (not (chosen_char == 0))
      return (record { chosen = true; bopomofo = []; chosen_char = chosen_char }))
    else refuse

unfoldable pub read_padding_entry : Reader PaddingEntry
read_padding_entry = do kind ← read_u8; read_padding_kind kind

unfoldable pub read_padding : Reader (List PaddingEntry)
read_padding = do count ← read_u32; count_ok count 1; read_each count read_padding_entry

unfoldable pub append_candidate : ℕ → Writer
append_candidate candidate = provided (not (candidate == 0)) (scalar candidate)

unfoldable pub append_candidate_list : List ℕ → Writer
append_candidate_list list =
    checked (length list) max_repeated_fields <+> write_each append_candidate list

unfoldable pub append_candidates : List (List ℕ) → Writer
append_candidates lists =
    checked (length lists) max_repeated_fields <+> write_each append_candidate_list lists

unfoldable pub read_candidate_list : Reader (List ℕ)
read_candidate_list = do count ← read_u32; count_ok count 4; read_each count read_scalar

unfoldable pub read_candidates : Reader (List (List ℕ))
read_candidates = do
  segments ← read_u32
  count_ok segments 4
  read_each segments read_candidate_list

unfoldable pub append_session_status : SessionStatus → Writer
append_session_status value =
    id value.session_id
    <+> flag value.active
    <+> flag value.closing
    <+> flag value.engine_loaded
    <+> u64 value.last_request_id

unfoldable pub read_session_status : Reader SessionStatus
read_session_status = do
  session_id ← read_id
  active ← read_flag
  closing ← read_flag
  engine_loaded ← read_flag
  last_request_id ← read_u64
  return (record {
    session_id = session_id;
    active = active;
    closing = closing;
    engine_loaded = engine_loaded;
    last_request_id = last_request_id;
  })

-- `a == b` of two flags
abbrev pub same_flag : Bool → Bool → Bool
same_flag true b = b
same_flag false b = not b

unfoldable pub append_commit_entry : CommitEntry → Writer
append_commit_entry entry = provided (same_flag entry.literal (length entry.reading == 0)) (
    text16 entry.reading 64
    <+> provided (not (entry.character == 0)) (scalar entry.character)
    <+> flag entry.manually_selected
    <+> flag entry.literal)

-- What follows the reading of an entry.
unfoldable pub read_commit_rest : List ℕ → Reader CommitEntry
read_commit_rest reading = do
  character ← read_scalar
  manual ← read_u8
  literal ← read_u8
  require (not (character == 0 || not (leb manual 1) || not (leb literal 1)))
  require (same_flag (not (literal == 0)) (length reading == 0))
  return (record {
    reading = reading;
    character = character;
    manually_selected = not (manual == 0);
    literal = not (literal == 0);
  })

unfoldable pub read_commit_entry : Reader CommitEntry
read_commit_entry = do reading ← read_utf16 64; read_commit_rest reading
