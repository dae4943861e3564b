-- ===== src/Pipe/Fields.antt =====
-- The fields of a message, as ime-unix-service/src/pipe/protocol.cpp writes and reads them. A shift
-- by `shift` bits is a quotient or a product by 2 ^ shift.
use ime_fcitx.Prelude.{
  ℕ, zero, suc, ◌+◌, ◌*◌, ◌/◌, ◌%◌, ◌^◌, Bool, true, false, not, ◌&&◌, ◌||◌, none, some, List, [],
  ◌∷◌, ◌==◌, leb, length, take, drop, if◌then◌else◌,
}
use ime_fcitx.Wire.Messages.{MessageType, type_code, max_utf8_string_bytes}
use ime_fcitx.Wire.Messages.{
  open_session, predict, prediction, close_session, status, shutdown, error, record_commit,
  discard_commit,
}
use ime_fcitx.Wire.Reading.{
  Reader, Writer, ◌>>=◌, ◌>>◌, return, refuse, require, ◌<+>◌, provided, read_each, write_each,
}
use ime_fcitx.Pipe.Characters.{valid_scalar, valid_utf16, valid_utf8}

unfoldable pub append_u8 : ℕ → Writer
append_u8 value = some (value % 256 ∷ [])

unfoldable pub append_u16 : ℕ → Writer
append_u16 value = some (value % 256 ∷ (value / 256) % 256 ∷ [])

-- The loop over the shifts, from this one on.
unfoldable pub shifted_bytes : ℕ → ℕ → ℕ → List ℕ
shifted_bytes zero shift value = []
shifted_bytes (suc n) shift value = (value / 2 ^ shift) % 256 ∷ shifted_bytes n (shift + 8) value

unfoldable pub append_u32 : ℕ → Writer
append_u32 value = some (shifted_bytes 4 0 value)

unfoldable pub append_u64 : ℕ → Writer
append_u64 value = some (shifted_bytes 8 0 value)

unfoldable pub append_flag : Bool → Writer
append_flag true = append_u8 1
append_flag false = append_u8 0

unfoldable pub append_id : List ℕ → Writer
append_id value = some value

-- `append_u32(checked_size(size, limit))`; no size reaches 2 ^ 32.
unfoldable pub checked_size : ℕ → ℕ → Writer
checked_size size limit = provided (leb size limit) (append_u32 size)

unfoldable pub append_utf8 : List ℕ → Writer
append_utf8 value =
    provided (valid_utf8 value) (checked_size (length value) max_utf8_string_bytes <+> some value)

unfoldable pub append_utf16 : List ℕ → ℕ → Writer
append_utf16 value limit =
    provided (valid_utf16 value) (checked_size (length value) limit <+> write_each append_u16 value)

unfoldable pub append_scalar : ℕ → Writer
append_scalar value = provided (valid_scalar value) (append_u32 value)

unfoldable pub append_type : MessageType → Writer
append_type value = append_u8 (type_code value)

unfoldable pub u8 : Reader ℕ
u8 [] = none
u8 (byte ∷ bytes) = some (byte, bytes)

unfoldable pub u16 : Reader ℕ
u16 [] = none
u16 (low ∷ []) = none
u16 (low ∷ high ∷ bytes) = some (low + high * 256, bytes)

-- The loop over the shifts, with what is read so far.
unfoldable pub shifted_value : ℕ → ℕ → ℕ → Reader ℕ
shifted_value zero shift value = return value
shifted_value (suc n) shift value = do
  byte ← u8
  shifted_value n (shift + 8) (value + byte * 2 ^ shift)

unfoldable pub u32 : Reader ℕ
u32 = shifted_value 4 0 0

unfoldable pub u64 : Reader ℕ
u64 = shifted_value 8 0 0

-- `u8() != 0`
unfoldable pub flag : Reader Bool
flag = do byte ← u8; return (not (byte == 0))

-- The next bytes as they are, so many.
unfoldable pub raw : ℕ → Reader (List ℕ)
raw n bytes = if leb n (length bytes) then some (take n bytes, drop n bytes) else none

unfoldable pub id : Reader (List ℕ)
id = raw 16

-- `require` of a test on `remaining()`.
unfoldable pub require_remaining : (ℕ → Bool) → Reader (Unit {0})
require_remaining test bytes = require (test (length bytes)) bytes

unfoldable pub utf8 : Reader (List ℕ)
utf8 = do
  size ← u32
  require (leb size max_utf8_string_bytes)
  value ← raw size
  require (valid_utf8 value)
  return value

unfoldable pub utf16 : ℕ → Reader (List ℕ)
utf16 limit = do
  count ← u32
  require (leb count limit)
  require_remaining (λ remaining. leb count (remaining / 2))
  value ← read_each count u16
  require (valid_utf16 value)
  return value

unfoldable pub scalar : Reader ℕ
scalar = do value ← u32; require (valid_scalar value); return value

-- The end of the frame.
unfoldable pub require_done : {A : Type 0} → A → Reader A
require_done a [] = some (a, [])
require_done a (byte ∷ bytes) = none

unfoldable pub type_of_code : ℕ → Reader MessageType
type_of_code raw =
    if raw == 1
    then return open_session
    else if raw == 2
    then return predict
    else if raw == 3
    then return prediction
    else if raw == 4
    then return close_session
    else if raw == 5
    then return status
    else if raw == 6
    then return shutdown
    else if raw == 7
    then return error
    else if raw == 8
    then return record_commit
    else if raw == 9
    then return discard_commit
    else refuse

unfoldable pub read_type : Reader MessageType
read_type = do raw ← u8; type_of_code raw

-- `require_count`, with a minimum of bytes that an entry takes.
unfoldable pub require_count : ℕ → ℕ → Reader (Unit {0})
require_count count minimum =
    require_remaining
      (λ remaining. leb count 65536 && (minimum == 0 || leb count (remaining / minimum)))
