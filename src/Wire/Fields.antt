-- ===== src/Wire/Fields.antt =====
-- The fields of a message, as engine/src/protocol/protocol.cpp writes and reads them. A shift is a
-- quotient or a product by 256, byte by byte, the lowest first.
use ime_fcitx.Prelude.{
  ℕ, zero, suc, ◌+◌, ◌*◌, ◌/◌, ◌%◌, Bool, true, false, not, ◌&&◌, ◌||◌, none, some, List, [], ◌∷◌,
  ◌==◌, leb, length, take, drop, if◌then◌else◌,
}
use ime_fcitx.Wire.Messages.{MessageType, type_code, max_utf8_string_bytes}
use ime_fcitx.Wire.Messages.{
  open_session, predict, prediction, close_session, status, shutdown, error, record_commit,
  discard_commit,
}
use ime_fcitx.Wire.Reading.{
  Reader, Writer, ◌>>=◌, ◌>>◌, return, refuse, require, ◌<+>◌, provided, read_each, write_each,
}
use ime_fcitx.Wire.Characters.{valid_scalar, valid_utf16, valid_utf8}

unfoldable pub u8 : ℕ → Writer
u8 value = some (value % 256 ∷ [])

-- The bytes of a number, and their number.
unfoldable pub low_bytes : ℕ → ℕ → List ℕ
low_bytes zero value = []
low_bytes (suc n) value = (value % 256) ∷ low_bytes n (value / 256)

unfoldable pub u16 : ℕ → Writer
u16 value = some (low_bytes 2 value)

unfoldable pub u32 : ℕ → Writer
u32 value = some (low_bytes 4 value)

unfoldable pub u64 : ℕ → Writer
u64 value = some (low_bytes 8 value)

-- `u8` of a flag
unfoldable pub flag : Bool → Writer
flag true = u8 1
flag false = u8 0

unfoldable pub id : List ℕ → Writer
id value = some value

-- `u32(checked(size, limit))`; no size reaches 2 ^ 32.
unfoldable pub checked : ℕ → ℕ → Writer
checked size limit = provided (leb size limit) (u32 size)

unfoldable pub text8 : List ℕ → Writer
text8 value =
    provided (valid_utf8 value) (checked (length value) max_utf8_string_bytes <+> some value)

unfoldable pub text16 : List ℕ → ℕ → Writer
text16 value limit =
    provided (valid_utf16 value) (checked (length value) limit <+> write_each u16 value)

unfoldable pub scalar : ℕ → Writer
scalar value = provided (valid_scalar value) (u32 value)

unfoldable pub type : MessageType → Writer
type value = u8 (type_code value)

unfoldable pub read_u8 : Reader ℕ
read_u8 [] = none
read_u8 (byte ∷ bytes) = some (byte, bytes)

-- The number in so many bytes.
unfoldable pub read_bytes : ℕ → Reader ℕ
read_bytes zero = return 0
read_bytes (suc n) = do byte ← read_u8; high ← read_bytes n; return (byte + 256 * high)

unfoldable pub read_u16 : Reader ℕ
read_u16 = read_bytes 2

unfoldable pub read_u32 : Reader ℕ
read_u32 = read_bytes 4

unfoldable pub read_u64 : Reader ℕ
read_u64 = read_bytes 8

-- `read_u8() != 0`
unfoldable pub read_flag : Reader Bool
read_flag = do byte ← read_u8; return (not (byte == 0))

-- The next bytes as they are, so many.
unfoldable pub read_raw : ℕ → Reader (List ℕ)
read_raw n bytes = if leb n (length bytes) then some (take n bytes, drop n bytes) else none

unfoldable pub read_id : Reader (List ℕ)
read_id = read_raw 16

-- `require` of a test on `remaining()`.
unfoldable pub require_remaining : (ℕ → Bool) → Reader (Unit {0})
require_remaining test bytes = require (test (length bytes)) bytes

unfoldable pub read_utf8 : Reader (List ℕ)
read_utf8 = do
  size ← read_u32
  require (leb size max_utf8_string_bytes)
  value ← read_raw size
  require (valid_utf8 value)
  return value

unfoldable pub read_utf16 : ℕ → Reader (List ℕ)
read_utf16 limit = do
  count ← read_u32
  require (leb count limit)
  require_remaining (λ remaining. leb count (remaining / 2))
  value ← read_each count read_u16
  require (valid_utf16 value)
  return value

unfoldable pub read_scalar : Reader ℕ
read_scalar = do value ← read_u32; require (valid_scalar value); return value

-- The end of the frame.
unfoldable pub done : {A : Type 0} → A → Reader A
done a [] = some (a, [])
done a (byte ∷ bytes) = none

unfoldable pub type_of_code : ℕ → Reader MessageType
type_of_code raw =
    if raw == 1
    then return open_session
    else if raw == 2
    then return predict
    else if raw == 3
    then return prediction
    else if raw == 4
    then return close_session
    else if raw == 5
    then return status
    else if raw == 6
    then return shutdown
    else if raw == 7
    then return error
    else if raw == 8
    then return record_commit
    else if raw == 9
    then return discard_commit
    else refuse

unfoldable pub read_type : Reader MessageType
read_type = do raw ← read_u8; type_of_code raw

-- `count_ok`, with a minimum of bytes that an entry takes.
unfoldable pub count_ok : ℕ → ℕ → Reader (Unit {0})
count_ok count minimum =
    require_remaining
      (λ remaining. leb count 65536 && (minimum == 0 || leb count (remaining / minimum)))
