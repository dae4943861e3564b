-- ===== src/Wire/RoundTrip/Fields.antt =====
-- The fields of a message are read back as they were written, engine/src/protocol/protocol.cpp.
use ime_fcitx.Prelude.{
  ℕ, zero, suc, ◌+◌, ◌*◌, ◌/◌, ◌%◌, ◌^◌, ◌<◌, Bool, true, false, none, some, List, [], ◌∷◌, ◌++◌,
  leb, leb→le, length, length-append, take, drop, ◌≡◌, refl, sym, ap, ◌∙◌, arith, Bool-cases, inl,
  inr,
}
use ime_fcitx.Wire.Messages.{max_utf8_string_bytes}
use ime_fcitx.Wire.Reading.{
  Reader, Writer, ◌>>=◌, ◌>>◌, return, ◌<+>◌, Reads, ReadsBack, bind_some, >>=-ReadsBack,
  require-ReadsBack, provided-ReadsBack,
}
use ime_fcitx.Wire.Characters.{valid_utf8}
use ime_fcitx.Wire.Fields.{
  u8, low_bytes, u16, u32, u64, flag, id, checked, text8, read_u8, read_bytes, read_u16, read_u32,
  read_u64, read_flag, read_raw, read_id, require_remaining, read_utf8,
}

-- The number is used up by so many bytes.
abbrev Fits : ℕ → ℕ → Type 0
Fits zero value = value ≡ 0
Fits (suc n) value = Fits n (value / 256)

-- A reader that takes nothing more behind one that reads back.
pub >>=-pure-ReadsBack :
    {A B : Type 0} (w : Writer) (r : Reader A) (f : A → Reader B) (a : A) (b : B)
    → ReadsBack w r a
    → ((rest : List ℕ) → f a rest ≡ some (b, rest))
    → ReadsBack w (r >>= f) b
>>=-pure-ReadsBack w r f a b h k bytes e rest = bind_some r f (h bytes e rest) ∙ k rest

pub require_remaining-ReadsBack :
    {B : Type 0} (test : ℕ → Bool) (w : Writer) (r : Reader B) (b : B)
    → ((bytes rest : List ℕ) → w ≡ some bytes → test (length (bytes ++ rest)) ≡ true)
    → ReadsBack w r b
    → ReadsBack w (require_remaining test >> r) b
unfolding require_remaining
require_remaining-ReadsBack test w r b h k bytes e rest =
    let passes : require_remaining test (bytes ++ rest) ≡ some (tt, bytes ++ rest) =
      rw (h bytes rest e) refl in
    bind_some (require_remaining test) (λ _. r) passes ∙ k bytes e rest

pub u8-ReadsBack : (value : ℕ) → value < 256 → ReadsBack (u8 value) read_u8 value
unfolding u8 read_u8
u8-ReadsBack value h bytes e rest = ground arith

low_bytes-Reads : (n value : ℕ) → Fits n value → Reads (read_bytes n) (low_bytes n value) value
unfolding low_bytes read_bytes read_u8
low_bytes-Reads zero value h rest = ground arith
low_bytes-Reads (suc n) value h rest =
    bind_some (read_bytes n) (λ high. return (value % 256 + 256 * high))
      (low_bytes-Reads n (value / 256) h rest)
    ∙ ap (λ v. some (v, rest))
        (let same : value % 256 + 256 * (value / 256) ≡ value = omega arith in same)

pub u16-ReadsBack : (value : ℕ) → value < 65536 → ReadsBack (u16 value) read_u16 value
unfolding u16 read_u16
u16-ReadsBack value h bytes e rest =
    let same : low_bytes 2 value ≡ bytes = cc in
    rw (← same) (low_bytes-Reads 2 value (omega arith) rest)

pub u32-ReadsBack : (value : ℕ) → value < 2 ^ 32 → ReadsBack (u32 value) read_u32 value
unfolding u32 read_u32
u32-ReadsBack value h bytes e rest =
    let same : low_bytes 4 value ≡ bytes = cc in
    rw (← same) (low_bytes-Reads 4 value (omega arith) rest)

pub u64-ReadsBack : (value : ℕ) → value < 2 ^ 64 → ReadsBack (u64 value) read_u64 value
unfolding u64 read_u64
u64-ReadsBack value h bytes e rest =
    let same : low_bytes 8 value ≡ bytes = cc in
    rw (← same) (low_bytes-Reads 8 value (omega arith) rest)

pub flag-ReadsBack : (b : Bool) → ReadsBack (flag b) read_flag b
unfolding flag read_flag u8 read_u8
flag-ReadsBack true bytes e rest = ground arith
flag-ReadsBack false bytes e rest = ground arith

take-append : (xs ys : List ℕ) → take (length xs) (xs ++ ys) ≡ xs
take-append [] ys = refl
take-append (x ∷ xs) ys = ap (λ zs. x ∷ zs) (take-append xs ys)

drop-append : (xs ys : List ℕ) → drop (length xs) (xs ++ ys) ≡ ys
drop-append [] ys = refl
drop-append (x ∷ xs) ys = drop-append xs ys

-- A writer that does not refuse.
pub some-ReadsBack :
    {A : Type 0} (xs : List ℕ) (r : Reader A) (a : A) → Reads r xs a → ReadsBack (some xs) r a
some-ReadsBack xs r a h bytes e rest =
    let same : xs ≡ bytes = cc in ap (λ ys. r (ys ++ rest)) (sym same) ∙ h rest

pub read_raw-ReadsBack : (value : List ℕ) → ReadsBack (some value) (read_raw (length value)) value
unfolding read_raw
read_raw-ReadsBack value = some-ReadsBack value (read_raw (length value)) value (λ rest.
    let sum = length-append value rest in
    let fits : leb (length value) (length (value ++ rest)) ≡ true = ground arith in
    rw (fits, take-append value rest, drop-append value rest) refl)

pub id-ReadsBack : (value : List ℕ) → length value ≡ 16 → ReadsBack (id value) read_id value
unfolding id read_id
id-ReadsBack value h bytes e rest =
    ap (λ n. read_raw n (bytes ++ rest)) (sym h) ∙ read_raw-ReadsBack value bytes e rest

pub checked-ReadsBack :
    (size limit : ℕ) → limit < 2 ^ 32 → ReadsBack (checked size limit) read_u32 size
unfolding checked
checked-ReadsBack size limit h =
    provided-ReadsBack (leb size limit) (u32 size) read_u32 size
      (λ fits. u32-ReadsBack size (let below = leb→le size limit fits in omega arith))

-- A size is within its limit when it has been written.
pub sized-ReadsBack :
    {B : Type 0} (size limit : ℕ) (v : Writer) (f : ℕ → Reader B) (b : B)
    → limit < 2 ^ 32
    → (leb size limit ≡ true → ReadsBack v (f size) b)
    → ReadsBack (checked size limit <+> v) (read_u32 >>= f) b
unfolding checked
sized-ReadsBack size limit v f b h k = elim (Bool-cases (leb size limit)) [
  | inl fits ↦
      >>=-ReadsBack (checked size limit) v read_u32 f size b (checked-ReadsBack size limit h)
        (k fits)
  | inr large ↦ λ bytes e rest. let refused : checked size limit ≡ none = rw large refl in cc
]

pub text8-ReadsBack : (value : List ℕ) → ReadsBack (text8 value) read_utf8 value
unfolding text8 read_utf8
text8-ReadsBack value = provided-ReadsBack (valid_utf8 value) _ read_utf8 value (λ valid.
    sized-ReadsBack (length value) max_utf8_string_bytes (some value) _ value (omega arith) (λ fits.
      require-ReadsBack (leb (length value) max_utf8_string_bytes) (some value) _ value fits (
        >>=-pure-ReadsBack (some value) (read_raw (length value)) _ value value
          (read_raw-ReadsBack value) (λ rest. rw valid refl))))
