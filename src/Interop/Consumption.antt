-- ===== src/Interop/Consumption.antt =====
-- How many bytes the readers of engine/src/protocol/protocol.cpp take at least.
use ime_fcitx.Prelude.{
  ℕ, zero, suc, ◌+◌, ◌*◌, ◌≤◌, Bool, true, false, not, ◌||◌, ◌==◌, some, List, [], ◌∷◌, length, ◌≡◌,
  arith, leb,
}
use ime_fcitx.Wire.Reading.{Reader, ◌>>=◌, return, require, read_each}
use ime_fcitx.Wire.Fields.{
  read_u8, read_bytes, read_u16, read_u32, read_utf16, read_scalar, require_remaining,
}
use ime_fcitx.Wire.Entries.{read_commit_rest, read_commit_entry, same_flag}
use ime_fcitx.Wire.Results.{bind_inv}

-- The reader takes so many bytes at least.
abbrev pub Consumes : {A : Type 0} → ℕ → Reader A → Type 0
Consumes m r =
    (bytes rest : List ℕ) (a : _) → r bytes ≡ some (a, rest) → m + length rest ≤ length bytes

module _ {A B : Type 0} where
  >>=-Consumes :
      (m n : ℕ) (r : Reader A) (f : A → Reader B)
      → Consumes m r
      → ((a : A) → Consumes n (f a))
      → Consumes (m + n) (r >>= f)
  >>=-Consumes m n r f h k bytes rest b e =
      let (a, later, ea, eb) = bind_inv r f bytes rest b e in
      let front = h bytes later a ea in let back = k a later rest b eb in omega arith

return-Consumes : {A : Type 0} (a : A) → Consumes 0 (return a)
return-Consumes a bytes rest b e = let same : bytes ≡ rest = cc in rw same (omega arith)

require-Consumes : (c : Bool) → Consumes 0 (require c)
require-Consumes true bytes rest b e = let same : bytes ≡ rest = cc in rw same (omega arith)
require-Consumes false bytes rest b e = absurd (cc)

require_remaining-Consumes : (test : ℕ → Bool) → Consumes 0 (require_remaining test)
unfolding require_remaining
require_remaining-Consumes test bytes = require-Consumes (test (length bytes)) bytes

read_u8-Consumes : Consumes 1 read_u8
unfolding read_u8
read_u8-Consumes [] rest b e = absurd (cc)
read_u8-Consumes (byte ∷ bytes) rest b e = let same : bytes ≡ rest = cc in rw same (omega arith)

read_bytes-Consumes : (n : ℕ) → Consumes n (read_bytes n)
unfolding read_bytes
read_bytes-Consumes zero bytes rest b e = return-Consumes 0 bytes rest b e
read_bytes-Consumes (suc n) bytes rest b e =
    let taken =
      >>=-Consumes 1 (n + 0) read_u8 _ read_u8-Consumes
        (λ byte.
          >>=-Consumes n 0 (read_bytes n) _ (read_bytes-Consumes n) (λ high. return-Consumes _))
        bytes rest b e in
    omega arith

pub read_each-Consumes :
    {A : Type 0} (m : ℕ) (r : Reader A) → Consumes m r → (n : ℕ) → Consumes (n * m) (read_each n r)
unfolding read_each
read_each-Consumes m r h zero bytes rest b e =
    let taken = return-Consumes [] bytes rest b e in omega arith
read_each-Consumes m r h (suc n) bytes rest b e =
    let taken =
      >>=-Consumes m (n * m + 0) r _ h
        (λ item.
          >>=-Consumes (n * m) 0 (read_each n r) _ (read_each-Consumes m r h n)
            (λ items. return-Consumes _))
        bytes rest b e in
    grind arith

read_scalar-Consumes : Consumes 4 read_scalar
unfolding read_scalar read_u32
read_scalar-Consumes =
    >>=-Consumes 4 0 (read_bytes 4) _ (read_bytes-Consumes 4)
      (λ value. >>=-Consumes 0 0 (require _) _ (require-Consumes _) (λ u. return-Consumes value))

read_utf16-Consumes : (limit : ℕ) → Consumes 4 (read_utf16 limit)
unfolding read_utf16 read_u32 read_u16
read_utf16-Consumes limit = >>=-Consumes 4 0 (read_bytes 4) _ (read_bytes-Consumes 4) (λ count.
    >>=-Consumes 0 0 (require (leb count limit)) _ (require-Consumes _) (λ u.
      >>=-Consumes 0 0 (require_remaining _) _ (require_remaining-Consumes _) (λ v.
        >>=-Consumes 0 0 (read_each count (read_bytes 2)) _
          (λ bytes rest b e.
            let taken =
              read_each-Consumes 2 (read_bytes 2) (read_bytes-Consumes 2) count bytes rest b e in
            omega arith)
          (λ value.
            >>=-Consumes 0 0 (require _) _ (require-Consumes _) (λ w. return-Consumes value)))))

pub read_commit_entry-Consumes : Consumes 10 read_commit_entry
unfolding read_commit_entry read_commit_rest
read_commit_entry-Consumes =
    >>=-Consumes 4 6 (read_utf16 64) read_commit_rest (read_utf16-Consumes 64) (λ reading.
      >>=-Consumes 4 2 read_scalar _ read_scalar-Consumes (λ character.
        >>=-Consumes 1 1 read_u8 _ read_u8-Consumes (λ manual.
          >>=-Consumes 1 0 read_u8 _ read_u8-Consumes (λ literal.
            >>=-Consumes 0 0
              (require (not (character == 0 || not (leb manual 1) || not (leb literal 1)))) _
              (require-Consumes _)
              (λ u.
                >>=-Consumes 0 0 (require (same_flag (not (literal == 0)) (length reading == 0))) _
                  (require-Consumes _)
                  (λ v. return-Consumes (record {
                    reading = reading;
                    character = character;
                    manually_selected = not (manual == 0);
                    literal = not (literal == 0);
                  })))))))
