-- ===== src/Wire/RoundTrip/Repeats.antt =====
-- Repeated fields and texts of UTF-16 are read back as they were written, engine/src/protocol/protocol.cpp.
use ime_fcitx.Prelude.{
  ℕ, ◌*◌, ◌/◌, ◌^◌, ◌≤◌, ◌<◌, true, ◌||◌, some, List, [], ◌∷◌, ◌++◌, map, ◌==◌, leb, leb→le, length,
  length-append, All, ◌≡◌, refl, ap, ◌∙◌, arith,
}
use ime_fcitx.Wire.Reading.{
  Reader, Writer, ◌>>=◌, ◌>>◌, ◌<+>◌, read_each, write_each, ReadsBack, <+>-some, >>=-ReadsBack,
  require-ReadsBack, provided-ReadsBack, return-ReadsBack,
}
use ime_fcitx.Wire.Characters.{valid_scalar, valid_utf16}
use ime_fcitx.Wire.Fields.{
  u16, u32, checked, text16, scalar, read_u16, read_u32, read_utf16, read_scalar, count_ok,
  low_bytes,
}
use ime_fcitx.Wire.RoundTrip.Fields.{
  u16-ReadsBack, u32-ReadsBack, sized-ReadsBack, >>=-pure-ReadsBack, require_remaining-ReadsBack,
}

module _ {A B : Type 0} (P : A → Type 0) (w : A → Writer) (r : Reader B) (g : A → B) where
  -- Each item is read back as what `g` makes of it.
  pub read_each-ReadsBack :
      (items : List A)
      → All P items
      → ((a : A) → P a → ReadsBack (w a) r (g a))
      → ReadsBack (write_each w items) (read_each (length items) r) (map g items)
  unfolding read_each write_each
  read_each-ReadsBack [] h k = return-ReadsBack []
  read_each-ReadsBack (item ∷ items) (p, h) k =
      >>=-ReadsBack (w item) (write_each w items) r _ (g item) (g item ∷ map g items) (k item p) (
        >>=-pure-ReadsBack (write_each w items) (read_each (length items) r) _ (map g items)
          (g item ∷ map g items) (read_each-ReadsBack items h k) (λ rest. refl))

module _ {A : Type 0} (w : A → Writer) where
  -- Items of so many bytes at least.
  pub write_each-length :
      (m : ℕ)
      → ((a : A) (xs : List ℕ) → w a ≡ some xs → m ≤ length xs)
      → (items : List A) (bytes : List ℕ) → write_each w items ≡ some bytes
      → length items * m ≤ length bytes
  unfolding write_each
  write_each-length m h [] bytes e = omega arith
  write_each-length m h (item ∷ items) bytes e =
      let (xs, ys, ex, ey, same) = <+>-some (w item) (write_each w items) e in
      let here = h item xs ex in
      let later = write_each-length m h items ys ey in
      let sum = length-append xs ys in rw (same, sum) (grind arith)

pub map_id : {A : Type 0} (items : List A) → map (λ a. a) items ≡ items
map_id [] = refl
map_id (item ∷ items) = ap (λ xs. item ∷ xs) (map_id items)

u16-length : (value : ℕ) (xs : List ℕ) → u16 value ≡ some xs → 2 ≤ length xs
unfolding u16 low_bytes
u16-length value xs e = let same : low_bytes 2 value ≡ xs = cc in rw (← same) (omega arith)

pub text16-ReadsBack :
    (value : List ℕ) (limit : ℕ)
    → limit < 2 ^ 32
    → All (λ unit. unit < 65536) value
    → ReadsBack (text16 value limit) (read_utf16 limit) value
unfolding text16 read_utf16
text16-ReadsBack value limit h units =
    provided-ReadsBack (valid_utf16 value) _ (read_utf16 limit) value (λ valid.
      sized-ReadsBack (length value) limit (write_each u16 value) _ value h (λ fits.
        require-ReadsBack (leb (length value) limit) (write_each u16 value) _ value fits (
          require_remaining-ReadsBack (λ remaining. leb (length value) (remaining / 2))
            (write_each u16 value) _ value
            (λ bytes rest e.
              let room = write_each-length u16 2 u16-length value bytes e in
              let sum = length-append bytes rest in ground arith)
            (>>=-pure-ReadsBack (write_each u16 value) (read_each (length value) read_u16) _ value
              value
              (let each =
                  read_each-ReadsBack (λ unit. unit < 65536) u16 read_u16 (λ unit. unit) value units
                    u16-ReadsBack in
                λ bytes e rest. each bytes e rest ∙ ap (λ xs. some (xs, rest)) (map_id value))
              (λ rest. rw valid refl)))))

pub scalar-ReadsBack : (value : ℕ) → ReadsBack (scalar value) read_scalar value
unfolding scalar read_scalar valid_scalar
scalar-ReadsBack value =
    provided-ReadsBack (valid_scalar value) (u32 value) read_scalar value (λ valid.
      >>=-pure-ReadsBack (u32 value) read_u32 _ value value (u32-ReadsBack value (ground arith))
        (λ rest. rw valid refl))

-- A counted field has room for its items, of `m` bytes at least.
pub repeated-ReadsBack :
    {A B : Type 0} (m : ℕ) (P : A → Type 0) (w : A → Writer) (r : Reader B) (g : A → B)
    (items : List A) (limit : ℕ)
    → limit ≤ 65536
    → ((count remaining : ℕ) → count * m ≤ remaining → (m == 0 || leb count (remaining / m)) ≡ true)
    → ((a : A) (xs : List ℕ) → w a ≡ some xs → m ≤ length xs)
    → All P items
    → ((a : A) → P a → ReadsBack (w a) r (g a))
    → ReadsBack
        (checked (length items) limit <+> write_each w items)
        (read_u32 >>= λ count. count_ok count m >> read_each count r)
        (map g items)
unfolding count_ok
repeated-ReadsBack m P w r g items limit h room size all k =
    sized-ReadsBack (length items) limit (write_each w items) _ (map g items) (omega arith) (λ fits.
      require_remaining-ReadsBack _ (write_each w items) (read_each (length items) r) (map g items)
        (λ bytes rest e.
          let below = leb→le (length items) limit fits in
          let space = write_each-length w m size items bytes e in
          let sum = length-append bytes rest in
          let allowed = room (length items) (length (bytes ++ rest)) (omega arith) in
          let small : leb (length items) 65536 ≡ true = ground arith in rw (small, allowed) refl)
        (read_each-ReadsBack P w r g items all k))
