-- ===== src/Interop/Fields.antt =====
-- The fields of the two codecs agree: ime-unix-service/src/pipe/protocol.cpp writes and reads by shifts what
-- engine/src/protocol/protocol.cpp does byte by byte in this model.
use ime_fcitx.Prelude.{ℕ, ◌+◌, ◌*◌, ◌/◌, some, List, [], ◌∷◌, ◌≡◌, refl, ap, arith}
use mathlib.Core.Path.{fun_ext}
use ime_fcitx.Wire
use ime_fcitx.Pipe

-- Division by 2 ^ shift, then by 256, is division by 2 ^ (shift + 8).
bytes-same : (value : ℕ) → Pipe.Fields.shifted_bytes 8 0 value ≡ Wire.Fields.low_bytes 8 value
unfolding Pipe.Fields.shifted_bytes Wire.Fields.low_bytes
bytes-same value =
    let e7 : value / 72057594037927936 ≡ value / 256 / 256 / 256 / 256 / 256 / 256 / 256 =
      omega arith in
    let e6 : value / 281474976710656 ≡ value / 256 / 256 / 256 / 256 / 256 / 256 = omega arith in
    let e5 : value / 1099511627776 ≡ value / 256 / 256 / 256 / 256 / 256 = omega arith in
    let e4 : value / 4294967296 ≡ value / 256 / 256 / 256 / 256 = omega arith in
    let e3 : value / 16777216 ≡ value / 256 / 256 / 256 = omega arith in
    let e2 : value / 65536 ≡ value / 256 / 256 = omega arith in
    let e0 : value / 1 ≡ value = omega arith in rw (e7, e6, e5, e4, e3, e2, e0) refl

bytes4-same : (value : ℕ) → Pipe.Fields.shifted_bytes 4 0 value ≡ Wire.Fields.low_bytes 4 value
unfolding Pipe.Fields.shifted_bytes Wire.Fields.low_bytes
bytes4-same value =
    let e3 : value / 16777216 ≡ value / 256 / 256 / 256 = omega arith in
    let e2 : value / 65536 ≡ value / 256 / 256 = omega arith in
    let e0 : value / 1 ≡ value = omega arith in rw (e3, e2, e0) refl

pub append_u32-same : Pipe.Fields.append_u32 ≡ Wire.Fields.u32
unfolding Pipe.Fields.append_u32 Wire.Fields.u32
append_u32-same = fun_ext (λ value. ap some (bytes4-same value))

pub append_u64-same : Pipe.Fields.append_u64 ≡ Wire.Fields.u64
unfolding Pipe.Fields.append_u64 Wire.Fields.u64
append_u64-same = fun_ext (λ value. ap some (bytes-same value))

pub append_u16-same : Pipe.Fields.append_u16 ≡ Wire.Fields.u16
unfolding Pipe.Fields.append_u16 Wire.Fields.u16 Wire.Fields.low_bytes
append_u16-same = fun_ext (λ value. refl)

u16_at : (bytes : List ℕ) → Pipe.Fields.u16 bytes ≡ Wire.Fields.read_u16 bytes
unfolding Pipe.Fields.u16 Wire.Fields.read_u16 Wire.Fields.read_bytes Wire.Fields.read_u8
u16_at [] = refl
u16_at (low ∷ []) = refl
u16_at (low ∷ high ∷ bytes) =
    ap (λ n. some (n, bytes))
      (let same : low + high * 256 ≡ low + 256 * (high + 256 * 0) = omega arith in same)

u32_at : (bytes : List ℕ) → Pipe.Fields.u32 bytes ≡ Wire.Fields.read_u32 bytes
unfolding Pipe.Fields.u32 Pipe.Fields.u8 Pipe.Fields.shifted_value Wire.Fields.read_u32
    Wire.Fields.read_bytes Wire.Fields.read_u8
u32_at [] = refl
u32_at (a ∷ []) = refl
u32_at (a ∷ b ∷ []) = refl
u32_at (a ∷ b ∷ c ∷ []) = refl
u32_at (a ∷ b ∷ c ∷ d ∷ bytes) =
    ap (λ n. some (n, bytes))
      (let same : 0 + a * 1 + b * 256 + c * 65536 + d * 16777216
            ≡ a + 256 * (b + 256 * (c + 256 * (d + 256 * 0))) =
          omega arith in
        same)

u64_at : (bytes : List ℕ) → Pipe.Fields.u64 bytes ≡ Wire.Fields.read_u64 bytes
unfolding Pipe.Fields.u64 Pipe.Fields.u8 Pipe.Fields.shifted_value Wire.Fields.read_u64
    Wire.Fields.read_bytes Wire.Fields.read_u8
u64_at [] = refl
u64_at (a ∷ []) = refl
u64_at (a ∷ b ∷ []) = refl
u64_at (a ∷ b ∷ c ∷ []) = refl
u64_at (a ∷ b ∷ c ∷ d ∷ []) = refl
u64_at (a ∷ b ∷ c ∷ d ∷ e ∷ []) = refl
u64_at (a ∷ b ∷ c ∷ d ∷ e ∷ f ∷ []) = refl
u64_at (a ∷ b ∷ c ∷ d ∷ e ∷ f ∷ g ∷ []) = refl
u64_at (a ∷ b ∷ c ∷ d ∷ e ∷ f ∷ g ∷ h ∷ bytes) =
    ap (λ n. some (n, bytes))
      (let same : 0
              + a * 1
              + b * 256
              + c * 65536
              + d * 16777216
              + e * 4294967296
              + f * 1099511627776
              + g * 281474976710656
              + h * 72057594037927936
            ≡ a
              + 256
                * (b
                    + 256
                      * (c + 256 * (d + 256 * (e + 256 * (f + 256 * (g + 256 * (h + 256 * 0))))))) =
          omega arith in
        same)

pub u8-same : Pipe.Fields.u8 ≡ Wire.Fields.read_u8
unfolding Pipe.Fields.u8 Wire.Fields.read_u8
u8-same = refl

pub u16-same : Pipe.Fields.u16 ≡ Wire.Fields.read_u16
u16-same = fun_ext u16_at

pub u32-same : Pipe.Fields.u32 ≡ Wire.Fields.read_u32
u32-same = fun_ext u32_at

pub u64-same : Pipe.Fields.u64 ≡ Wire.Fields.read_u64
u64-same = fun_ext u64_at
