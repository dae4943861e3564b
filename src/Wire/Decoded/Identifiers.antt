-- ===== src/Wire/Decoded/Identifiers.antt =====
-- What the readers of identifiers promise, engine/src/protocol/protocol.cpp.
use ime_fcitx.Prelude.{
  ℕ, zero, suc, ◌≤◌, Bool, Bool-cases, inl, inr, take, Option, none, some, [], ◌∷◌, sym, ap, ◌∙◌,
  true, false, List, leb, leb→le, length, ◌≡◌, refl, arith,
}
use ime_fcitx.Wire.Messages.{SessionStatus}
use ime_fcitx.Wire.Fields.{read_u64, read_flag}
use ime_fcitx.Wire.Fields.{read_raw, read_id}
use ime_fcitx.Wire.Entries.{read_session_status}
use ime_fcitx.Wire.Decode.{read_optional}
use ime_fcitx.Wire.Results.{Gives, >>=-Gives, any-Gives, return-Gives}

-- An identifier of a session, a service, an event or a source.
abbrev pub IsId : List ℕ → Type 0
IsId id = length id ≡ 16

length-take : (n : ℕ) (bytes : List ℕ) → n ≤ length bytes → length (take n bytes) ≡ n
length-take zero bytes h = refl
length-take (suc n) [] h = absurd (omega arith)
length-take (suc n) (byte ∷ bytes) h = ap suc (length-take n bytes (omega arith))

pub read_raw-Gives : (n : ℕ) → Gives (λ value. length value ≡ n) (read_raw n)
unfolding read_raw
read_raw-Gives n bytes rest value e = elim (Bool-cases (leb n (length bytes))) [
  | inr short ↦ let refused = rw short at e in absurd (cc)
  | inl fits ↦
      let size = length-take n bytes (leb→le n (length bytes) fits) in
      let read = rw fits at e in let same : take n bytes ≡ value = cc in ap length (sym same) ∙ size
]

pub read_id-Gives : Gives IsId read_id
unfolding read_id
read_id-Gives = read_raw-Gives 16

-- An identifier that may be missing.
abbrev pub IsOptionalId : Option (List ℕ) → Type 0
IsOptionalId none = Unit
IsOptionalId (some id) = IsId id

pub read_optional_id-Gives : (present : Bool) → Gives IsOptionalId (read_optional read_id present)
unfolding read_optional
read_optional_id-Gives true =
    >>=-Gives IsId IsOptionalId read_id _ read_id-Gives
      (λ id h. return-Gives IsOptionalId (some id) h)
read_optional_id-Gives false = return-Gives IsOptionalId none tt

-- The status of the session that was asked for.
abbrev pub IsOptionalStatus : Option SessionStatus → Type 0
IsOptionalStatus none = Unit
IsOptionalStatus (some session) = IsId session.session_id

pub read_optional_status-Gives :
    (present : Bool) → Gives IsOptionalStatus (read_optional read_session_status present)
unfolding read_optional read_session_status
read_optional_status-Gives false = return-Gives IsOptionalStatus none tt
read_optional_status-Gives true =
    >>=-Gives (λ session. IsId session.session_id) IsOptionalStatus _ _
      (>>=-Gives IsId (λ session. IsId session.session_id) read_id _ read_id-Gives
        (λ session_id h. any-Gives _ read_flag _ (λ active. any-Gives _ read_flag _ (λ closing.
          any-Gives _ read_flag _
            (λ engine_loaded. any-Gives _ read_u64 _ (λ last_request_id. return-Gives _ _ h))))))
      (λ session h. return-Gives IsOptionalStatus (some session) h)
