-- ===== src/Wire/RoundTrip/Payload.antt =====
-- How the body of a message is read behind its type and its kind, engine/src/protocol/protocol.cpp.
use ime_fcitx.Prelude.{
  ℕ, ◌%◌, ◌<◌, Bool, true, false, not, ◌||◌, some, List, [], ◌∷◌, append-nil, Option-cases, ◌≡◌,
  refl, sym, ap, ◌∙◌, arith, inl, inr,
}
use ime_fcitx.Wire.Messages.{MessageType, Message, type_code}
use ime_fcitx.Wire.Messages.{
  open_session, predict, prediction, close_session, status, shutdown, error, record_commit,
  discard_commit,
}
use ime_fcitx.Wire.Reading.{
  Reader, Writer, ◌>>=◌, ◌<+>◌, ReadsBack, ReadsBackAll, bind_some, >>=-ReadsBackAll,
}
use ime_fcitx.Wire.Fields.{u8, type, read_u8, read_type, type_of_code}
use ime_fcitx.Wire.Decode.{decode_body}
use ime_fcitx.Wire.RoundTrip.Fields.{some-ReadsBack}

-- The last reader, before the end of the frame.
pub >>=-done-ReadsBackAll :
    {A B : Type 0} (w : Writer) (r : Reader A) (f : A → Reader B) (a : A) (b : B)
    → ReadsBack w r a
    → f a [] ≡ some (b, [])
    → ReadsBackAll w (r >>= f) b
>>=-done-ReadsBackAll w r f a b h k bytes e =
    ap (r >>= f) (sym (append-nil bytes)) ∙ bind_some r f (h bytes e []) ∙ k

bind_assoc :
    {A B C : Type 0} (m : Reader A) (f : A → Reader B) (g : B → Reader C) (bytes : List ℕ)
    → (m >>= f >>= g) bytes ≡ (m >>= λ a. (f a >>= g)) bytes
bind_assoc m f g bytes = elim (Option-cases (m bytes)) [
  | inl e ↦ rw (◌>>=◌, e) refl
  | inr (ar, e) ↦ rw (◌>>=◌, e) refl
]

-- Two readers, read as one.
pub assoc-ReadsBackAll :
    {A B C : Type 0} (w : Writer) (m : Reader A) (f : A → Reader B) (g : B → Reader C) (c : C)
    → ReadsBackAll w (m >>= f >>= g) c
    → ReadsBackAll w (m >>= λ a. (f a >>= g)) c
assoc-ReadsBackAll w m f g c h bytes e = sym (bind_assoc m f g bytes) ∙ h bytes e

pub type-ReadsBack : (t : MessageType) → ReadsBack (type t) read_type t
unfolding type type_code u8 read_type type_of_code read_u8
type-ReadsBack open_session = some-ReadsBack (1 ∷ []) read_type open_session (λ rest. refl)
type-ReadsBack predict = some-ReadsBack (2 ∷ []) read_type predict (λ rest. refl)
type-ReadsBack prediction = some-ReadsBack (3 ∷ []) read_type prediction (λ rest. refl)
type-ReadsBack close_session = some-ReadsBack (4 ∷ []) read_type close_session (λ rest. refl)
type-ReadsBack status = some-ReadsBack (5 ∷ []) read_type status (λ rest. refl)
type-ReadsBack shutdown = some-ReadsBack (6 ∷ []) read_type shutdown (λ rest. refl)
type-ReadsBack error = some-ReadsBack (7 ∷ []) read_type error (λ rest. refl)
type-ReadsBack record_commit = some-ReadsBack (8 ∷ []) read_type record_commit (λ rest. refl)
type-ReadsBack discard_commit = some-ReadsBack (9 ∷ []) read_type discard_commit (λ rest. refl)

-- The reader of a payload.
abbrev pub payload_reader : Reader Message
payload_reader = read_type >>= decode_body

-- The type in front chooses the reader of the body.
pub typed-ReadsBackAll :
    (t : MessageType) (v : Writer) (m : Message)
    → ReadsBackAll v (decode_body t) m
    → ReadsBackAll (type t <+> v) payload_reader m
typed-ReadsBackAll t v m h =
    >>=-ReadsBackAll (type t) v read_type decode_body t m (type-ReadsBack t) h

-- A message whose body begins with its kind.
pub kind-ReadsBackAll :
    (kind : ℕ) (v : Writer) (f : ℕ → Reader Message) (m : Message)
    → kind < 256
    → ReadsBackAll v (f kind) m
    → ReadsBackAll (u8 kind <+> v) (read_u8 >>= f) m
unfolding u8 read_u8
kind-ReadsBackAll kind v f m h k =
    >>=-ReadsBackAll (u8 kind) v read_u8 f kind m
      (some-ReadsBack (kind % 256 ∷ []) read_u8 kind
        (λ rest. ap (λ n. some (n, rest)) (let same : kind % 256 ≡ kind = omega arith in same)))
      k

pub not_or_right : (a b : Bool) → not (a || b) ≡ true → not b ≡ true
not_or_right true b h = absurd (cc)
not_or_right false b h = h
