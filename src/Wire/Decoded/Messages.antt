-- ===== src/Wire/Decoded/Messages.antt =====
-- The two decoders of engine/src/protocol/protocol.cpp, and what `decode` promises of a message.
use ime_fcitx.Prelude.{ℕ, Option-cases, none, some, List, ◌≡◌, refl, ap, ◌∙◌, inl, inr}
use ime_fcitx.Wire.Messages.{MessageType, Message, message_type}
use ime_fcitx.Wire.Reading.{Reader, ◌>>=◌, bind_some}
use ime_fcitx.Wire.Fields.{read_type}
use ime_fcitx.Wire.Decode.{decode_body, open_frame, run_reader, decode, decode_message_type}
use ime_fcitx.Wire.Results.{bind_inv}
use ime_fcitx.Wire.Decoded.Bodies.{IsDecoded, decode_body-Gives}

pub run_reader_inv :
    {A : Type 0} (r : Reader A) (frame : List ℕ) (a : A)
    → run_reader r frame ≡ some a
    → (rest : List ℕ) × (r frame ≡ some (a, rest))
unfolding run_reader
run_reader_inv r frame a e = elim (Option-cases (r frame)) [
  | inl none_e ↦
      let refused : run_reader r frame ≡ none = rw (run_reader, none_e) refl in absurd (cc)
  | inr ((b, rest), some_e) ↦
      let given : run_reader r frame ≡ some b = rw (run_reader, some_e) refl in
      let same : b ≡ a = cc in (rest, some_e ∙ ap (λ c. some (c, rest)) same)
]

-- What `decode` takes apart: the frame, the type in front, and the body.
decode_inv :
    (frame : List ℕ) (m : Message)
    → decode frame ≡ some m
    → (t : MessageType) × (payload body rest : List ℕ) × (open_frame frame ≡ some (tt, payload))
      × (read_type payload ≡ some (t, body))
      × (decode_body t body ≡ some (m, rest))
unfolding decode
decode_inv frame m e =
    let (rest, given) = run_reader_inv _ frame m e in
    let (u, payload, opened, later) = bind_inv open_frame _ frame rest m given in
    let (t, body, typed, decoded) = bind_inv read_type decode_body payload rest m later in
    (t, payload, body, rest, opened, typed, decoded)

-- In a decoded message every identifier of a session, a service, an event or a source has 16 bytes; the number of
-- a request for a prediction and of the prediction, and the identifiers of a message that closes a session,
-- asks to record a commit, or discards one, are not zero; texts are valid and within their limits; chosen and
-- committed characters are scalars other than 0, and candidates are scalars; and a commit has one to 1024
-- entries, whose literals are the entries without reading.
pub decode-IsDecoded : (frame : List ℕ) (m : Message) → decode frame ≡ some m → IsDecoded m
decode-IsDecoded frame m e =
    let (t, payload, body, rest, opened, typed, decoded) = decode_inv frame m e in
    let (kind, promised) = decode_body-Gives t body rest m decoded in promised

-- Where `decode` gives a message, `decode_message_type` gives its type.
pub decode_message_type-decode :
    (frame : List ℕ) (m : Message)
    → decode frame ≡ some m
    → decode_message_type frame ≡ some (message_type m)
unfolding decode_message_type run_reader
decode_message_type-decode frame m e =
    let (t, payload, body, rest, opened, typed, decoded) = decode_inv frame m e in
    let (kind, promised) = decode_body-Gives t body rest m decoded in
    let whole : (open_frame >>= λ u. read_type) frame ≡ some (t, body) =
      bind_some open_frame (λ u. read_type) opened ∙ typed in
    rw (run_reader, whole, kind) refl
