-- ===== src/Tests/Wire.antt =====
-- Concrete runs of the codecs of engine/src/protocol and ime-unix-service/src/pipe.
use ime_fcitx.Prelude.{ℕ, ◌+◌, some, List, [], ◌∷◌, true, false, length, ◌≤◌, ◌≡◌, refl, arith}
use ime_fcitx.Wire.Messages.{Message, PredictRequest, PaddingEntry, predict_request}
use ime_fcitx.Wire.RoundTrip.Messages.{IsMessage, canonical, make_frame-opens, decode-encode}
use ime_fcitx.Wire.Decoded.Bodies.{IsDecoded}
use ime_fcitx.Wire.Decoded.Messages.{decode-IsDecoded, decode_message_type-decode}
use ime_fcitx.Interop.Encode.{encode-engine}
use ime_fcitx.Interop.Decode.{decode-engine}
use ime_fcitx.Interop.Exchange.{decode-encode_across}
use ime_fcitx.Wire
use ime_fcitx.Pipe

abbrev sample_id : List ℕ
sample_id = 1 ∷ 2 ∷ 3 ∷ 4 ∷ 5 ∷ 6 ∷ 7 ∷ 8 ∷ 9 ∷ 10 ∷ 11 ∷ 12 ∷ 13 ∷ 14 ∷ 15 ∷ 16 ∷ []

-- A reading and a character that is chosen already.
abbrev sample : Message
sample = predict_request (record {
  session_id = sample_id;
  request_id = 7;
  buffer_revision = 300;
  context = 0x4F60 ∷ [];
  padding =
      record { chosen = false; bopomofo = 0x3105 ∷ []; chosen_char = 0x41 }
      ∷ record { chosen = true; bopomofo = 0x3106 ∷ []; chosen_char = 0x597D }
      ∷ [];
})

abbrev sample_payload : List ℕ
sample_payload =
    2 ∷ 1 ∷ 2 ∷ 3 ∷ 4 ∷ 5 ∷ 6 ∷ 7 ∷ 8 ∷ 9 ∷ 10 ∷ 11 ∷ 12 ∷ 13 ∷ 14 ∷ 15 ∷ 16 ∷ 7 ∷ 0 ∷ 0 ∷ 0 ∷ 0 ∷ 0
    ∷ 0 ∷ 0 ∷ 44 ∷ 1 ∷ 0 ∷ 0 ∷ 0 ∷ 0 ∷ 0 ∷ 0 ∷ 1 ∷ 0 ∷ 0 ∷ 0 ∷ 96 ∷ 79 ∷ 2 ∷ 0 ∷ 0 ∷ 0 ∷ 0 ∷ 1 ∷ 0
    ∷ 0 ∷ 0 ∷ 5 ∷ 49 ∷ 1 ∷ 125 ∷ 89 ∷ 0 ∷ 0 ∷ []

abbrev sample_frame : List ℕ
sample_frame = 55 ∷ 0 ∷ 0 ∷ 0 ∷ sample_payload

sample_encodes : Wire.Encode.encode sample ≡ some sample_frame
unfolding Wire.Encode.encode Wire.Encode.encode_payload Wire.Encode.encode_predict
    Wire.Encode.make_frame Wire.Fields.u8 Wire.Fields.u16 Wire.Fields.low_bytes Wire.Fields.u32
    Wire.Fields.u64 Wire.Fields.flag Wire.Fields.id Wire.Fields.checked Wire.Fields.text16
    Wire.Fields.scalar Wire.Fields.type Wire.Entries.append_padding Wire.Characters.valid_scalar
    Wire.Characters.valid_utf16 Wire.Messages.is_zero Wire.Messages.type_code
    Wire.Reading.write_each
sample_encodes = refl

sample_frames : Wire.Encode.make_frame sample_payload ≡ some sample_frame
unfolding Wire.Encode.make_frame Wire.Fields.u32 Wire.Fields.low_bytes
sample_frames = refl

sample-IsMessage : IsMessage sample
unfolding IsMessage
sample-IsMessage = (
  refl,
  omega arith,
  omega arith,
  (omega arith, tt),
  ((omega arith, tt), ((omega arith, tt), tt)),
)

decode-encode_across_example :
    (Pipe.Decode.decode sample_frame ≡ some (canonical sample))
    × (Pipe.Encode.encode sample ≡ some sample_frame)
    × (Wire.Decode.decode sample_frame ≡ some (canonical sample))
decode-encode_across_example =
    decode-encode_across sample sample_frame sample-IsMessage sample_encodes

sample_decodes : Wire.Decode.decode sample_frame ≡ some (canonical sample)
sample_decodes = decode-encode sample sample_frame sample-IsMessage sample_encodes

decode-engine_example : Pipe.Decode.decode sample_frame ≡ Wire.Decode.decode sample_frame
decode-engine_example = decode-engine sample_frame

encode-engine_example : Pipe.Encode.encode sample ≡ Wire.Encode.encode sample
encode-engine_example = encode-engine sample

decode-IsDecoded_example : IsDecoded (canonical sample)
decode-IsDecoded_example = decode-IsDecoded sample_frame (canonical sample) sample_decodes

decode_message_type-decode_example :
    Wire.Decode.decode_message_type sample_frame
    ≡ some (Wire.Messages.message_type (canonical sample))
decode_message_type-decode_example =
    decode_message_type-decode sample_frame (canonical sample) sample_decodes

make_frame-opens_example :
    (Wire.Decode.open_frame sample_frame ≡ some (tt, sample_payload))
    × (length sample_frame ≡ 4 + length sample_payload)
    × (length sample_payload ≤ 1048576)
make_frame-opens_example = make_frame-opens sample_payload sample_frame sample_frames
