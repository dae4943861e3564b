-- ===== src/Interop/Exchange.antt =====
-- A message across the socket: written by engine/src/protocol/protocol.cpp and read by
-- ime-unix-service/src/pipe/protocol.cpp, and back.
use ime_fcitx.Prelude.{ℕ, some, List, ◌≡◌, ◌∙◌}
use ime_fcitx.Wire.Messages.{Message}
use ime_fcitx.Wire
use ime_fcitx.Pipe
use ime_fcitx.Wire.RoundTrip.Messages.{IsMessage, canonical, decode-encode}
use ime_fcitx.Interop.Encode.{encode-engine}
use ime_fcitx.Interop.Decode.{decode-engine}

-- A message with fields of their machine types that the engine accepts for sending is read by the service as
-- it was, but for the field of each padding entry that is not sent; the service would send the same frame, and
-- the engine reads the same from it.
pub decode-encode_across :
    (m : Message) (frame : List ℕ)
    → IsMessage m
    → Wire.Encode.encode m ≡ some frame
    → (Pipe.Decode.decode frame ≡ some (canonical m))
      × (Pipe.Encode.encode m ≡ some frame)
      × (Wire.Decode.decode frame ≡ some (canonical m))
decode-encode_across m frame h e =
    let here = decode-encode m frame h e in (decode-engine frame ∙ here, encode-engine m ∙ e, here)
