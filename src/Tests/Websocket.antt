-- ===== src/Tests/Websocket.antt =====
-- Runs of the frames and of the encoders.
use simple_server.Prelude.{
  ◌≡◌, refl, All, IsByte, length, none, some, true, List, [], ◌∷◌, Bytes, codes, arith,
}
use simple_server.Socket.{Script}
use simple_server.Websocket.Base64.{
  base64_loop, base64_encode, encode_group, base64_char, b64, b64_step, store, quad, b64_finish,
  pad,
}
use simple_server.Websocket.Base64.Agree.{b64-eq-base64_encode}
use simple_server.Websocket.Frame.Bounds.{encode_frame-bounds}
use simple_server.Websocket.Base64.Decode.{decode, decode-base64_encode}
use simple_server.Websocket.Frame.{
  read_frame, read_frame_steps, read_length, read_masking_key, read_payload, finish, encode_frame,
  frame_header, push_bytes,
}
use simple_server.Websocket.Frame.Payload.{deliver, join}
use simple_server.Websocket.Frame.RoundTrip.{
  arriving, pieces, read_frame-encode_frame, read_frame-masked,
}

abbrev chunks : List Bytes
chunks = codes "Hel" ∷ codes "lo" ∷ []

abbrev masking_key : Bytes
masking_key = 0x37 ∷ 0xfa ∷ 0x21 ∷ 0x3d ∷ []

abbrev masked_chunks : List Bytes
masked_chunks = (0x7f ∷ 0x9f ∷ []) ∷ (0x4d ∷ 0x51 ∷ 0x58 ∷ []) ∷ []

abbrev later : Script
later = none ∷ []

read_frame-encode_frame_example :
    (join (pieces chunks) ≡ encode_frame (join chunks))
    × (read_frame (deliver (pieces chunks) later) ≡ (join chunks, later))
read_frame-encode_frame_example = read_frame-encode_frame chunks later (omega arith) (tt, (tt, tt))

read_frame-masked_example :
    read_frame (arriving 0x81 true masking_key masked_chunks later) ≡ (codes "Hello", later)
read_frame-masked_example =
    read_frame-masked 0x81 0x37 0xfa 0x21 0x3d masked_chunks later (codes "Hello") (omega arith)
      (tt, (tt, tt)) refl refl

read_frame_run :
    read_frame (some (0x81 ∷ 0x02 ∷ []) ∷ some (codes "h") ∷ some (codes "i") ∷ later)
    ≡ (codes "hi", later)
unfolding read_frame read_frame_steps read_length read_masking_key read_payload finish
read_frame_run = refl

encode_frame_run : encode_frame (codes "hi") ≡ 0x81 ∷ 2 ∷ codes "hi"
unfolding encode_frame frame_header push_bytes
encode_frame_run = refl

b64-eq-base64_encode_example :
    (base64_loop 3 (codes "Ma") 0 ≡ some (base64_encode (codes "Ma")))
    × (b64 (codes "Ma") ≡ base64_encode (codes "Ma"))
b64-eq-base64_encode_example =
    b64-eq-base64_encode 3 (codes "Ma") (omega arith, (omega arith, tt)) (omega arith) (omega arith)

decode-base64_encode_example :
    (base64_loop 3 (codes "Ma") 0 ≡ some (base64_encode (codes "Ma")))
    × (decode (base64_encode (codes "Ma")) ≡ codes "Ma")
decode-base64_encode_example =
    decode-base64_encode 3 (codes "Ma") (omega arith, (omega arith, tt)) (omega arith) (omega arith)

base64_run : base64_encode (codes "Ma") ≡ codes "TWE="
unfolding base64_encode encode_group base64_char
base64_run = refl

b64_run : b64 (codes "Ma") ≡ codes "TWE="
unfolding b64 b64_step store quad b64_finish pad base64_char
b64_run = refl

encode_frame-bounds_example :
    All IsByte (encode_frame (codes "hello")) × (length (encode_frame (codes "hello")) ≡ 7)
encode_frame-bounds_example = encode_frame-bounds (codes "hello") (ground arith)
