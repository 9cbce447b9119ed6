-- ===== src/Draft18/Frame/Laws.antt =====
-- decodeFramed on a whole frame.
use moq_web.Base.{
  ℕ, ◌+◌, ◌≤◌, ◌≡◌, refl, ap, List, ◌∷◌, ◌++◌, length, length-append, take-append_eq, Result, ok,
  arith,
}
use mathlib.Core.List.{append_assoc}
use moq_web.Varint.{max_safe_integer}
use moq_web.Buffers.Reader.{BufferReader}
use moq_web.Buffers.Writer.{BufferWriter, new, to_uint8_array}
use moq_web.Draft18.{CodecError}
use moq_web.Draft18.Frame.{encode_framed, decode_body, decode_framed}
use moq_web.Draft18.Frame.Parts.{
  high, low, encode_framed-IsFrame, first_byte_tells, peek-framed, decode_framed-found,
  length_bytes,
}

-- Where the bytes that encodeFramed wrote stand anywhere in a buffer, the type is a safe integer, and
-- the body's decoder reads the whole body as a message, decodeFramed at that offset gives the message
-- and the number of bytes written.
pub decode_framed-encode :
    {T : Type 0} (type : ℕ) (encode_payload : BufferWriter → Result CodecError BufferWriter)
    (decode_payload : BufferReader → Result CodecError (T × BufferReader)) (w : BufferWriter)
    (message : T) (front bytes back : List ℕ)
    → type ≤ max_safe_integer
    → encode_payload new ≡ ok w
    → encode_framed type encode_payload ≡ ok bytes
    → decode_body decode_payload (to_uint8_array w) ≡ ok message
    → decode_framed (front ++ (bytes ++ back)) (length front) decode_payload
      ≡ ok (message, length bytes)
decode_framed-encode type encode_payload decode_payload w message front bytes back safe written e
      reads =
    let payload = to_uint8_array w in
    let frame = encode_framed-IsFrame type encode_payload w bytes written e in
    let tb = frame.type_bytes in
    let n = length payload in
    let whole : bytes ++ back ≡ tb ++ (high n ∷ low n ∷ (payload ++ back)) =
      rw frame.joined (append_assoc tb (high n ∷ low n ∷ payload) back) in
    let (hi, lo, body, size) = length_bytes front tb (payload ++ back) n in
    let tells = first_byte_tells type front tb (high n ∷ low n ∷ (payload ++ back)) frame.typed in
    let peek = peek-framed type front tb (high n ∷ low n ∷ (payload ++ back)) frame.typed safe in
    let count : length bytes ≡ length tb + 2 + n =
      omega (arith, ap length frame.joined, length-append tb (high n ∷ low n ∷ payload)) in
    rw (whole, count)
      (decode_framed-found _ (length front) decode_payload type (length tb) n message peek tells hi
        lo frame.fits (omega (arith, length-append payload back))
        (rw (body, take-append_eq n payload back refl) reads))
