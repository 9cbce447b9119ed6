-- ===== src/Draft18/Frame.antt =====
-- The framing of control messages, encodeFramed and decodeFramed of
-- packages/core/src/encoding/codec-helpers.ts: the type, the length of the body in two bytes, the body.
pub mod Parts
pub mod Laws
pub mod Cut
use moq_web.Base.{
  ℕ, ◌+◌, List, [], ◌∷◌, ◌++◌, length, get_or, take, drop, Bool, Result, ok, err, ◌>>=◌, bit_and,
  bit_or, ltb, if◌then◌else◌,
}
use moq_web.Base.Bits.{shl, shr}
use moq_web.Base.Int.{ℤ, pos}
use moq_web.Varint.{VarIntError}
use moq_web.Varint.Moqt.{encode, decode_number, length_from_first_byte}
use moq_web.Buffers.Reader.{BufferReader}
use moq_web.Buffers.Writer.{BufferWriter, new, to_uint8_array}
use moq_web.Draft18.{CodecError, lift, var_int, underflow, bounds_exceeded, incomplete, malformed}
use moq_web.Draft18.Reader.{has_more}

abbrev pub max_control_message_length : ℕ
max_control_message_length = 0xffff

unfoldable pub assert_control_length : ℕ → Result CodecError (Unit {0})
assert_control_length n = if ltb max_control_message_length n then err bounds_exceeded else ok tt

-- `encode_payload` is the callback on the writer of the body.
unfoldable pub encode_framed :
    ℕ → (BufferWriter → Result CodecError BufferWriter) → Result CodecError (List ℕ)
encode_framed message_type encode_payload = do
  w ← encode_payload new
  let payload = to_uint8_array w
  fits ← assert_control_length (length payload)
  type_bytes ← lift (encode (pos message_type))
  ok (
      type_bytes
      ++ (bit_and (shr (length payload) 8) 0xff ∷ bit_and (length payload) 0xff ∷ payload))

-- What the throw of `decodeNumber` becomes; its message tells an underflow.
abbrev pub as_type_error : VarIntError → CodecError
as_type_error VarIntError.underflow = incomplete
as_type_error _ = malformed

unfoldable pub peek_message_type : List ℕ → ℕ → Result CodecError ℕ
peek_message_type buffer offset = elim (decode_number buffer offset) [
  | ok (type, bytes_read) ↦ ok type
  | err e ↦ err (as_type_error e)
]

-- What the throw of the body's decoder becomes: those that are not of class Draft18CodecError, from
-- the reader and from MOQTVarInt, tell that the body is too short.
abbrev pub as_body_error : CodecError → CodecError
as_body_error (var_int e) = malformed
as_body_error CodecError.underflow = malformed
as_body_error e = e

unfoldable pub decode_body :
    {T : Type 0}
    → (BufferReader → Result CodecError (T × BufferReader))
    → List ℕ
    → Result CodecError T
decode_body decode_payload body = elim (decode_payload (record { buffer = body; position = 0 })) [
  | err e ↦ err (as_body_error e)
  | ok (message, r) ↦ if has_more r then err malformed else ok message
]

-- `decode_payload` is the callback on the reader of the body.
unfoldable pub decode_framed :
    {T : Type 0}
    → List ℕ
    → ℕ
    → (BufferReader → Result CodecError (T × BufferReader))
    → Result CodecError (T × ℕ)
decode_framed buffer offset decode_payload = do
  type ← peek_message_type buffer offset
  let type_bytes_read = length_from_first_byte (get_or buffer offset 0)
  let header_size = type_bytes_read + 2
  (if ltb (length buffer) (offset + type_bytes_read + 2)
      then err incomplete
      else (let payload_length =
            bit_or (shl (get_or buffer (offset + type_bytes_read) 0) 8)
              (get_or buffer (offset + type_bytes_read + 1) 0) in
          if ltb (length buffer) (offset + header_size + payload_length)
          then err incomplete
          else (do
            message ←
                decode_body decode_payload
                  (take payload_length (drop (offset + header_size) buffer))
            ok (message, header_size + payload_length))))
