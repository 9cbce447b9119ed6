-- ===== src/Draft18/Writer.antt =====
-- class Draft18BufferWriter of packages/core/src/encoding/protocol-codec.ts. Its chunks and count are
-- those of BufferWriter; its variable-length integers are MOQTVarInt's.
use moq_web.Base.{ℕ, bit_and, List, [], ◌∷◌, length, Result, ok, ◌>>=◌}
use moq_web.Base.Int.{ℤ, pos}
use moq_web.Varint.Moqt.{encode}
use moq_web.Buffers.{TextCodec}
use moq_web.Buffers.Writer.{BufferWriter, add_chunk, new, to_uint8_array}
use moq_web.Draft18.{CodecError, lift}

unfoldable pub write_var_int : ℤ → BufferWriter → Result CodecError BufferWriter
write_var_int value w = do encoded ← lift (encode value); ok (add_chunk encoded w)

unfoldable pub write_byte : ℕ → BufferWriter → BufferWriter
write_byte value w = add_chunk (bit_and value 0xff ∷ []) w

unfoldable pub write_bytes : List ℕ → BufferWriter → BufferWriter
write_bytes bytes w = add_chunk bytes w

unfoldable pub write_string :
    (codec : TextCodec) → codec.Text → BufferWriter → Result CodecError BufferWriter
write_string codec text w = do
  let bytes = codec.encode_text text
  w' ← write_var_int (pos (length bytes)) w
  ok (write_bytes bytes w')

-- A call that writes, other than `writeString`, which is two of them.
pub data Field : Type 0 where
  var_int_field : ℤ → Field
  byte_field : ℕ → Field
  bytes_field : List ℕ → Field

unfoldable pub write_field : Field → BufferWriter → Result CodecError BufferWriter
unfolding write_var_int write_byte write_bytes
write_field (var_int_field value) w = write_var_int value w
write_field (byte_field value) w = ok (write_byte value w)
write_field (bytes_field bytes) w = ok (write_bytes bytes w)

unfoldable pub write_fields : List Field → BufferWriter → Result CodecError BufferWriter
unfolding write_field
write_fields [] w = ok w
write_fields (f ∷ fs) w = do w' ← write_field f w; write_fields fs w'

-- The calls on a new writer, and its `toUint8Array`.
unfoldable pub fields_to_bytes : List Field → Result CodecError (List ℕ)
unfolding write_fields
fields_to_bytes fs = do w ← write_fields fs new; ok (to_uint8_array w)
