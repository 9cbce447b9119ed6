-- ===== src/Buffers/Writer.antt =====
-- class BufferWriter: chunks, and the number of bytes in them. A chunk that `write_bytes` is given is
-- taken as it stands: callers do not change it later.
use moq_web.Base.{ℕ, ◌+◌, bit_and, List, [], ◌∷◌, ◌++◌, length, replicate, Result, ok, ◌>>=◌}
use moq_web.Base.Int.{ℤ, pos}
use moq_web.Base.Bytes.{write_at}
use moq_web.Varint.{VarIntError}
use moq_web.Varint.Quic.{encode}
use moq_web.Buffers.{TextCodec, WriteOp, write_byte, write_bytes, write_var_int, write_string}

pub record BufferWriter : Type 0 where
  pub chunks : List (List ℕ)
  pub total_length : ℕ

unfoldable pub new : BufferWriter
new = record { chunks = []; total_length = 0 }

-- `this.chunks.push(chunk); this.totalLength += chunk.length`
unfoldable pub add_chunk : List ℕ → BufferWriter → BufferWriter
add_chunk chunk w = record {
  chunks = w.chunks ++ chunk ∷ [];
  total_length = w.total_length + length chunk;
}

unfoldable pub reset : BufferWriter → BufferWriter
reset w = record { chunks = []; total_length = 0 }

-- The loop of `toUint8Array`.
unfoldable pub copy_chunks : List (List ℕ) → List ℕ → ℕ → List ℕ
copy_chunks [] result offset = result
copy_chunks (chunk ∷ chunks) result offset =
    copy_chunks chunks (write_at result offset chunk) (offset + length chunk)

unfoldable pub to_uint8_array : BufferWriter → List ℕ
unfolding copy_chunks
to_uint8_array w = copy_chunks w.chunks (replicate w.total_length 0) 0

unfoldable pub add_var_int : ℤ → BufferWriter → Result VarIntError BufferWriter
add_var_int value w = do encoded ← encode value; ok (add_chunk encoded w)

module _ (codec : TextCodec) where
  open codec use {Text, encode_text}

  unfoldable pub write : WriteOp Text → BufferWriter → Result VarIntError BufferWriter
  write (write_byte value) w = ok (add_chunk (bit_and value 0xff ∷ []) w)
  write (write_bytes bytes) w = ok (add_chunk bytes w)
  write (write_var_int value) w = add_var_int value w
  write (write_string value) w = do
    let bytes = encode_text value
    w' ← add_var_int (pos (length bytes)) w
    ok (add_chunk bytes w')
