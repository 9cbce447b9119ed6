-- ===== src/Buffers/Reader.antt =====
-- class BufferReader. A method that reads returns its result with the new reader.
use moq_web.Base.{
  ℕ, ◌+◌, ◌-◌, List, length, get_elem?, get_or, take, drop, Option, Result, ok, err, ◌>>=◌, leb,
  ltb, Bool, if◌then◌else◌,
}
use moq_web.Varint.{VarIntError, underflow}
use moq_web.Varint.Quic.{decode, decode_number}
use moq_web.Buffers.{TextCodec}

pub record BufferReader : Type 0 where
  pub buffer : List ℕ
  pub position : ℕ

unfoldable pub remaining : BufferReader → ℕ
remaining r = length r.buffer - r.position

unfoldable pub has_more : BufferReader → Bool
has_more r = ltb r.position (length r.buffer)

unfoldable pub read_byte : BufferReader → Result VarIntError (ℕ × BufferReader)
read_byte r =
    if leb (length r.buffer) r.position
    then err underflow
    else ok (get_or r.buffer r.position 0, record r { position = r.position + 1 })

unfoldable pub read_bytes : ℕ → BufferReader → Result VarIntError (List ℕ × BufferReader)
read_bytes count r =
    if ltb (length r.buffer) (r.position + count)
    then err underflow
    else ok (take count (drop r.position r.buffer), record r { position = r.position + count })

unfoldable pub read_remaining : BufferReader → List ℕ × BufferReader
read_remaining r = (drop r.position r.buffer, record r { position = length r.buffer })

unfoldable pub read_var_int : BufferReader → Result VarIntError (ℕ × BufferReader)
read_var_int r = do
  (value, bytes_read) ← decode r.buffer r.position
  ok (value, record r { position = r.position + bytes_read })

unfoldable pub read_var_int_number : BufferReader → Result VarIntError (ℕ × BufferReader)
read_var_int_number r = do
  (value, bytes_read) ← decode_number r.buffer r.position
  ok (value, record r { position = r.position + bytes_read })

unfoldable pub read_string :
    (codec : TextCodec) → BufferReader → Result VarIntError (codec.Text × BufferReader)
read_string codec r = do
  (length, r') ← read_var_int_number r
  (bytes, r'') ← read_bytes length r'
  ok (codec.decode_text bytes, r'')

unfoldable pub peek : BufferReader → Option ℕ
peek r = get_elem? r.buffer r.position

unfoldable pub peek_var_int_number : BufferReader → Result VarIntError ℕ
peek_var_int_number r = do (value, bytes_read) ← decode_number r.buffer r.position; ok value

unfoldable pub skip : ℕ → BufferReader → BufferReader
skip count r =
    let position = r.position + count in
    if ltb (length r.buffer) position
    then record r { position = length r.buffer }
    else record r { position = position }
