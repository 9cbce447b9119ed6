-- ===== src/Draft18/Reader.antt =====
-- class Draft18BufferReader of packages/core/src/encoding/protocol-codec.ts, over the state of
-- BufferReader.
use moq_web.Base.{
  ℕ, ◌+◌, ◌-◌, List, length, get_or, take, drop, Bool, Result, ok, err, ◌>>=◌, leb, ltb,
  if◌then◌else◌,
}
use moq_web.Base.Int.{ℤ, pos}
use moq_web.Varint.Moqt.{decode, decode_number}
use moq_web.Buffers.{TextCodec}
use moq_web.Buffers.Reader.{BufferReader}
use moq_web.Draft18.{CodecError, lift, underflow}

unfoldable pub remaining : BufferReader → ℕ
remaining r = length r.buffer - r.position

unfoldable pub has_more : BufferReader → Bool
has_more r = ltb r.position (length r.buffer)

unfoldable pub read_var_int : BufferReader → Result CodecError (ℕ × BufferReader)
read_var_int r = do
  (value, bytes_read) ← lift (decode r.buffer r.position)
  ok (value, record r { position = r.position + bytes_read })

-- The same, where the bigint is kept as one.
unfoldable pub read_int : BufferReader → Result CodecError (ℤ × BufferReader)
unfolding read_var_int
read_int r = do (value, r') ← read_var_int r; ok (pos value, r')

unfoldable pub read_var_int_number : BufferReader → Result CodecError (ℕ × BufferReader)
read_var_int_number r = do
  (value, bytes_read) ← lift (decode_number r.buffer r.position)
  ok (value, record r { position = r.position + bytes_read })

unfoldable pub read_byte : BufferReader → Result CodecError (ℕ × BufferReader)
read_byte r =
    if leb (length r.buffer) r.position
    then err underflow
    else ok (get_or r.buffer r.position 0, record r { position = r.position + 1 })

unfoldable pub read_bytes : ℕ → BufferReader → Result CodecError (List ℕ × BufferReader)
read_bytes n r =
    if ltb (length r.buffer) (r.position + n)
    then err underflow
    else ok (take n (drop r.position r.buffer), record r { position = r.position + n })

unfoldable pub read_string :
    (codec : TextCodec) → BufferReader → Result CodecError (codec.Text × BufferReader)
read_string codec r = do
  (size, r') ← read_var_int_number r
  (bytes, r'') ← read_bytes size r'
  ok (codec.decode_text bytes, r'')

unfoldable pub skip : ℕ → BufferReader → BufferReader
skip n r = record r { position = r.position + n }
