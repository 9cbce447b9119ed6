-- ===== src/Buffers/Prealloc.antt =====
-- class PreallocBufferWriter: one buffer that grows, and the position of the next write.
use moq_web.Base.{
  ℕ, ◌+◌, ◌-◌, ◌*◌, max, bit_and, List, [], ◌∷◌, length, replicate, take, Result, ok, ◌>>=◌, ltb,
  if◌then◌else◌,
}
use moq_web.Base.Int.{ℤ, pos}
use moq_web.Base.Bytes.{write_at}
use moq_web.Varint.{VarIntError}
use moq_web.Varint.Quic.{encode, encoded_length}
use moq_web.Buffers.{TextCodec, WriteOp, write_byte, write_bytes, write_var_int, write_string}

pub record PreallocBufferWriter : Type 0 where
  pub buffer : List ℕ
  pub position : ℕ

unfoldable pub new : ℕ → PreallocBufferWriter
new capacity = record { buffer = replicate capacity 0; position = 0 }

unfoldable pub remaining : PreallocBufferWriter → ℕ
remaining w = length w.buffer - w.position

unfoldable pub ensure_capacity : ℕ → PreallocBufferWriter → PreallocBufferWriter
ensure_capacity additional w =
    let needed = w.position + additional in
    if ltb (length w.buffer) needed
    then (let new_size = max (length w.buffer * 2) needed in
        record w { buffer = write_at (replicate new_size 0) 0 (take w.position w.buffer) })
    else w

-- `this.buffer.set(bytes, this.position); this.position += bytes.length`, after `ensureCapacity`.
unfoldable pub put : List ℕ → PreallocBufferWriter → PreallocBufferWriter
put bytes w =
    let w' = ensure_capacity (length bytes) w in
    record { buffer = write_at w'.buffer w'.position bytes; position = w'.position + length bytes }

unfoldable pub put_var_int : ℤ → PreallocBufferWriter → Result VarIntError PreallocBufferWriter
put_var_int value w = do
  size ← encoded_length value
  let w' = ensure_capacity size w
  encoded ← encode value
  ok (record { buffer = write_at w'.buffer w'.position encoded; position = w'.position + size })

-- `getWrittenView` and `toUint8Array` have the same bytes.
unfoldable pub to_uint8_array : PreallocBufferWriter → List ℕ
to_uint8_array w = take w.position w.buffer

unfoldable pub reset : PreallocBufferWriter → PreallocBufferWriter
reset w = record w { position = 0 }

unfoldable pub reset_with_capacity : ℕ → PreallocBufferWriter → PreallocBufferWriter
reset_with_capacity capacity w =
    if ltb (length w.buffer) capacity
    then record { buffer = replicate capacity 0; position = 0 }
    else record w { position = 0 }

module _ (codec : TextCodec) where
  open codec use {Text, encode_text}

  unfoldable pub write :
      WriteOp Text → PreallocBufferWriter → Result VarIntError PreallocBufferWriter
  write (write_byte value) w = ok (put (bit_and value 0xff ∷ []) w)
  write (write_bytes bytes) w = ok (put bytes w)
  write (write_var_int value) w = put_var_int value w
  write (write_string value) w = do
    let bytes = encode_text value
    w' ← put_var_int (pos (length bytes)) w
    ok (put bytes w')
