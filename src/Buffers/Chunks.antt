-- ===== src/Buffers/Chunks.antt =====
-- BufferWriter keeps the contract.
use moq_web.Base.{
  ℕ, bit_and, ◌+◌, ◌≡◌, ◌∙◌, refl, sym, ap, List, [], ◌∷◌, ◌++◌, length, take, replicate, concat,
  length-append, length-replicate, concat-append, take_all, ok, err, Result-cases, ok-injective,
  inl, inr, arith,
}
use mathlib.Core.List.{append-nil, append_assoc}
use moq_web.Base.Int.{ℤ, pos}
use moq_web.Base.Bytes.{write_at, length-write_at, take-write_at}
use moq_web.Varint.{VarIntError}
use moq_web.Varint.Quic.{encode}
use moq_web.Buffers.{
  TextCodec, WriteOp, write_byte, write_bytes, write_var_int, write_string, op_bytes,
}
use moq_web.Buffers.Writer.{
  BufferWriter, add_chunk, add_var_int, copy_chunks, write, to_uint8_array,
}
use moq_web.Buffers.Contract.{ByteWriter, string_parts}

-- The count of bytes is that of the chunks.
abbrev pub IsCounted : BufferWriter → Type 0
IsCounted w = w.total_length ≡ length (concat w.chunks)

copy_chunks-concat :
    (chunks : List (List ℕ)) (result : List ℕ) (offset : ℕ)
    → offset + length (concat chunks) ≡ length result
    → copy_chunks chunks result offset ≡ take offset result ++ concat chunks
unfolding copy_chunks
copy_chunks-concat [] result offset h =
    sym (append-nil (take offset result) ∙ take_all offset result (omega arith))
copy_chunks-concat (chunk ∷ chunks) result offset h =
    let size = length-append chunk (concat chunks) in
    let kept = length-write_at result offset chunk (omega arith) in
    copy_chunks-concat chunks (write_at result offset chunk) (offset + length chunk) (omega arith)
    ∙ ap (λ (t : List ℕ). t ++ concat chunks) (take-write_at result offset chunk (omega arith))
    ∙ append_assoc (take offset result) chunk (concat chunks)

-- `toUint8Array` puts the chunks side by side.
pub to_uint8_array-concat : (w : BufferWriter) → IsCounted w → to_uint8_array w ≡ concat w.chunks
unfolding to_uint8_array
to_uint8_array-concat w h =
    copy_chunks-concat w.chunks (replicate w.total_length 0) 0
      (omega (arith, length-replicate {A = ℕ} w.total_length 0))

pub add_chunk_lem :
    (bytes : List ℕ) (w : BufferWriter)
    → IsCounted w
    → IsCounted (add_chunk bytes w) × (concat (add_chunk bytes w).chunks ≡ concat w.chunks ++ bytes)
unfolding add_chunk
add_chunk_lem bytes w h =
    let joined : concat (w.chunks ++ bytes ∷ []) ≡ concat w.chunks ++ bytes =
      concat-append w.chunks (bytes ∷ [])
      ∙ ap (λ (t : List ℕ). concat w.chunks ++ t) (append-nil bytes) in
    (omega (arith, ap length joined, length-append (concat w.chunks) bytes), joined)

add_var_int_lem :
    (value : ℤ) (w : BufferWriter) (bytes : List ℕ)
    → encode value ≡ ok bytes
    → add_var_int value w ≡ ok (add_chunk bytes w)
unfolding add_var_int
add_var_int_lem value w bytes e = rw e

module _ (codec : TextCodec) where
  write_chunks :
      (op : WriteOp codec.Text) (w : BufferWriter) (bytes : List ℕ)
      → IsCounted w
      → op_bytes codec op ≡ ok bytes
      → (w' : BufferWriter) × (write codec op w ≡ ok w')
        × IsCounted w'
        × (concat w'.chunks ≡ concat w.chunks ++ bytes)
  unfolding write op_bytes
  write_chunks (write_byte value) w bytes h e =
      let (counted, joined) = add_chunk_lem (bit_and value 0xff ∷ []) w h in
      (add_chunk (bit_and value 0xff ∷ []) w, refl, counted, rw (← ok-injective e) joined)
  write_chunks (write_bytes bs) w bytes h e =
      let (counted, joined) = add_chunk_lem bs w h in
      (add_chunk bs w, refl, counted, rw (← ok-injective e) joined)
  write_chunks (write_var_int value) w bytes h e =
      let (counted, joined) = add_chunk_lem bytes w h in
      (add_chunk bytes w, add_var_int_lem value w bytes e, counted, joined)
  write_chunks (write_string value) w bytes h e =
      let text = codec.encode_text value in
      let (size, written, same) = string_parts codec value bytes e in
      let (counted, joined) = add_chunk_lem size w h in
      let (counted', joined') = add_chunk_lem text (add_chunk size w) counted in
      (
        add_chunk text (add_chunk size w),
        rw (add_var_int_lem (pos (length text)) w size written),
        counted',
        rw same (
            joined'
            ∙ ap (λ (t : List ℕ). t ++ text) joined
            ∙ append_assoc (concat w.chunks) size text),
      )

  pub write_ok :
      (op : WriteOp codec.Text) (w : BufferWriter) (bytes : List ℕ)
      → IsCounted w
      → op_bytes codec op ≡ ok bytes
      → (w' : BufferWriter) × (write codec op w ≡ ok w')
        × IsCounted w'
        × (to_uint8_array w' ≡ to_uint8_array w ++ bytes)
  write_ok op w bytes h e =
      let (w', wrote, counted, joined) = write_chunks op w bytes h e in
      (w', wrote, counted, rw (to_uint8_array-concat w' counted, to_uint8_array-concat w h) joined)

  pub write_err :
      (op : WriteOp codec.Text) (w : BufferWriter) (x : VarIntError)
      → op_bytes codec op ≡ err x
      → write codec op w ≡ err x
  unfolding write op_bytes add_var_int
  write_err (write_byte value) w x e = cc
  write_err (write_bytes bs) w x e = cc
  write_err (write_var_int value) w x e = rw e
  write_err (write_string value) w x e =
      elim (Result-cases (encode (pos (length (codec.encode_text value))))) [
        | inl (size, k) ↦ absurd (ground arith)
        | inr (y, k) ↦ rw k (ground arith)
      ]

-- BufferWriter is a writer.
abbrev pub buffer_writer : (codec : TextCodec) → ByteWriter codec
buffer_writer codec = record {
  State = BufferWriter;
  IsValid = IsCounted;
  contents = to_uint8_array;
  write = write codec;
  write_ok = write_ok codec;
  write_err = write_err codec;
}
