-- ===== src/Buffers/Growth.antt =====
-- PreallocBufferWriter keeps the contract: its buffer grows before a write would pass its end.
use moq_web.Base.{
  ℕ, ◌+◌, ◌*◌, ◌≤◌, ◌≡◌, ◌∙◌, refl, ap, max, List, [], ◌∷◌, ◌++◌, length, take, replicate,
  length-take, length-replicate, ok, err, Result-cases, ok-injective, bit_and, inl, inr, arith,
  Bool-cases, ltb,
}
use mathlib.Core.List.{append_assoc}
use moq_web.Base.Int.{ℤ, pos}
use moq_web.Base.Bytes.{length-write_at, take-write_at}
use moq_web.Varint.{VarIntError}
use moq_web.Varint.Quic.{encode}
use moq_web.Varint.Quic.Bounds.{length-encode, encode_refused}
use moq_web.Buffers.{
  TextCodec, WriteOp, write_byte, write_bytes, write_var_int, write_string, op_bytes,
}
use moq_web.Buffers.Prealloc.{
  PreallocBufferWriter, ensure_capacity, put, put_var_int, write, to_uint8_array,
}
use moq_web.Buffers.Contract.{ByteWriter, string_parts}

-- The written part lies in the buffer.
abbrev pub IsRoomy : PreallocBufferWriter → Type 0
IsRoomy w = w.position ≤ length w.buffer

-- Whether it grows or not, the buffer has room after `ensureCapacity`, and keeps what was written.
ensure_capacity_lem :
    (n : ℕ) (w : PreallocBufferWriter)
    → IsRoomy w
    → ((ensure_capacity n w).position ≡ w.position)
      × (w.position + n ≤ length (ensure_capacity n w).buffer)
      × (take w.position (ensure_capacity n w).buffer ≡ take w.position w.buffer)
unfolding ensure_capacity
ensure_capacity_lem n w h = elim (Bool-cases (ltb (length w.buffer) (w.position + n))) [
  | inl small ↦
      (let new_size : ℕ = max (length w.buffer * 2) (w.position + n) in
        let written : List ℕ = take w.position w.buffer in
        let zeros : length (replicate {A = ℕ} new_size 0) ≡ new_size =
          length-replicate new_size 0 in
        let size : 0 + length written ≡ w.position =
          omega (arith, length-take w.position w.buffer) in
        let fits : 0 + length written ≤ length (replicate {A = ℕ} new_size 0) = omega arith in
        rw small (
          refl,
          omega (arith, length-write_at (replicate new_size 0) 0 written fits),
          rw size at (take-write_at (replicate new_size 0) 0 written (omega arith)),
        ))
  | inr large ↦ rw large (refl, ground arith, refl)
]

put_lem :
    (bytes : List ℕ) (w : PreallocBufferWriter)
    → IsRoomy w
    → IsRoomy (put bytes w) × (to_uint8_array (put bytes w) ≡ to_uint8_array w ++ bytes)
unfolding put to_uint8_array
put_lem bytes w h =
    let (same, room, kept) = ensure_capacity_lem (length bytes) w h in
    let grown = (ensure_capacity (length bytes) w).buffer in
    rw same (
      omega (arith, length-write_at grown w.position bytes room),
      take-write_at grown w.position bytes (omega arith) ∙ ap (λ (t : List ℕ). t ++ bytes) kept,
    )

put_var_int_lem :
    (value : ℤ) (w : PreallocBufferWriter) (bytes : List ℕ)
    → encode value ≡ ok bytes
    → put_var_int value w ≡ ok (put bytes w)
unfolding put_var_int put
put_var_int_lem value w bytes e = rw (length-encode value bytes e, e)

put_var_int_err :
    (value : ℤ) (w : PreallocBufferWriter) (x : VarIntError)
    → encode value ≡ err x
    → put_var_int value w ≡ err x
unfolding put_var_int
put_var_int_err value w x e = rw (encode_refused value x e)

module _ (codec : TextCodec) where
  pub write_ok :
      (op : WriteOp codec.Text) (w : PreallocBufferWriter) (bytes : List ℕ)
      → IsRoomy w
      → op_bytes codec op ≡ ok bytes
      → (w' : PreallocBufferWriter) × (write codec op w ≡ ok w')
        × IsRoomy w'
        × (to_uint8_array w' ≡ to_uint8_array w ++ bytes)
  unfolding write op_bytes
  write_ok (write_byte value) w bytes h e =
      let (roomy, more) = put_lem (bit_and value 0xff ∷ []) w h in
      (put (bit_and value 0xff ∷ []) w, refl, roomy, rw (← ok-injective e) more)
  write_ok (write_bytes bs) w bytes h e =
      let (roomy, more) = put_lem bs w h in (put bs w, refl, roomy, rw (← ok-injective e) more)
  write_ok (write_var_int value) w bytes h e =
      let (roomy, more) = put_lem bytes w h in
      (put bytes w, put_var_int_lem value w bytes e, roomy, more)
  write_ok (write_string value) w bytes h e =
      let text = codec.encode_text value in
      let (size, written, same) = string_parts codec value bytes e in
      let (roomy, more) = put_lem size w h in
      let (roomy', more') = put_lem text (put size w) roomy in
      (
        put text (put size w),
        rw (put_var_int_lem (pos (length text)) w size written),
        roomy',
        rw same (
            more'
            ∙ ap (λ (t : List ℕ). t ++ text) more
            ∙ append_assoc (to_uint8_array w) size text),
      )

  pub write_err :
      (op : WriteOp codec.Text) (w : PreallocBufferWriter) (x : VarIntError)
      → op_bytes codec op ≡ err x
      → write codec op w ≡ err x
  unfolding write op_bytes
  write_err (write_byte value) w x e = cc
  write_err (write_bytes bs) w x e = cc
  write_err (write_var_int value) w x e = put_var_int_err value w x e
  write_err (write_string value) w x e =
      elim (Result-cases (encode (pos (length (codec.encode_text value))))) [
        | inl (size, k) ↦ absurd (ground arith)
        | inr (y, k) ↦
            rw (put_var_int_err (pos (length (codec.encode_text value))) w y k) (ground arith)
      ]

-- PreallocBufferWriter is a writer.
abbrev pub prealloc_writer : (codec : TextCodec) → ByteWriter codec
prealloc_writer codec = record {
  State = PreallocBufferWriter;
  IsValid = IsRoomy;
  contents = to_uint8_array;
  write = write codec;
  write_ok = write_ok codec;
  write_err = write_err codec;
}
