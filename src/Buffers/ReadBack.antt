-- ===== src/Buffers/ReadBack.antt =====
-- BufferReader reads back, call for call, what a writer put out.
use moq_web.Base.{
  ℕ, ◌+◌, ◌≤◌, ◌<◌, ◌≡◌, ◌∙◌, refl, sym, ap, List, [], ◌∷◌, ◌++◌, length, All, bit_and, Result, ok,
  ◌>>=◌, >>=-eq-ok, ok-injective, length-append, take-append_length, drop-append_length, arith,
}
use mathlib.Core.List.{append_assoc}
use moq_web.Base.Int.{pos, negsuc}
use moq_web.Base.Bits.{bit_and-byte}
use moq_web.Base.Bytes.{read_append, length-between}
use moq_web.Varint.{VarIntError, max_safe_integer}
use moq_web.Varint.Quic.{encode, encoded_length, decode_number}
use moq_web.Varint.Quic.RoundTrip.{decode-encode}
use moq_web.Buffers.{
  TextCodec, WriteOp, write_byte, write_bytes, write_var_int, write_string, op_bytes, all_bytes,
}
use moq_web.Buffers.Reader.{
  BufferReader, read_byte, read_bytes, read_var_int, read_var_int_number, read_string,
}
use moq_web.Buffers.Contract.{string_parts}

-- A reader at the bytes `bytes`.
abbrev pub at : List ℕ → List ℕ → List ℕ → BufferReader
at front bytes back = record { buffer = front ++ (bytes ++ back); position = length front }

-- The reader behind them.
abbrev pub behind : List ℕ → List ℕ → List ℕ → BufferReader
behind front bytes back = record {
  buffer = front ++ (bytes ++ back);
  position = length front + length bytes;
}

pub reader_eq :
    {b b' : List ℕ} {p p' : ℕ}
    → b ≡ b'
    → p ≡ p'
    → ◌≡◌ {A = BufferReader}
        (record { buffer = b; position = p })
        (record { buffer = b'; position = p' })
reader_eq e f = λ i. record { buffer = e i; position = f i }

-- Two runs of bytes, one behind the other, are read one after the other.
pub at-append : (front xs ys back : List ℕ) → at front (xs ++ ys) back ≡ at front xs (ys ++ back)
at-append front xs ys back =
    reader_eq (ap (λ (t : List ℕ). front ++ t) (append_assoc xs ys back)) refl

pub behind-at :
    (front xs ys back : List ℕ) → behind front xs (ys ++ back) ≡ at (front ++ xs) ys back
behind-at front xs ys back =
    reader_eq (sym (append_assoc front xs (ys ++ back))) (sym (length-append front xs))

behind-append :
    (front xs ys back : List ℕ) → behind (front ++ xs) ys back ≡ behind front (xs ++ ys) back
behind-append front xs ys back =
    reader_eq
      (append_assoc front xs (ys ++ back)
        ∙ ap (λ (t : List ℕ). front ++ t) (sym (append_assoc xs ys back)))
      (omega (arith, length-append front xs, length-append xs ys))

read_byte-at :
    (front : List ℕ) (b : ℕ) (back : List ℕ)
    → read_byte (at front (b ∷ []) back) ≡ ok (b, behind front (b ∷ []) back)
unfolding read_byte
read_byte-at front b back =
    let (head, tail) = read_append front b [] back in
    rw head (ground (arith, length-between front b [] back))

read_bytes-at :
    (front bytes back : List ℕ)
    → read_bytes (length bytes) (at front bytes back) ≡ ok (bytes, behind front bytes back)
unfolding read_bytes
read_bytes-at front bytes back =
    rw (drop-append_length front (bytes ++ back), take-append_length bytes back)
      (ground (arith, length-append front (bytes ++ back), length-append bytes back))

read_var_int-at :
    (front bytes back : List ℕ) (v : ℕ)
    → encode (pos v) ≡ ok bytes
    → read_var_int (at front bytes back) ≡ ok (v, behind front bytes back)
unfolding read_var_int
read_var_int-at front bytes back v h = rw (decode-encode v front back bytes h)

read_var_int_number-at :
    (front bytes back : List ℕ) (v : ℕ)
    → encode (pos v) ≡ ok bytes
    → v ≤ max_safe_integer
    → read_var_int_number (at front bytes back) ≡ ok (v, behind front bytes back)
unfolding read_var_int_number decode_number
read_var_int_number-at front bytes back v h fits =
    rw (decode-encode v front back bytes h) (ground arith)

encode_negative : (n : ℕ) {bytes : List ℕ} → encode (negsuc n) ≡ ok bytes → ⊥
unfolding encode encoded_length
encode_negative n e = cc

module _ (codec : TextCodec) where
  open codec use {Text, encode_text, decode_text}

  -- The read that answers to a write, with what it gives.
  unfoldable pub read_like :
      WriteOp Text → BufferReader → Result VarIntError (WriteOp Text × BufferReader)
  read_like (write_byte value) r = do (b, r') ← read_byte r; ok (write_byte b, r')
  read_like (write_bytes bytes) r = do
    (bs, r') ← read_bytes (length bytes) r
    ok (write_bytes bs, r')
  read_like (write_var_int value) r = do (v, r') ← read_var_int r; ok (write_var_int (pos v), r')
  read_like (write_string value) r = do (text, r') ← read_string codec r; ok (write_string text, r')

  unfoldable pub read_all :
      List (WriteOp Text) → BufferReader → Result VarIntError (List (WriteOp Text) × BufferReader)
  read_all [] r = ok ([], r)
  read_all (op ∷ ops) r = do
    (first, r') ← read_like op r
    (rest, r'') ← read_all ops r'
    ok (first ∷ rest, r'')

  -- Writes that lose nothing: a byte is a byte, and a text is one that the platform reads back, not
  -- longer than a safe integer.
  abbrev pub IsFaithful : WriteOp Text → Type 0
  IsFaithful (write_byte value) = value < 256
  IsFaithful (write_bytes bytes) = Unit {0}
  IsFaithful (write_var_int value) = Unit {0}
  IsFaithful (write_string text) =
      (length (encode_text text) ≤ max_safe_integer) × (decode_text (encode_text text) ≡ text)

  read_like-at :
      (op : WriteOp Text) (front bytes back : List ℕ)
      → IsFaithful op
      → op_bytes codec op ≡ ok bytes
      → read_like op (at front bytes back) ≡ ok (op, behind front bytes back)
  unfolding op_bytes read_like read_string
  read_like-at (write_byte value) front bytes back small e =
      let same : bit_and value 0xff ≡ value = omega (arith, bit_and-byte value) in
      rw (← ok-injective e, same) (rw (read_byte-at front value back))
  read_like-at (write_bytes bs) front bytes back h e =
      rw (← ok-injective e) (rw (read_bytes-at front bs back))
  read_like-at (write_var_int (pos v)) front bytes back h e =
      rw (read_var_int-at front bytes back v e)
  read_like-at (write_var_int (negsuc v)) front bytes back h e = absurd (encode_negative v e)
  read_like-at (write_string text) front bytes back (fits, known) e =
      let body = encode_text text in
      let (size, written, same) = string_parts codec text bytes e in
      let number = read_var_int_number-at front size (body ++ back) (length body) written fits in
      let rest = read_bytes-at (front ++ size) body back in
      rw (
        same,
        at-append front size body back,
        number,
        behind-at front size body back,
        rest,
        known,
        behind-append front size body back,
      )

  -- Where each byte written is a byte and each text is one that the platform decodes back, not longer
  -- than a safe integer, reading back what the calls put out gives each value written, and leaves the
  -- reader behind them.
  pub read_all-all_bytes :
      (ops : List (WriteOp Text)) (front bytes back : List ℕ)
      → All IsFaithful ops
      → all_bytes codec ops ≡ ok bytes
      → read_all ops (at front bytes back) ≡ ok (ops, behind front bytes back)
  unfolding read_all all_bytes
  read_all-all_bytes [] front bytes back h e =
      let none_left : [] ≡ bytes = ok-injective e in
      rw (← none_left) (ap (λ (r : BufferReader). ok ([], r)) (reader_eq refl (omega arith)))
  read_all-all_bytes (op ∷ ops) front bytes back (h, hs) e =
      let (first, wrote, later) = >>=-eq-ok (op_bytes codec op) _ e in
      let (rest, wrote', joined) = >>=-eq-ok (all_bytes codec ops) _ later in
      let same = ok-injective joined in
      rw (
        ← same,
        at-append front first rest back,
        read_like-at op front first (rest ++ back) h wrote,
        behind-at front first rest back,
        read_all-all_bytes ops (front ++ first) rest back hs wrote',
        behind-append front first rest back,
      )
