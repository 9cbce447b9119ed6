-- ===== src/Varint/Moqt/RoundTrip.antt =====
-- MOQTVarInt.decode reads back what MOQTVarInt.encode wrote.
use moq_web.Base.{
  ℕ, zero, suc, ◌+◌, ◌-◌, ◌/◌, ◌^◌, ◌≤◌, ◌<◌, ◌≡◌, ◌∙◌, refl, List, ◌∷◌, ◌++◌, length, ok, arith,
  inl, inr, Result-cases,
}
use moq_web.Base.Int.{pos}
use moq_web.Base.Bits.{bit_and-mask, bit_and-byte}
use moq_web.Base.Bytes.{be_bytes, join_be-be_bytes, read_append, length-between, length-be_bytes}
use moq_web.Varint.Moqt.{
  encoded_length, encode_with, encode_bytes, encode, length_from_first_byte, payload, join_rest,
  decode,
}
use moq_web.Varint.Moqt.Shape.{
  capacity, encoded_length_bounds, length_from_first_byte-announced, encode_bytes_2, encode_bytes_3,
  encode_bytes_4, encode_bytes_5, encode_bytes_6, encode_bytes_7, encode_bytes_8, encode_bytes_9,
}

decode_between :
    (front : List ℕ) (b : ℕ) (bs back : List ℕ)
    → length_from_first_byte b ≡ suc (length bs)
    → decode (front ++ (b ∷ (bs ++ back))) (length front)
      ≡ ok (payload (suc (length bs)) b bs, suc (length bs))
unfolding decode
decode_between front b bs back h =
    let (head, tail) = read_append front b bs back in
    let size = length-between front b bs back in
    let less : suc (length bs) - 1 ≡ length bs = omega arith in
    rw (head, h, less, tail) (ground arith)

-- What `encode` writes for `v`: a first byte over `n` low bytes, which announces them, and holds the
-- rest of `v` with them.
abbrev HasShape : ℕ → List ℕ → Type 0
HasShape v encoded =
    (n : ℕ) × (b : ℕ) × (encoded ≡ b ∷ be_bytes n v)
    × (length_from_first_byte b ≡ suc n)
    × (payload (suc n) b (be_bytes n v) ≡ v)

shape_1 : (v : ℕ) → v < 2 ^ 7 → HasShape v (encode_bytes 1 v)
unfolding payload encode_bytes
shape_1 v h = (
  0,
  v,
  refl,
  length_from_first_byte-announced v (omega arith) ∙ ground arith,
  omega (arith, bit_and-mask 7 v),
)

shape_2 : (v : ℕ) → v < 2 ^ 14 → HasShape v (encode_bytes 2 v)
unfolding payload
shape_2 v h =
    let b : ℕ = 128 + v / 2 ^ 8 in
    (
      1,
      b,
      encode_bytes_2 v h,
      length_from_first_byte-announced b (omega arith) ∙ ground arith,
      join_be-be_bytes 1 v _ (bit_and-mask 6 b ∙ omega arith),
    )

shape_3 : (v : ℕ) → v < 2 ^ 21 → HasShape v (encode_bytes 3 v)
unfolding payload
shape_3 v h =
    let b : ℕ = 192 + v / 2 ^ 16 in
    (
      2,
      b,
      encode_bytes_3 v h,
      length_from_first_byte-announced b (omega arith) ∙ ground arith,
      join_be-be_bytes 2 v _ (bit_and-mask 5 b ∙ omega arith),
    )

shape_4 : (v : ℕ) → v < 2 ^ 28 → HasShape v (encode_bytes 4 v)
unfolding payload
shape_4 v h =
    let b : ℕ = 224 + v / 2 ^ 24 in
    (
      3,
      b,
      encode_bytes_4 v h,
      length_from_first_byte-announced b (omega arith) ∙ ground arith,
      join_be-be_bytes 3 v _ (bit_and-mask 4 b ∙ omega arith),
    )

shape_5 : (v : ℕ) → v < 2 ^ 35 → HasShape v (encode_bytes 5 v)
unfolding payload
shape_5 v h =
    let b : ℕ = 240 + v / 2 ^ 32 in
    (
      4,
      b,
      encode_bytes_5 v h,
      length_from_first_byte-announced b (omega arith) ∙ ground arith,
      join_be-be_bytes 4 v _ (bit_and-mask 3 b ∙ omega arith),
    )

shape_6 : (v : ℕ) → v < 2 ^ 42 → HasShape v (encode_bytes 6 v)
unfolding payload
shape_6 v h =
    let b : ℕ = 248 + v / 2 ^ 40 in
    (
      5,
      b,
      encode_bytes_6 v h,
      length_from_first_byte-announced b (omega arith) ∙ ground arith,
      join_be-be_bytes 5 v _ (bit_and-mask 2 b ∙ omega arith),
    )

shape_7 : (v : ℕ) → v < 2 ^ 49 → HasShape v (encode_bytes 7 v)
unfolding payload
shape_7 v h =
    let b : ℕ = 252 + v / 2 ^ 48 in
    (
      6,
      b,
      encode_bytes_7 v h,
      length_from_first_byte-announced b (omega arith) ∙ ground arith,
      join_be-be_bytes 6 v _ (bit_and-mask 1 b ∙ omega arith),
    )

shape_8 : (v : ℕ) → v < 2 ^ 56 → HasShape v (encode_bytes 8 v)
unfolding payload join_rest
shape_8 v h = (
  7,
  254,
  encode_bytes_8 v,
  length_from_first_byte-announced 254 (omega arith),
  join_be-be_bytes 6 v _ (bit_and-byte (v / 2 ^ 48) ∙ omega arith),
)

shape_9 : (v : ℕ) → v < 2 ^ 64 → HasShape v (encode_bytes 9 v)
unfolding payload join_rest
shape_9 v h = (
  8,
  255,
  encode_bytes_9 v,
  length_from_first_byte-announced 255 (omega arith),
  join_be-be_bytes 7 v _ (bit_and-byte (v / 2 ^ 56) ∙ omega arith),
)

shape-HasShape : (n v : ℕ) → 1 ≤ n → n ≤ 9 → v < capacity n → HasShape v (encode_bytes n v)
shape-HasShape zero v lo hi h = absurd (omega arith)
shape-HasShape (suc zero) v lo hi h = shape_1 v h
shape-HasShape (suc (suc zero)) v lo hi h = shape_2 v h
shape-HasShape (suc (suc (suc zero))) v lo hi h = shape_3 v h
shape-HasShape (suc (suc (suc (suc zero)))) v lo hi h = shape_4 v h
shape-HasShape (suc (suc (suc (suc (suc zero))))) v lo hi h = shape_5 v h
shape-HasShape (suc (suc (suc (suc (suc (suc zero)))))) v lo hi h = shape_6 v h
shape-HasShape (suc (suc (suc (suc (suc (suc (suc zero))))))) v lo hi h = shape_7 v h
shape-HasShape (suc (suc (suc (suc (suc (suc (suc (suc zero)))))))) v lo hi h = shape_8 v h
shape-HasShape (suc (suc (suc (suc (suc (suc (suc (suc (suc zero))))))))) v lo hi h = shape_9 v h
shape-HasShape (suc (suc (suc (suc (suc (suc (suc (suc (suc (suc m)))))))))) v lo hi h =
    absurd (omega arith)

pub encode_parts :
    (v : ℕ) (encoded : List ℕ)
    → encode (pos v) ≡ ok encoded
    → (n : ℕ) × (encoded_length (pos v) ≡ ok n) × (encoded ≡ encode_bytes n v)
unfolding encode encode_with
encode_parts v encoded h = elim (Result-cases (encoded_length (pos v))) [
  | inl (n, e) ↦ (n, e, ground arith)
  | inr (x, e) ↦ absurd (ground arith)
]

encode-HasShape : (v : ℕ) (encoded : List ℕ) → encode (pos v) ≡ ok encoded → HasShape v encoded
encode-HasShape v encoded h =
    let (n, length, same) = encode_parts v encoded h in
    let (lo, hi, fits) = encoded_length_bounds v n length in rw same (shape-HasShape n v lo hi fits)

-- Decoding at any offset where an encoded value stands gives the value, and its encoded length.
pub decode-encode_moqt :
    (v : ℕ) (front back encoded : List ℕ)
    → encode (pos v) ≡ ok encoded
    → decode (front ++ (encoded ++ back)) (length front) ≡ ok (v, length encoded)
decode-encode_moqt v front back encoded h =
    let (n, b, shape, says, value) = encode-HasShape v encoded h in
    let few = length-be_bytes n v in
    rw (shape, decode_between front b (be_bytes n v) back (rw few says), few, value)

length-encode_bytes : (n v : ℕ) → 1 ≤ n → n ≤ 9 → length (encode_bytes n v) ≡ n
unfolding encode_bytes
length-encode_bytes n v lo hi = ground arith

-- `encode` writes as many bytes as `encoded_length` says.
pub length-encode :
    (v n : ℕ) (encoded : List ℕ)
    → encode (pos v) ≡ ok encoded
    → encoded_length (pos v) ≡ ok n
    → length encoded ≡ n
length-encode v n encoded h k =
    let (m, e, same) = encode_parts v encoded h in
    let (lo, hi, fits) = encoded_length_bounds v m e in
    let agree : m ≡ n = cc in rw same (length-encode_bytes m v lo hi ∙ agree)
