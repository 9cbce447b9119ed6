-- ===== src/Varint/Quic/RoundTrip.antt =====
-- VarInt.decode reads back what VarInt.encode wrote.
use moq_web.Base.{
  ℕ, suc, ◌+◌, ◌-◌, ◌*◌, ◌/◌, ◌%◌, ◌^◌, ◌≡◌, ◌∙◌, refl, ap, List, [], ◌∷◌, ◌++◌, length, bit_and,
  ok, arith, get_or, Bool-cases, leb, inl, inr,
}
use moq_web.Base.Int.{pos}
use moq_web.Base.Bits.{bit_and-mask}
use moq_web.Base.Bytes.{
  be_bytes, join_be, join_be-be_bytes, read_append, length-between, length-be_bytes,
}
use moq_web.Varint.Quic.{encoded_length, encode_with, encode, length_from_first_byte, decode}
use moq_web.Varint.Quic.Shape.{encode_bytes_1, encode_bytes_2, encode_bytes_4, encode_bytes_8}

decode_between :
    (front : List ℕ) (b : ℕ) (bs back : List ℕ)
    → length_from_first_byte b ≡ suc (length bs)
    → decode (front ++ (b ∷ (bs ++ back))) (length front)
      ≡ ok (join_be (bit_and b 0x3f) bs, suc (length bs))
unfolding decode
decode_between front b bs back h =
    let (head, tail) = read_append front b bs back in
    let size = length-between front b bs back in
    let less : suc (length bs) - 1 ≡ length bs = omega arith in
    rw (head, h, less, tail) (ground arith)

length_prefix : (b : ℕ) → length_from_first_byte b ≡ get_or (1 ∷ 2 ∷ 4 ∷ 8 ∷ []) (b / 64 % 4) 0
unfolding length_from_first_byte
length_prefix b = ap (λ (t : ℕ). get_or (1 ∷ 2 ∷ 4 ∷ 8 ∷ []) t 0) (bit_and-mask 2 (b / 2 ^ 6))

-- One encoding: a first byte with the prefix `p`, over `n` bytes.
decode_encoding :
    (n p v b : ℕ) (front back : List ℕ)
    → b / 64 % 4 ≡ p
    → get_or (1 ∷ 2 ∷ 4 ∷ 8 ∷ []) p 0 ≡ suc n
    → b % 64 ≡ v / 2 ^ (8 * n)
    → decode (front ++ (b ∷ (be_bytes n v ++ back))) (length front) ≡ ok (v, suc n)
decode_encoding n p v b front back prefix size low =
    let few = length-be_bytes n v in
    let says : length_from_first_byte b ≡ suc (length (be_bytes n v)) =
      rw (length_prefix b, prefix, size, few) in
    let value = join_be-be_bytes n v (bit_and b 0x3f) (bit_and-mask 6 b ∙ low) in
    rw (decode_between front b (be_bytes n v) back says, value, few)

abbrev HasShape : ℕ → List ℕ → Type 0
HasShape v encoded =
    (n : ℕ) × (p : ℕ) × (b : ℕ) × (encoded ≡ b ∷ be_bytes n v)
    × (b / 64 % 4 ≡ p)
    × (get_or (1 ∷ 2 ∷ 4 ∷ 8 ∷ []) p 0 ≡ suc n)
    × (b % 64 ≡ v / 2 ^ (8 * n))

encode-HasShape : (v : ℕ) (encoded : List ℕ) → encode (pos v) ≡ ok encoded → HasShape v encoded
unfolding encode encoded_length encode_with
encode-HasShape v encoded h = elim (Bool-cases (leb v 63)) [
  | inl small ↦ (0, 0, v, ground (arith, encode_bytes_1 v), ground arith, refl, ground arith)
  | inr large ↦ elim (Bool-cases (leb v 16383)) [
    | inl small ↦
        (1, 1, 64 + v / 2 ^ 8, ground (arith, encode_bytes_2 v), ground arith, refl, ground arith)
    | inr larger ↦ elim (Bool-cases (leb v 1073741823)) [
      | inl small ↦ (
        3,
        2,
        2 * 64 + v / 2 ^ 24,
        ground (arith, encode_bytes_4 v),
        ground arith,
        refl,
        ground arith,
      )
      | inr largest ↦ (
        7,
        3,
        3 * 64 + v / 2 ^ 56,
        ground (arith, encode_bytes_8 v),
        ground arith,
        refl,
        ground arith,
      )
    ]
  ]
]

-- Decoding at any offset where an encoded value stands gives the value, and its encoded length.
pub decode-encode :
    (v : ℕ) (front back encoded : List ℕ)
    → encode (pos v) ≡ ok encoded
    → decode (front ++ (encoded ++ back)) (length front) ≡ ok (v, length encoded)
decode-encode v front back encoded h =
    let (n, p, b, shape, prefix, size, low) = encode-HasShape v encoded h in
    rw (shape, length-be_bytes n v) (decode_encoding n p v b front back prefix size low)
