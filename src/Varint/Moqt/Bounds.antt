-- ===== src/Varint/Moqt/Bounds.antt =====
-- What MOQTVarInt accepts and what its results are bounded by, on any input.
use moq_web.Base.{
  ℕ, zero, suc, ◌+◌, ◌-◌, ◌*◌, ◌^◌, ◌≤◌, ◌<◌, ◌≡◌, ◌∙◌, refl, List, [], ◌∷◌, length, bit_and, ok,
  err, arith, All, get_or, Bool-cases, leb, inl, inr, ◌⊎◌, true, false, Result-cases,
}
use moq_web.Base.Int.{ℤ, pos, negsuc}
use moq_web.Base.Bits.{bit_and-mask}
use moq_web.Base.Bytes.{
  IsByte, join_be, bytes_from, join_be-of_be, of_be-lt, bytes_from-IsByte, get_or-IsByte,
  length-bytes_from, base_pos,
}
use native.Mathlib.Nat.{mod-lt, one-le-pow}
use moq_web.Varint.{negative, too_large}
use moq_web.Varint.Moqt.{
  encoded_length, encode_with, encode_bytes, encode, length_from_first_byte, payload, join_rest,
  decode, moqt_varint_max,
}
use moq_web.Varint.Moqt.Shape.{
  capacity, encoded_length_least, announced, length_from_first_byte-announced,
}
use moq_web.Varint.Moqt.RoundTrip.{encode_parts, length-encode}

join_be-lt :
    (k x : ℕ) (bs : List ℕ) → All IsByte bs → x < k → join_be x bs < 2 ^ (8 * length bs) * k
join_be-lt k x bs h small =
    grind (arith, join_be-of_be x bs h, of_be-lt bs h, base_pos (8 * length bs))

masked-lt :
    (k m b : ℕ) (bs : List ℕ)
    → All IsByte bs
    → length bs ≡ m
    → join_be (bit_and b (2 ^ k - 1)) bs < 2 ^ (8 * m) * 2 ^ k
masked-lt k m b bs h size =
    let low : bit_and b (2 ^ k - 1) < 2 ^ k =
      rw (bit_and-mask k b) (mod-lt b (one-le-pow k 2 (omega arith))) in
    rw size at (join_be-lt (2 ^ k) (bit_and b (2 ^ k - 1)) bs h low)

join_rest-lt : (bs : List ℕ) → All IsByte bs → join_rest bs < 2 ^ (8 * length bs)
unfolding join_rest
join_rest-lt [] h = omega arith
join_rest-lt (b ∷ bs) h = rw (join_be-of_be b bs h.1) (of_be-lt (b ∷ bs) h)

payload-lt :
    (n b : ℕ) (bs : List ℕ)
    → All IsByte bs
    → 1 ≤ n
    → n ≤ 9
    → length bs ≡ n - 1
    → payload n b bs < capacity n
unfolding payload
payload-lt zero b bs h lo hi size = absurd (omega arith)
payload-lt (suc zero) b bs h lo hi size = omega (arith, bit_and-mask 7 b)
payload-lt (suc (suc zero)) b bs h lo hi size = masked-lt 6 1 b bs h size
payload-lt (suc (suc (suc zero))) b bs h lo hi size = masked-lt 5 2 b bs h size
payload-lt (suc (suc (suc (suc zero)))) b bs h lo hi size = masked-lt 4 3 b bs h size
payload-lt (suc (suc (suc (suc (suc zero))))) b bs h lo hi size = masked-lt 3 4 b bs h size
payload-lt (suc (suc (suc (suc (suc (suc zero)))))) b bs h lo hi size = masked-lt 2 5 b bs h size
payload-lt (suc (suc (suc (suc (suc (suc (suc zero))))))) b bs h lo hi size =
    masked-lt 1 6 b bs h size
payload-lt (suc (suc (suc (suc (suc (suc (suc (suc zero)))))))) b bs h lo hi size =
    rw size at (join_rest-lt bs h)
payload-lt (suc (suc (suc (suc (suc (suc (suc (suc (suc zero))))))))) b bs h lo hi size =
    rw size at (join_rest-lt bs h)
payload-lt (suc (suc (suc (suc (suc (suc (suc (suc (suc (suc n)))))))))) b bs h lo hi size =
    absurd (omega arith)

decode_parts :
    (buffer : List ℕ) (offset v n : ℕ)
    → decode buffer offset ≡ ok (v, n)
    → (n ≡ length_from_first_byte (get_or buffer offset 0))
      × (offset + n ≤ length buffer)
      × (v ≡ payload n (get_or buffer offset 0) (bytes_from buffer (offset + 1) (n - 1)))
unfolding decode
decode_parts buffer offset v n h = ground arith

-- A successful `decode` of bytes reads 1 to 9 of them, all inside the buffer, and its value fits the
-- payload of that many bytes: 7 bits each, or 64 for the longest form.
pub decode_bounds_moqt :
    (buffer : List ℕ) (offset v n : ℕ)
    → All IsByte buffer
    → decode buffer offset ≡ ok (v, n)
    → (1 ≤ n) × (n ≤ 9) × (offset + n ≤ length buffer) × (v < capacity n)
decode_bounds_moqt buffer offset v n bytes h =
    let (size, fits, value) = decode_parts buffer offset v n h in
    let first = length_from_first_byte-announced _ (get_or-IsByte buffer offset bytes) in
    let (lo, hi) = announced_range (get_or buffer offset 0) n (size ∙ first) in
    let rest = bytes_from-IsByte buffer (offset + 1) (n - 1) bytes in
    (
      lo,
      hi,
      fits,
      rw value (payload-lt n _ _ rest lo hi (length-bytes_from buffer (offset + 1) (n - 1))),
    )
  where
    announced_range : (b n : ℕ) → n ≡ announced b → (1 ≤ n) × (n ≤ 9)
    announced_range b n e = ground arith

encoded_length-total :
    (v : ℕ) → leb v moqt_varint_max ≡ true → (n : ℕ) × (encoded_length (pos v) ≡ ok n)
unfolding encoded_length
encoded_length-total v h = elim (Result-cases (encoded_length (pos v))) [
  | inl found ↦ found
  | inr (x, e) ↦ absurd (ground arith)
]

encoded_length_large :
    (v : ℕ) → leb v moqt_varint_max ≡ false → encoded_length (pos v) ≡ err too_large
unfolding encoded_length
encoded_length_large v h = ground arith

-- `encode` accepts the integers from 0 to 2^64 - 1, and tells the two ways to miss that range apart.
pub encode_range_moqt :
    (v : ℤ)
    → ((e : List ℕ) × (x : ℕ) × (encode v ≡ ok e) × (v ≡ pos x) × (x < 2 ^ 64))
      ⊎ (((x : ℕ) × (encode v ≡ err too_large) × (v ≡ pos x) × (2 ^ 64 ≤ x))
          ⊎ ((x : ℕ) × (encode v ≡ err negative) × (v ≡ negsuc x)))
unfolding encode encode_with encoded_length
encode_range_moqt (pos v) = elim (Bool-cases (leb v moqt_varint_max)) [
  | inl fits ↦
      (let (n, e) = encoded_length-total v fits in
        inl (encode_bytes n v, v, rw e refl, refl, ground arith))
  | inr large ↦ inr (inl (v, rw (encoded_length_large v large) refl, refl, ground arith))
]
encode_range_moqt (negsuc v) = inr (inr (v, refl, refl))

-- No byte string that decodes to a value is shorter than the one that `encode` writes for it.
pub encode_shortest_moqt :
    (v n offset : ℕ) (e buffer : List ℕ)
    → encode (pos v) ≡ ok e
    → All IsByte buffer
    → decode buffer offset ≡ ok (v, n)
    → length e ≤ n
encode_shortest_moqt v n offset e buffer h bytes k =
    let (lo, hi, fits, small) = decode_bounds_moqt buffer offset v n bytes k in
    let (m, size, same) = encode_parts v e h in
    omega (arith, encoded_length_least n v m size lo hi small, length-encode v m e h size)
