-- ===== src/Varint/Quic/Bounds.antt =====
-- What VarInt accepts and what its results are bounded by, on any input.
use moq_web.Base.{
  ℕ, zero, suc, ◌+◌, ◌-◌, ◌*◌, ◌/◌, ◌^◌, ◌≤◌, ◌<◌, ◌≡◌, refl, List, [], ◌∷◌, length, bit_and, ok,
  err, arith, All, get_or, Bool-cases, leb, >>=-eq-ok, Result-cases, inl, inr, ◌⊎◌, true, false,
}
use moq_web.Base.Int.{ℤ, pos, negsuc}
use moq_web.Base.Bits.{bit_and-mask}
use moq_web.Base.Bytes.{
  IsByte, join_be, bytes_from, join_be-of_be, of_be-lt, bytes_from-IsByte, length-bytes_from,
  base_pos,
}
use moq_web.Varint.{VarIntError, negative, too_large}
use moq_web.Varint.Quic.{
  encoded_length, encode_with, encode_bytes, encode, length_from_first_byte, decode, varint_max,
}

-- The lengths that a first byte can announce.
abbrev pub IsLength : ℕ → Type 0
IsLength n = (n ≡ 1) ⊎ ((n ≡ 2) ⊎ ((n ≡ 4) ⊎ (n ≡ 8)))

lengths-IsLength : (p : ℕ) → p < 4 → IsLength (get_or (1 ∷ 2 ∷ 4 ∷ 8 ∷ []) p 0)
lengths-IsLength zero h = inl refl
lengths-IsLength (suc zero) h = inr (inl refl)
lengths-IsLength (suc (suc zero)) h = inr (inr (inl refl))
lengths-IsLength (suc (suc (suc zero))) h = inr (inr (inr refl))
lengths-IsLength (suc (suc (suc (suc p)))) h = absurd (omega arith)

pub length_from_first_byte-IsLength : (b : ℕ) → IsLength (length_from_first_byte b)
unfolding length_from_first_byte
length_from_first_byte-IsLength b =
    lengths-IsLength (bit_and (b / 2 ^ 6) 3) (omega (arith, bit_and-mask 2 (b / 2 ^ 6)))

join_be-lt :
    (x : ℕ) (bs : List ℕ) → All IsByte bs → x < 64 → join_be x bs < 2 ^ (8 * length bs) * 64
join_be-lt x bs h k = grind (arith, join_be-of_be x bs h, of_be-lt bs h, base_pos (8 * length bs))

decode_parts :
    (buffer : List ℕ) (offset v n : ℕ)
    → decode buffer offset ≡ ok (v, n)
    → (n ≡ length_from_first_byte (get_or buffer offset 0))
      × (offset + n ≤ length buffer)
      × (v
          ≡ join_be
              (bit_and (get_or buffer offset 0) 0x3f)
              (bytes_from buffer (offset + 1) (n - 1)))
unfolding decode
decode_parts buffer offset v n h = ground arith

width : (n : ℕ) → IsLength n → 2 ^ (8 * (n - 1)) * 64 ≡ 2 ^ (8 * n - 2)
width n (inl e) = rw e
width n (inr (inl e)) = rw e
width n (inr (inr (inl e))) = rw e
width n (inr (inr (inr e))) = rw e

-- A successful `decode` of bytes reads 1, 2, 4 or 8 bytes, all inside the buffer, and its value has two bits
-- less than those bytes.
pub decode_bounds :
    (buffer : List ℕ) (offset v n : ℕ)
    → All IsByte buffer
    → decode buffer offset ≡ ok (v, n)
    → IsLength n × (offset + n ≤ length buffer) × (v < 2 ^ (8 * n - 2))
decode_bounds buffer offset v n bytes h =
    let (size, fits, value) = decode_parts buffer offset v n h in
    let announced = length_from_first_byte-IsLength (get_or buffer offset 0) in
    let known : IsLength n = rw size announced in
    let rest = bytes_from-IsByte buffer (offset + 1) (n - 1) bytes in
    let top : bit_and (get_or buffer offset 0) 0x3f < 64 =
      omega (arith, bit_and-mask 6 (get_or buffer offset 0)) in
    let bound = join_be-lt _ _ rest top in
    let narrow = rw (length-bytes_from buffer (offset + 1) (n - 1), width n known) at bound in
    (known, fits, rw value narrow)

encoded_length-total : (v : ℕ) → leb v varint_max ≡ true → (n : ℕ) × (encoded_length (pos v) ≡ ok n)
unfolding encoded_length
encoded_length-total v h = elim (Bool-cases (leb v 63)) [
  | inl p ↦ (1, rw p)
  | inr p ↦ elim (Bool-cases (leb v 16383)) [
    | inl q ↦ (2, rw (p, q))
    | inr q ↦ elim (Bool-cases (leb v 1073741823)) [
      | inl r ↦ (4, rw (p, q, r))
      | inr r ↦ (8, rw (p, q, r, h))
    ]
  ]
]

encoded_length_large : (v : ℕ) → leb v varint_max ≡ false → encoded_length (pos v) ≡ err too_large
unfolding encoded_length
encoded_length_large v h = ground arith

-- `encode` accepts the integers from 0 to 2^62 - 1, and tells the two ways to miss that range apart.
pub encode_range :
    (v : ℤ)
    → ((e : List ℕ) × (x : ℕ) × (encode v ≡ ok e) × (v ≡ pos x) × (x < 2 ^ 62))
      ⊎ (((x : ℕ) × (encode v ≡ err too_large) × (v ≡ pos x) × (2 ^ 62 ≤ x))
          ⊎ ((x : ℕ) × (encode v ≡ err negative) × (v ≡ negsuc x)))
unfolding encode encode_with encoded_length
encode_range (pos v) = elim (Bool-cases (leb v varint_max)) [
  | inl fits ↦
      (let (n, e) = encoded_length-total v fits in
        inl (encode_bytes n v, v, rw e, refl, ground arith))
  | inr large ↦ inr (inl (v, rw (encoded_length_large v large), refl, ground arith))
]
encode_range (negsuc v) = inr (inr (v, refl, refl))

length-encode-le :
    (v n : ℕ) (e : List ℕ) → encode (pos v) ≡ ok e → IsLength n → v < 2 ^ (8 * n - 2) → length e ≤ n
unfolding encode encoded_length encode_with encode_bytes
length-encode-le v n e h (inl p) k = let k' = rw p at k in ground (arith)
length-encode-le v n e h (inr (inl p)) k = let k' = rw p at k in ground (arith)
length-encode-le v n e h (inr (inr (inl p))) k = let k' = rw p at k in ground (arith)
length-encode-le v n e h (inr (inr (inr p))) k = let k' = rw p at k in ground (arith)

-- No byte string that decodes to a value is shorter than the one that `encode` writes for it.
pub encode_shortest :
    (v n offset : ℕ) (e buffer : List ℕ)
    → encode (pos v) ≡ ok e
    → All IsByte buffer
    → decode buffer offset ≡ ok (v, n)
    → length e ≤ n
encode_shortest v n offset e buffer h bytes k =
    let (size, fits, small) = decode_bounds buffer offset v n bytes k in
    length-encode-le v n e h size small

length-encode_with :
    (value : ℤ) (n : ℕ) (e : List ℕ)
    → encoded_length value ≡ ok n
    → encode_with value n ≡ ok e
    → length e ≡ n
unfolding encoded_length encode_with encode_bytes
length-encode_with (pos v) n e h k = ground arith
length-encode_with (negsuc v) n e h k = cc

-- `encode` writes as many bytes as `encoded_length` says.
pub length-encode :
    (value : ℤ) (e : List ℕ) → encode value ≡ ok e → encoded_length value ≡ ok (length e)
unfolding encode
length-encode value e h =
    let (n, size, written) = >>=-eq-ok (encoded_length value) (encode_with value) h in
    rw (length-encode_with value n e size written) size

-- What `encode` refuses, `encoded_length` refuses for the same reason.
pub encode_refused :
    (value : ℤ) (x : VarIntError) → encode value ≡ err x → encoded_length value ≡ err x
unfolding encode encoded_length encode_with
encode_refused (pos v) x h = elim (Result-cases (encoded_length (pos v))) [
  | inl (n, e) ↦ absurd (ground arith)
  | inr (y, e) ↦ ground arith
]
encode_refused (negsuc v) x h = ground arith
