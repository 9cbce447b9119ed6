-- ===== src/Draft18/Pairs/Total.antt =====
-- The loop of `decodeKeyValuePairsToEnd` ends.
use moq_web.Base.{
  ℕ, zero, suc, ◌+◌, ◌≤◌, ◌<◌, ◌≡◌, refl, List, [], length, Bool-cases, some, Result, ok, err,
  >>=-eq-ok, Result-cases, inl, inr, ltb, arith, get_or, ◌∙◌, ap,
}
use moq_web.Base.Int.{pos}
use moq_web.Varint.{max_safe_integer}
use moq_web.Varint.Moqt.{decode, length_from_first_byte, decode_number, encode}
use moq_web.Buffers.Reader.{BufferReader}
use moq_web.Draft18.{CodecError, lift}
use moq_web.Draft18.Reader.{has_more, remaining, read_var_int, read_var_int_number, read_bytes}
use moq_web.Draft18.Pairs.{
  Pairs, read_kvp_key, read_kvp_length, skip_kvp_value, read_kvp_value, read_pair, read_pairs,
  decode_key_value_pairs_to_end, is_even,
}

length_from_first_byte-ge : (b : ℕ) → 1 ≤ length_from_first_byte b
unfolding length_from_first_byte
length_from_first_byte-ge b = ground arith

-- The new reader has the same bytes, and stands at least `n` further on.
abbrev pub HasMoved : ℕ → BufferReader → BufferReader → Type 0
HasMoved n r r' = (r'.buffer ≡ r.buffer) × (r.position + n ≤ r'.position)

pub read_var_int-HasMoved :
    (r r' : BufferReader) (v : ℕ) → read_var_int r ≡ ok (v, r') → HasMoved 1 r r'
unfolding read_var_int decode
read_var_int-HasMoved r r' v e =
    ground (arith, length_from_first_byte-ge (get_or r.buffer r.position 0))

read_var_int_number-HasMoved :
    (r r' : BufferReader) (v : ℕ) → read_var_int_number r ≡ ok (v, r') → HasMoved 1 r r'
unfolding read_var_int_number decode_number decode
read_var_int_number-HasMoved r r' v e =
    ground (arith, length_from_first_byte-ge (get_or r.buffer r.position 0))

read_bytes-HasMoved :
    (n : ℕ) (r r' : BufferReader) (bytes : List ℕ)
    → read_bytes n r ≡ ok (bytes, r')
    → HasMoved 0 r r'
unfolding read_bytes
read_bytes-HasMoved n r r' bytes e = ground arith

HasMoved-trans :
    (m n : ℕ) (r r' r'' : BufferReader)
    → HasMoved m r r'
    → HasMoved n r' r''
    → HasMoved (m + n) r r''
HasMoved-trans m n r r' r'' (same, far) (same', far') = (same' ∙ same, omega arith)

read_kvp_key-HasMoved :
    (previous : ℕ) (r r' : BufferReader) (key : ℕ)
    → read_kvp_key previous r ≡ ok (key, r')
    → HasMoved 1 r r'
unfolding read_kvp_key
read_kvp_key-HasMoved previous r r' key e =
    let ((delta, s), read, later) = >>=-eq-ok (read_var_int r) _ e in
    let moved = read_var_int-HasMoved r s delta read in ground arith

read_kvp_length-HasMoved :
    (r r' : BufferReader) (size : ℕ) → read_kvp_length r ≡ ok (size, r') → HasMoved 0 r r'
unfolding read_kvp_length
read_kvp_length-HasMoved r r' size e =
    let ((n, s), read, later) = >>=-eq-ok (read_var_int_number r) _ e in
    let moved = read_var_int_number-HasMoved r s n read in ground arith

skip_kvp_value-HasMoved :
    (r r' : BufferReader) (key : ℕ) → skip_kvp_value r key ≡ ok r' → HasMoved 0 r r'
unfolding skip_kvp_value
skip_kvp_value-HasMoved r r' key e = elim (Bool-cases (is_even key)) [
  | inl even ↦
      (let ((v, s), read, later) = >>=-eq-ok (read_var_int r) _ (rw even at e) in
        let moved = read_var_int-HasMoved r s v read in ground arith)
  | inr odd ↦
      (let ((n, s), read, later) = >>=-eq-ok (read_kvp_length r) _ (rw odd at e) in
        let ((bs, t), read', later') = >>=-eq-ok (read_bytes n s) _ later in
        let moved =
          HasMoved-trans 0 0 r s t (read_kvp_length-HasMoved r s n read)
            (read_bytes-HasMoved n s t bs read') in
        ground arith)
]

read_kvp_value-HasMoved :
    (key : ℕ) (r r' : BufferReader) (value : List ℕ)
    → read_kvp_value key r ≡ ok (value, r')
    → HasMoved 0 r r'
unfolding read_kvp_value
read_kvp_value-HasMoved key r r' value e = elim (Bool-cases (is_even key)) [
  | inl even ↦
      (let ((v, s), read, later) = >>=-eq-ok (read_var_int r) _ (rw even at e) in
        let (bs, wrote, given) = >>=-eq-ok (lift (encode (pos v))) _ later in
        let moved = read_var_int-HasMoved r s v read in ground arith)
  | inr odd ↦
      (let ((n, s), read, later) = >>=-eq-ok (read_kvp_length r) _ (rw odd at e) in
        HasMoved-trans 0 0 r s r' (read_kvp_length-HasMoved r s n read)
          (read_bytes-HasMoved n s r' value later))
]

pub read_pair-HasMoved :
    (previous : ℕ) (pairs pairs' : Pairs) (r r' : BufferReader) (key : ℕ)
    → read_pair previous pairs r ≡ ok (key, (pairs', r'))
    → HasMoved 1 r r'
unfolding read_pair
read_pair-HasMoved previous pairs pairs' r r' key e =
    let ((k, s), read, later) = >>=-eq-ok (read_kvp_key previous r) _ e in
    let first = read_kvp_key-HasMoved previous r s k read in
    elim (Bool-cases (ltb max_safe_integer k)) [
      | inl large ↦
          (let (t, read', given) = >>=-eq-ok (skip_kvp_value s k) _ (rw large at later) in
            let moved = HasMoved-trans 1 0 r s t first (skip_kvp_value-HasMoved s t k read') in
            ground arith)
      | inr small ↦
          (let ((v, t), read', given) = >>=-eq-ok (read_kvp_value k s) _ (rw small at later) in
            let moved = HasMoved-trans 1 0 r s t first (read_kvp_value-HasMoved k s t v read') in
            ground arith)
    ]

read_pairs-ends :
    (fuel previous : ℕ) (pairs : Pairs) (r : BufferReader)
    → remaining r < fuel
    → (result : Result CodecError Pairs) × (read_pairs fuel previous pairs r ≡ some result)
unfolding read_pairs remaining has_more
read_pairs-ends zero previous pairs r h = absurd (omega arith)
read_pairs-ends (suc fuel) previous pairs r h = elim (Bool-cases (has_more r)) [
  | inr none_left ↦ (ok pairs, rw (read_pairs, none_left) refl)
  | inl more ↦ elim (Result-cases (read_pair previous pairs r)) [
    | inr (x, e) ↦ (err x, rw (read_pairs, more, e) refl)
    | inl ((key, (pairs', r')), e) ↦
        (let (same, far) = read_pair-HasMoved previous pairs pairs' r r' key e in
          let (result, ends) =
            read_pairs-ends fuel key pairs' r' (ground (arith, ap length same)) in
          (result, rw (read_pairs, more, e) ends))
  ]
]

-- Whatever the bytes, the rounds for which there is fuel are enough.
pub decode_key_value_pairs_to_end-total :
    (r : BufferReader)
    → (result : Result CodecError Pairs) × (decode_key_value_pairs_to_end r ≡ some result)
unfolding decode_key_value_pairs_to_end
decode_key_value_pairs_to_end-total r = read_pairs-ends (suc (remaining r)) 0 [] r (omega arith)
