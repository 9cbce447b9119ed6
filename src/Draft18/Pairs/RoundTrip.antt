-- ===== src/Draft18/Pairs/RoundTrip.antt =====
-- decodeKeyValuePairsToEnd on the bytes of encodeKeyValuePairs.
use moq_web.Base.{
  ℕ, zero, suc, ◌+◌, ◌-◌, ◌≤◌, ◌<◌, ◌≡◌, refl, ap, ◌∙◌, List, [], ◌∷◌, ◌++◌, length, true, false,
  Bool-cases, some, ok, inl, inr, ltb, ◌==◌, All, All-imp, All-append, arith,
}
use mathlib.Core.List.{append_assoc, append-nil}
use moq_web.Base.Int.{pos}
use moq_web.Base.Maps.{by_number, set_fresh}
use moq_web.Varint.{max_safe_integer}
use moq_web.Varint.Moqt.{encode, moqt_varint_max}
use moq_web.Buffers.Reader.{BufferReader}
use moq_web.Buffers.ReadBack.{at}
use moq_web.Draft18.Writer.{var_int_field, bytes_field, Field, fields_to_bytes}
use moq_web.Draft18.Reader.{has_more, remaining}
use moq_web.Draft18.Cursor.{
  Stands, Takes, start, take_var_int, take_var_int_number, take_bytes, as_var_int, at_end, inside,
}
use moq_web.Draft18.Pairs.{
  Pairs, is_even, value_fields, pair_fields, sort_pairs, encode_key_value_pairs, read_kvp_key,
  read_kvp_length, read_kvp_value, read_pair, read_pairs, decode_key_value_pairs_to_end,
  max_kvp_value_length,
}
use moq_web.Draft18.Pairs.Sorted.{IsMap, Ascends, sort_pairs-All, sort_pairs-Ascends}
use moq_web.Draft18.Pairs.Total.{read_pair-HasMoved}

-- A pair as the reader takes it: the key is a safe integer, the value of an even key is a
-- variable-length integer in the shortest form, and that of an odd key at most 65535 bytes long.
abbrev pub IsPair : ℕ × List ℕ → Type 0
IsPair (key, value) =
    (key ≤ max_safe_integer)
    × (is_even key ≡ true → (x : ℕ) × (encode (pos x) ≡ ok value))
    × (is_even key ≡ false → length value ≤ max_kvp_value_length)

-- The keys of a map below a bound.
abbrev pub Below : ℕ → Pairs → Type 0
Below n pairs = All (λ (e : ℕ × List ℕ). e.0 < n) pairs

pub Below-fresh :
    (key : ℕ) (pairs : Pairs)
    → Below key pairs
    → All (λ (e : ℕ × List ℕ). (e.0 == key) ≡ false) pairs
Below-fresh key pairs = All-imp pairs (λ e h. ground arith)

pub Below-up : (m n : ℕ) (pairs : Pairs) → m ≤ n → Below m pairs → Below n pairs
Below-up m n pairs h = All-imp pairs (λ e less. omega arith)

pub Below-snoc :
    (key : ℕ) (value : List ℕ) (pairs : Pairs)
    → Below key pairs
    → Below (suc key) (pairs ++ (key, value) ∷ [])
Below-snoc key value pairs h =
    All-append (λ e. e.0 < suc key) pairs ((key, value) ∷ [])
      (Below-up key (suc key) pairs (omega arith) h) (omega arith, tt)

module _ {buffer back : List ℕ} where
  take_value :
      (key : ℕ) (value : List ℕ) (fs : List Field) (r : BufferReader)
      → IsPair (key, value)
      → Stands buffer back (value_fields key value ++ fs) r
      → Takes buffer back fs value (read_kvp_value key r)
  unfolding read_kvp_value read_kvp_length
  take_value key value fs r (safe, even, odd) stands = elim (Bool-cases (is_even key)) [
    | inl e ↦
        (let (x, wrote) = even e in
          let (r', read, rest) =
            take_var_int x fs r (as_var_int x value fs r wrote (rw e at stands)) in
          (r', rw (e, read, wrote) refl, rest))
    | inr e ↦
        (let (r', read, rest) =
            take_var_int_number (length value) (bytes_field value ∷ fs) r (omega (arith, odd e))
              (rw e at stands) in
          let (r'', read', rest') = take_bytes value fs r' rest in
          let short : ltb max_kvp_value_length (length value) ≡ false = ground (arith, odd e) in
          (r'', rw (e, read, short) read', rest'))
  ]

  pub take_pair :
      (previous key : ℕ) (value : List ℕ) (fs : List Field) (pairs : Pairs) (r : BufferReader)
      → previous ≤ key
      → IsPair (key, value)
      → All (λ (e : ℕ × List ℕ). (e.0 == key) ≡ false) pairs
      → Stands buffer back (var_int_field (pos (key - previous)) ∷ (value_fields key value ++ fs)) r
      → (r' : BufferReader) × (read_pair previous pairs r
          ≡ ok (key, (pairs ++ (key, value) ∷ [], r')))
        × Stands buffer back fs r'
  unfolding read_pair read_kvp_key
  take_pair previous key value fs pairs r h pair fresh stands =
      let (r', read, rest) =
        take_var_int (key - previous) (value_fields key value ++ fs) r stands in
      let (r'', read', rest') = take_value key value fs r' pair rest in
      let same : previous + (key - previous) ≡ key = omega arith in
      let inside : ltb moqt_varint_max key ≡ false = ground (arith, pair.0) in
      let safe : ltb max_safe_integer key ≡ false = ground (arith, pair.0) in
      (
        r'',
        rw (read, same, inside, safe, read', set_fresh by_number key value pairs fresh) refl,
        rest',
      )

module _ {buffer : List ℕ} where
  take_pairs :
      (fuel previous lower : ℕ) (pairs done : Pairs) (r : BufferReader)
      → remaining r < fuel
      → previous ≤ lower
      → Ascends lower pairs
      → All IsPair pairs
      → Below lower done
      → Stands buffer [] (pair_fields previous pairs) r
      → read_pairs fuel previous done r ≡ some (ok (done ++ pairs))
  unfolding read_pairs remaining has_more pair_fields
  take_pairs zero previous lower pairs done r fuel h up ps below stands = absurd (omega arith)
  take_pairs (suc fuel) previous lower [] done r enough h up ps below stands =
      let here = at_end r stands in
      let none_left : has_more r ≡ false = rw here (ground arith) in
      rw (read_pairs, none_left, append-nil done) refl
  take_pairs (suc fuel) previous lower ((key, value) ∷ pairs) done r enough h (low, up) (p, ps)
        below stands =
      let under = Below-up lower key done low below in
      let (r', read, rest) =
        take_pair previous key value (pair_fields key pairs) done r (omega arith) p
          (Below-fresh key done under) stands in
      let (same, far) = read_pair-HasMoved previous done _ r r' key read in
      let more : has_more r ≡ true =
        ground (arith, inside (pair_fields key pairs) r' rest, ap length same) in
      rw (read_pairs, more, read)
        (take_pairs fuel key (suc key) pairs (done ++ (key, value) ∷ []) r'
            (ground (arith, ap length same)) (omega arith) up ps (Below-snoc key value done under)
            rest
          ∙ ap some (ap ok (append_assoc done ((key, value) ∷ []) pairs)))

-- A reader at the bytes of `encodeKeyValuePairs`, to the end of its buffer, reads the same pairs in the
-- ascending order of their keys, when no key stands twice, each key is a safe integer, the value of
-- each even key is a number as MOQTVarInt writes it, and that of each odd key is at most 65535 bytes.
pub decode_pairs-encode :
    (pairs : Pairs) (front bytes : List ℕ)
    → IsMap pairs
    → All IsPair pairs
    → fields_to_bytes (encode_key_value_pairs pairs) ≡ ok bytes
    → (decode_key_value_pairs_to_end (at front bytes []) ≡ some (ok (sort_pairs pairs)))
      × Ascends 0 (sort_pairs pairs)
unfolding decode_key_value_pairs_to_end encode_key_value_pairs
decode_pairs-encode pairs front bytes once each e = (
  take_pairs (suc (remaining (at front bytes []))) 0 0 (sort_pairs pairs) [] (at front bytes [])
      (omega arith) (omega arith) (sort_pairs-Ascends pairs once) (sort_pairs-All IsPair pairs each)
      tt (start (pair_fields 0 (sort_pairs pairs)) front bytes [] e),
  sort_pairs-Ascends pairs once,
)
