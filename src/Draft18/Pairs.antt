-- ===== src/Draft18/Pairs.antt =====
-- Key-value pairs of packages/core/src/encoding/codec-helpers.ts, sorted by key and each key written as
-- its distance from the one before. `Draft18StreamCodec.encodeProperties` of draft18-stream-codec.ts
-- writes them in the same way.
pub mod Sorted
pub mod RoundTrip
pub mod Total
use moq_web.Base.{
  ℕ, zero, suc, ◌+◌, ◌-◌, ◌%◌, List, [], ◌∷◌, ◌++◌, length, Bool, true, false, Option, none, some,
  Result, ok, err, ◌>>=◌, ltb, leb, ◌==◌, if◌then◌else◌,
}
use moq_web.Base.Int.{ℤ, pos}
use moq_web.Base.Maps.{set, by_number}
use moq_web.Varint.{max_safe_integer}
use moq_web.Varint.Moqt.{encode, moqt_varint_max}
use moq_web.Buffers.Reader.{BufferReader}
use moq_web.Draft18.{CodecError, lift, violation, bounds_exceeded}
use moq_web.Draft18.Writer.{Field, var_int_field, bytes_field}
use moq_web.Draft18.Reader.{has_more, remaining, read_var_int, read_var_int_number, read_bytes}

-- A `Map` from keys to values, by its entries.
abbrev pub Pairs : Type 0
Pairs = List (ℕ × List ℕ)

-- `Array.from(pairs.entries()).sort((a, b) => a[0] - b[0])`
unfoldable pub insert_pair : ℕ → List ℕ → Pairs → Pairs
insert_pair key value [] = (key, value) ∷ []
insert_pair key value ((k, v) ∷ pairs) =
    if leb key k then (key, value) ∷ (k, v) ∷ pairs else (k, v) ∷ insert_pair key value pairs

unfoldable pub sort_pairs : Pairs → Pairs
unfolding insert_pair
sort_pairs [] = []
sort_pairs ((key, value) ∷ pairs) = insert_pair key value (sort_pairs pairs)

abbrev pub is_even : ℕ → Bool
is_even key = key % 2 == 0

abbrev pub value_fields : ℕ → List ℕ → List Field
value_fields key value =
    if is_even key
    then bytes_field value ∷ []
    else var_int_field (pos (length value)) ∷ bytes_field value ∷ []

-- The calls of the loop over the sorted entries.
unfoldable pub pair_fields : ℕ → Pairs → List Field
pair_fields previous_key [] = []
pair_fields previous_key ((key, value) ∷ pairs) =
    var_int_field (pos (key - previous_key)) ∷ (value_fields key value ++ pair_fields key pairs)

-- The calls of `encodeKeyValuePairs` on its writer.
unfoldable pub encode_key_value_pairs : Pairs → List Field
unfolding sort_pairs pair_fields
encode_key_value_pairs pairs = pair_fields 0 (sort_pairs pairs)

abbrev pub max_kvp_value_length : ℕ
max_kvp_value_length = 0xffff

unfoldable pub read_kvp_key : ℕ → BufferReader → Result CodecError (ℕ × BufferReader)
read_kvp_key previous_key r = do
  (delta, r') ← read_var_int r
  (if ltb moqt_varint_max (previous_key + delta)
      then err violation
      else ok (previous_key + delta, r'))

unfoldable pub read_kvp_length : BufferReader → Result CodecError (ℕ × BufferReader)
read_kvp_length r = do
  (size, r') ← read_var_int_number r
  (if ltb max_kvp_value_length size then err bounds_exceeded else ok (size, r'))

unfoldable pub skip_kvp_value : BufferReader → ℕ → Result CodecError BufferReader
unfolding read_kvp_length
skip_kvp_value r key =
    if is_even key
    then (do (value, r') ← read_var_int r; ok r')
    else (do (size, r') ← read_kvp_length r; (bytes, r'') ← read_bytes size r'; ok r'')

-- The value of a key that a JavaScript number holds.
unfoldable pub read_kvp_value : ℕ → BufferReader → Result CodecError (List ℕ × BufferReader)
unfolding read_kvp_length
read_kvp_value key r =
    if is_even key
    then (do (value, r') ← read_var_int r; bytes ← lift (encode (pos value)); ok (bytes, r'))
    else (do (size, r') ← read_kvp_length r; read_bytes size r')

-- One round of the loop of `decodeKeyValuePairsToEnd`: the key, the map and the reader after it.
unfoldable pub read_pair : ℕ → Pairs → BufferReader → Result CodecError (ℕ × (Pairs × BufferReader))
unfolding read_kvp_key skip_kvp_value read_kvp_value
read_pair previous_key pairs r = do
  (key, r') ← read_kvp_key previous_key r
  (if ltb max_safe_integer key
      then (do r'' ← skip_kvp_value r' key; ok (key, (pairs, r'')))
      else (do
        (value, r'') ← read_kvp_value key r'
        ok (key, (set by_number key value pairs, r''))))

-- The loop, for as many rounds as the fuel allows; `none` when there is none left.
unfoldable pub read_pairs : ℕ → ℕ → Pairs → BufferReader → Option (Result CodecError Pairs)
unfolding read_pair
read_pairs zero previous_key pairs r = none
read_pairs (suc fuel) previous_key pairs r = elim (has_more r) [
  | false ↦ some (ok pairs)
  | true ↦ elim (read_pair previous_key pairs r) [
    | ok (key, (pairs', r')) ↦ read_pairs fuel key pairs' r'
    | err e ↦ some (err e)
  ]
]

-- With a round for each byte that remains.
unfoldable pub decode_key_value_pairs_to_end : BufferReader → Option (Result CodecError Pairs)
unfolding read_pairs
decode_key_value_pairs_to_end r = read_pairs (suc (remaining r)) 0 [] r
