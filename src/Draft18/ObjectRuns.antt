-- ===== src/Draft18/ObjectRuns.antt =====
-- Small datagrams and fetch objects of draft 18, encoded and decoded.
use moq_web.Base.{
  ℕ, ◌≤◌, ◌≡◌, refl, List, [], ◌∷◌, ◌++◌, length, All, true, none, some, ok, ok-injective, arith,
  sym, subst, ◌∙◌,
}
use moq_web.Base.Bytes.{write_at}
use moq_web.Base.Int.{pos, negsuc}
use moq_web.Varint.Moqt.{encode, encoded_length, encode_with}
use moq_web.Buffers.Writer.{add_chunk, new, to_uint8_array}
use moq_web.Draft18.Writer.{fields_to_bytes, write_fields, write_var_int, write_bytes}
use moq_web.Draft18.Pairs.{Pairs, sort_pairs}
use moq_web.Draft18.Pairs.Sorted.{IsMap}
use moq_web.Draft18.Pairs.RoundTrip.{IsPair}
use moq_web.Draft18.Objects.{
  max_properties_length, encode_properties, properties_bytes, write_properties,
  decode_object_header,
}
use moq_web.Draft18.Objects.Total.{Ends}
use moq_web.Draft18.Datagram
use moq_web.Draft18.Datagram.{
  ObjectDatagram, write_some_properties, encode_object_datagram, decode_object_datagram,
}
use moq_web.Draft18.Datagram.Laws.{decode_object_datagram-encode}
use moq_web.Draft18.FetchObject
use moq_web.Draft18.FetchObject.{
  FetchObject, encode_object, encode_fetch_object, decode_fetch_object,
}
use moq_web.Draft18.FetchObject.Laws.{decode_fetch_object-encode}
use moq_web.Draft18.Total.{decoders_end}
use moq_web.Draft18.RangeFilter.{
  RangeFilter, priority_filter, object_property_filter, validate_range_filter, filter_fields,
  encode_range_filter, decode_range_filter,
}
use moq_web.Draft18.RangeFilter.Total.{valid_filter-decoded}
use moq_web.Draft18.{var_int}
use moq_web.Varint.{negative}
use moq_web.Base.{err}

abbrev front : List ℕ
front = 0 ∷ []

abbrev one_pair : Pairs
one_pair = (1, 7 ∷ 8 ∷ []) ∷ []

abbrev pair_bytes : List ℕ
pair_bytes = 1 ∷ 2 ∷ 7 ∷ 8 ∷ []

one_pair-IsPair : All IsPair one_pair
one_pair-IsPair = ((omega arith, (λ e. absurd (ground arith)), (λ e. omega arith)), tt)

one_pair-IsMap : IsMap one_pair
one_pair-IsMap = (tt, tt)

one_pair_encoded : properties_bytes (some one_pair) ≡ ok pair_bytes
unfolding properties_bytes encode_properties sort_pairs moq_web.Draft18.Pairs.pair_fields
    fields_to_bytes write_fields encode encoded_length encode_with new add_chunk to_uint8_array
    write_at
one_pair_encoded = refl

one_pair_short :
    (inner : List ℕ)
    → properties_bytes (some one_pair) ≡ ok inner
    → length inner ≤ max_properties_length
one_pair_short inner e =
    subst (λ (t : List ℕ). length t ≤ max_properties_length)
      (ok-injective (sym one_pair_encoded ∙ e)) (omega arith)

abbrev datagram : ObjectDatagram
datagram = record {
  track_alias = pos 3;
  group_id = pos 4;
  object_id = none;
  publisher_priority = some 9;
  object_properties = some one_pair;
  end_of_group = some true;
  object_status = none;
  payload = some (1 ∷ 2 ∷ []);
}

abbrev datagram_bytes : List ℕ
datagram_bytes = 7 ∷ 3 ∷ 4 ∷ 9 ∷ 4 ∷ 1 ∷ 2 ∷ 7 ∷ 8 ∷ 1 ∷ 2 ∷ []

datagram_encoded : encode_object_datagram datagram ≡ ok datagram_bytes
unfolding encode_object_datagram Datagram.first_fields Datagram.datagram_type write_some_properties
    properties_bytes encode_properties sort_pairs moq_web.Draft18.Pairs.pair_fields fields_to_bytes
    write_fields write_var_int write_bytes encode encoded_length encode_with new add_chunk
    to_uint8_array write_at
datagram_encoded = refl

decode_object_datagram-encode_example :
    decode_object_datagram (front ++ datagram_bytes) (length front)
    ≡ some (
        ok (
          record datagram { object_id = some (pos 0); object_properties = some one_pair },
          length datagram_bytes,
        ))
unfolding sort_pairs
decode_object_datagram-encode_example =
    decode_object_datagram-encode datagram front datagram_bytes (omega arith) tt
      (one_pair-IsMap, one_pair-IsPair) one_pair_short datagram_encoded

abbrev fetched : FetchObject
fetched = record {
  subgroup_mode = 3;
  group_id_delta = none;
  subgroup_id = some (pos 5);
  object_id_delta = some (pos 1);
  publisher_priority = none;
  object_properties = some one_pair;
  payload_length = none;
  datagram_mode = none;
  end_of_range = none;
}

abbrev fetched_bytes : List ℕ
fetched_bytes = 39 ∷ 5 ∷ 1 ∷ 4 ∷ 1 ∷ 2 ∷ 7 ∷ 8 ∷ 0 ∷ []

fetched_encoded : encode_fetch_object fetched ≡ ok fetched_bytes
unfolding encode_fetch_object encode_object FetchObject.fetch_flags write_properties
    properties_bytes encode_properties sort_pairs moq_web.Draft18.Pairs.pair_fields fields_to_bytes
    write_fields write_var_int write_bytes encode encoded_length encode_with new add_chunk
    to_uint8_array write_at
fetched_encoded = refl

decode_fetch_object-encode_example :
    decode_fetch_object (front ++ (fetched_bytes ++ (9 ∷ []))) (length front)
    ≡ some (
        ok (
          record fetched { object_properties = some one_pair; payload_length = some (pos 0) },
          length fetched_bytes,
        ))
unfolding sort_pairs
decode_fetch_object-encode_example =
    decode_fetch_object-encode fetched front fetched_bytes (9 ∷ []) (omega arith) tt tt
      (one_pair-IsMap, one_pair-IsPair) one_pair_short fetched_encoded

decoders_end_example :
    Ends (decode_object_header datagram_bytes 1 true)
    × Ends (decode_object_datagram datagram_bytes 1)
    × Ends (decode_fetch_object datagram_bytes 1)
    × Ends (decode_range_filter priority_filter datagram_bytes)
decoders_end_example = decoders_end datagram_bytes 1 true priority_filter

-- The objects of two ranges of priorities, the second open.
abbrev priorities : RangeFilter
priorities = record {
  type = priority_filter;
  set_id = some 2;
  property_type = none;
  ranges = record { start = pos 3; end = some (pos 5) } ∷ record { start = pos 7; end = none } ∷ [];
}

priorities_valid : validate_range_filter priorities ≡ ok tt
unfolding validate_range_filter
priorities_valid = refl

valid_filter-decoded_example :
    (bytes : List ℕ) × (encode_range_filter priorities ≡ ok bytes)
    × (decode_range_filter priority_filter bytes ≡ some (ok priorities))
valid_filter-decoded_example = valid_filter-decoded priorities tt priorities_valid

-- A negative property type passes the validation, and is not encoded.
abbrev negative_property : RangeFilter
negative_property = record {
  type = object_property_filter;
  set_id = some 2;
  property_type = some (negsuc 1);
  ranges = record { start = pos 3; end = none } ∷ [];
}

negative_property_passes : validate_range_filter negative_property ≡ ok tt
unfolding validate_range_filter
negative_property_passes = refl

negative_property_refused : encode_range_filter negative_property ≡ err (var_int negative)
unfolding encode_range_filter filter_fields fields_to_bytes write_fields encode encoded_length
    encode_with new add_chunk
negative_property_refused = refl
