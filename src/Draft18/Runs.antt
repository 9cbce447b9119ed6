-- ===== src/Draft18/Runs.antt =====
-- Small messages and headers of draft 18, encoded and decoded.
use moq_web.Base.{
  ◌-◌, ltb, ◌&&◌, if◌then◌else◌, Bool, true, none, some, ℕ, ◌≡◌, refl, List, [], ◌∷◌, ◌++◌, length,
  take, true, none, some, Result, ok, err, All, arith,
}
use moq_web.Base.Bytes.{write_at}
use moq_web.Base.Int.{pos}
use moq_web.Varint.Moqt.{encode, encoded_length, encode_with}
use moq_web.Buffers.Reader.{BufferReader}
use moq_web.Buffers.ReadBack.{at}
use moq_web.Buffers.Writer.{BufferWriter, add_chunk, new, to_uint8_array}
use moq_web.Draft18.{CodecError, incomplete}
use moq_web.Draft18.Writer.{write_var_int, write_bytes, write_byte, fields_to_bytes, write_fields}
use moq_web.Draft18.Reader.{read_byte, has_more}
use moq_web.Draft18.Names.{
  NameCodec, encode_track_namespace, decode_track_namespace, encode_track_name, decode_track_name,
  assert_bound, write_names, namespace_length,
}
use moq_web.Draft18.Names.RoundTrip.{decode_full_name-encode}
use moq_web.Draft18.Objects.{
  ObjectHeader, encode_properties, properties_bytes, write_properties, encode_object_header,
  decode_object_header,
}
use moq_web.Draft18.Objects.Properties.{told_properties}
use moq_web.Draft18.Objects.RoundTrip.{decode_object_header-encode}
use moq_web.Draft18.Pairs.{Pairs, sort_pairs, encode_key_value_pairs, decode_key_value_pairs_to_end}
use moq_web.Draft18.Pairs.Sorted.{IsMap, Ascends}
use moq_web.Draft18.Pairs.RoundTrip.{IsPair, decode_pairs-encode}
use moq_web.Draft18.Frame.{encode_framed, decode_framed, decode_body, assert_control_length}
use moq_web.Draft18.Frame.Laws.{decode_framed-encode}
use moq_web.Draft18.Frame.Cut.{decode_framed-cut}
use moq_web.Draft18.Subgroup.{
  SubgroupHeader, encode_subgroup_header, decode_subgroup_header, encode_fetch_header,
  decode_fetch_header,
}
use moq_web.Draft18.Subgroup.Laws.{as_decoded, decode_subgroup_header-encode}

abbrev all_ascii : List ℕ → Bool
all_ascii [] = true
all_ascii (b ∷ bytes) = ltb b 128 && all_ascii bytes

abbrev front : List ℕ
front = 0 ∷ []

-- An even key, whose value is the number 5, and an odd one, out of order.
abbrev two_pairs : Pairs
two_pairs = (2, 5 ∷ []) ∷ (1, 7 ∷ 8 ∷ []) ∷ []

abbrev pair_bytes : List ℕ
pair_bytes = 1 ∷ 2 ∷ 7 ∷ 8 ∷ 1 ∷ 5 ∷ []

two_pairs-IsMap : IsMap two_pairs
two_pairs-IsMap = ((λ e. absurd (omega arith), tt), (tt, tt))

five : encode (pos 5) ≡ ok (5 ∷ [])
unfolding encode encoded_length encode_with
five = refl

two_pairs-IsPair : All IsPair two_pairs
two_pairs-IsPair = (
  (omega arith, (λ e. (5, five)), (λ e. absurd (ground arith))),
  ((omega arith, (λ e. absurd (ground arith)), (λ e. omega arith)), tt),
)

two_pairs_encoded : fields_to_bytes (encode_key_value_pairs two_pairs) ≡ ok pair_bytes
unfolding fields_to_bytes write_fields encode_key_value_pairs encode encoded_length encode_with new
    add_chunk to_uint8_array write_at
two_pairs_encoded = refl

decode_pairs-encode_example :
    (decode_key_value_pairs_to_end (at front pair_bytes []) ≡ some (ok (sort_pairs two_pairs)))
    × Ascends 0 (sort_pairs two_pairs)
decode_pairs-encode_example =
    decode_pairs-encode two_pairs front pair_bytes two_pairs-IsMap two_pairs-IsPair
      two_pairs_encoded

abbrev header : SubgroupHeader
header = record {
  track_alias = pos 3;
  group_id = pos 300;
  subgroup_id_mode = none;
  subgroup_id = some (pos 1);
  publisher_priority = some 7;
  has_properties = some true;
  end_of_group = none;
  first_object = none;
  stream_type = none;
}

abbrev header_bytes : List ℕ
header_bytes = 85 ∷ 3 ∷ 129 ∷ 44 ∷ 1 ∷ 7 ∷ []

header_encoded : encode_subgroup_header header ≡ ok header_bytes
unfolding encode_subgroup_header moq_web.Draft18.Subgroup.subgroup_type fields_to_bytes write_fields
    encode encoded_length encode_with new add_chunk to_uint8_array write_at
header_encoded = refl

decode_subgroup_header-encode_example :
    decode_subgroup_header (front ++ (header_bytes ++ (9 ∷ []))) (length front)
    ≡ ok (as_decoded header, length header_bytes)
decode_subgroup_header-encode_example =
    decode_subgroup_header-encode header front header_bytes (9 ∷ []) (omega arith) header_encoded

abbrev fetch_bytes : List ℕ
fetch_bytes = 5 ∷ 6 ∷ []

fetch_encoded : encode_fetch_header (pos 6) ≡ ok fetch_bytes
unfolding encode_fetch_header fields_to_bytes write_fields encode encoded_length encode_with new
    add_chunk to_uint8_array write_at
fetch_encoded = refl

-- A message of type 3, whose body is one byte.
abbrev encode_nine : BufferWriter → Result CodecError BufferWriter
encode_nine w = ok (write_byte 9 w)

abbrev frame_bytes : List ℕ
frame_bytes = 3 ∷ 0 ∷ 1 ∷ 9 ∷ []

nine_encoded : encode_framed 3 encode_nine ≡ ok frame_bytes
unfolding encode_framed write_byte encode encoded_length encode_with new add_chunk to_uint8_array
    write_at assert_control_length
nine_encoded = refl

nine_decoded : decode_body read_byte (to_uint8_array (write_byte 9 new)) ≡ ok 9
unfolding decode_body read_byte write_byte new add_chunk to_uint8_array write_at has_more
nine_decoded = refl

decode_framed-encode_example :
    decode_framed (front ++ (frame_bytes ++ (4 ∷ []))) (length front) read_byte
    ≡ ok (9, length frame_bytes)
decode_framed-encode_example =
    decode_framed-encode 3 encode_nine read_byte (write_byte 9 new) 9 front frame_bytes (4 ∷ [])
      (omega arith) refl nine_encoded nine_decoded

decode_framed-cut_example :
    decode_framed (front ++ take 3 frame_bytes) (length front) read_byte ≡ err incomplete
decode_framed-cut_example =
    decode_framed-cut 3 encode_nine read_byte front frame_bytes 3 (omega arith) nine_encoded
      (omega arith)

-- A text is its bytes, and those above 127 are not decoded.
abbrev ascii : NameCodec
ascii = record {
  Text = List ℕ;
  encode_text = λ t. t;
  decode_fatal = λ bytes. if all_ascii bytes then some bytes else none;
}

abbrev two_fields : List (List ℕ)
two_fields = (97 ∷ []) ∷ (98 ∷ 99 ∷ []) ∷ []

abbrev namespace_written : BufferWriter
namespace_written =
    add_chunk (98 ∷ 99 ∷ [])
      (add_chunk (2 ∷ []) (add_chunk (97 ∷ []) (add_chunk (1 ∷ []) (add_chunk (2 ∷ []) new))))

abbrev name_written : BufferWriter
name_written = add_chunk (100 ∷ []) (add_chunk (1 ∷ []) namespace_written)

fields_encoded : encode_track_namespace ascii two_fields new ≡ ok namespace_written
unfolding encode_track_namespace assert_bound write_names namespace_length write_var_int write_bytes
    encode encoded_length encode_with
fields_encoded = refl

name_encoded : encode_track_name ascii (100 ∷ []) two_fields namespace_written ≡ ok name_written
unfolding encode_track_name assert_bound namespace_length write_var_int write_bytes encode
    encoded_length encode_with
name_encoded = refl

decode_full_name-encode_example :
    let bytes = to_uint8_array name_written in
    (r : BufferReader) × (r' : BufferReader) × (decode_track_namespace ascii
        (at front bytes (9 ∷ []))
      ≡ ok (two_fields, r))
    × (decode_track_name ascii two_fields r ≡ ok (100 ∷ [], r'))
    × (r'.position - length front ≡ length bytes)
decode_full_name-encode_example =
    decode_full_name-encode ascii two_fields (100 ∷ []) namespace_written name_written front
      (9 ∷ []) (refl, (refl, tt)) refl fields_encoded name_encoded

abbrev object_header : ObjectHeader
object_header = record {
  object_id_delta = pos 1;
  object_properties = some two_pairs;
  payload_length = pos 4;
}

abbrev object_bytes : List ℕ
object_bytes = 1 ∷ 6 ∷ 1 ∷ 2 ∷ 7 ∷ 8 ∷ 1 ∷ 5 ∷ 4 ∷ []

properties_encoded : properties_bytes (some two_pairs) ≡ ok pair_bytes
unfolding properties_bytes encode_properties sort_pairs moq_web.Draft18.Pairs.pair_fields
    fields_to_bytes write_fields encode encoded_length encode_with new add_chunk to_uint8_array
    write_at
properties_encoded = refl

object_header_encoded : encode_object_header object_header true ≡ ok object_bytes
unfolding encode_object_header write_properties properties_bytes encode_properties sort_pairs
    moq_web.Draft18.Pairs.pair_fields fields_to_bytes write_fields encode encoded_length encode_with
    new add_chunk to_uint8_array write_at
object_header_encoded = refl

decode_object_header-encode_example :
    decode_object_header (front ++ (object_bytes ++ (9 ∷ []))) (length front) true
    ≡ some (
        ok (
          record object_header { object_properties = told_properties true (some two_pairs) },
          length object_bytes,
        ))
decode_object_header-encode_example =
    decode_object_header-encode true object_header pair_bytes front object_bytes (9 ∷ [])
      (two_pairs-IsMap, two_pairs-IsPair) properties_encoded (omega arith) object_header_encoded
