-- ===== src/Draft18/Objects.antt =====
-- Object headers and their properties, encodeProperties, decodeProperties, encodeObjectHeader and
-- decodeObjectHeader of packages/core/src/encoding/draft18-stream-codec.ts.
pub mod Properties
pub mod Total
pub mod RoundTrip
pub mod Limited
use moq_web.Base.{
  ℕ, zero, suc, ◌+◌, ◌-◌, ◌==◌, List, [], length, Bool, true, false, Option, none, some, Result, ok,
  err, ◌>>=◌, ltb, if◌then◌else◌,
}
use moq_web.Base.Int.{ℤ, pos}
use moq_web.Buffers.Reader.{BufferReader}
use moq_web.Buffers.Writer.{BufferWriter, new, to_uint8_array}
use moq_web.Draft18.{CodecError, violation, bounds_exceeded}
use moq_web.Draft18.Writer.{Field, write_var_int, write_bytes, fields_to_bytes}
use moq_web.Draft18.Reader.{read_int, read_var_int_number}
use moq_web.Draft18.Pairs.{Pairs, sort_pairs, pair_fields, read_pair}

-- interface ObjectHeaderDraft18
pub record ObjectHeader : Type 0 where
  pub object_id_delta : ℤ
  pub object_properties : Option Pairs
  pub payload_length : ℤ

abbrev pub max_properties_length : ℕ
max_properties_length = 1048576

-- The calls of `encodeProperties`.
unfoldable pub encode_properties : Pairs → List Field
encode_properties properties = pair_fields 0 (sort_pairs properties)

-- The loop of `decodeProperties`, for as many rounds as the fuel allows; it must end on the end of the
-- properties.
unfoldable pub read_properties :
    ℕ → ℕ → ℕ → Pairs → BufferReader → Option (Result CodecError (Pairs × BufferReader))
read_properties zero end_offset previous_key properties r = none
read_properties (suc fuel) end_offset previous_key properties r = elim (ltb r.position end_offset) [
  | false ↦ some (if r.position == end_offset then ok (properties, r) else err violation)
  | true ↦ elim (read_pair previous_key properties r) [
    | ok (key, (properties', r')) ↦ read_properties fuel end_offset key properties' r'
    | err e ↦ some (err e)
  ]
]

-- With a round for each byte up to the end.
unfoldable pub decode_properties :
    ℕ → BufferReader → Option (Result CodecError (Pairs × BufferReader))
decode_properties end_offset r = read_properties (suc (end_offset - r.position)) end_offset 0 [] r

-- The writer of the properties, a new one.
unfoldable pub properties_bytes : Option Pairs → Result CodecError (List ℕ)
properties_bytes none = fields_to_bytes []
properties_bytes (some properties) = fields_to_bytes (encode_properties properties)

unfoldable pub write_properties :
    Bool → Option Pairs → BufferWriter → Result CodecError BufferWriter
write_properties false properties w = ok w
write_properties true properties w = do
  bytes ← properties_bytes properties
  w' ← write_var_int (pos (length bytes)) w
  ok (write_bytes bytes w')

unfoldable pub encode_object_header : ObjectHeader → Bool → Result CodecError (List ℕ)
encode_object_header header has_properties = do
  w ← write_var_int header.object_id_delta new
  w' ← write_properties has_properties header.object_properties w
  w'' ← write_var_int header.payload_length w'
  ok (to_uint8_array w'')

-- The properties of `n` bytes; none are left undefined.
unfoldable pub read_sized_properties :
    ℕ → BufferReader → Option (Result CodecError (Option Pairs × BufferReader))
read_sized_properties zero r = some (ok (none, r))
read_sized_properties (suc n) r = elim (decode_properties (r.position + suc n) r) [
  | none ↦ none
  | some (err e) ↦ some (err e)
  | some (ok (properties, r')) ↦ some (ok (some properties, r'))
]

unfoldable pub read_object_properties :
    Bool → BufferReader → Option (Result CodecError (Option Pairs × BufferReader))
read_object_properties false r = some (ok (none, r))
read_object_properties true r = elim (read_var_int_number r) [
  | err e ↦ some (err e)
  | ok (n, r') ↦ elim (ltb max_properties_length n) [
    | true ↦ some (err bounds_exceeded)
    | false ↦ read_sized_properties n r'
  ]
]

-- Properties that stand in `n` bytes, at most 2^20.
unfoldable pub read_limited_properties :
    ℕ → BufferReader → Option (Result CodecError (Option Pairs × BufferReader))
read_limited_properties n r = elim (ltb max_properties_length n) [
  | true ↦ some (err bounds_exceeded)
  | false ↦ elim (decode_properties (r.position + n) r) [
    | none ↦ none
    | some (err e) ↦ some (err e)
    | some (ok (properties, r')) ↦ some (ok (some properties, r'))
  ]
]

unfoldable pub decode_object_header :
    List ℕ → ℕ → Bool → Option (Result CodecError (ObjectHeader × ℕ))
decode_object_header buffer offset has_properties =
    elim (read_int (record { buffer = buffer; position = offset })) [
      | err e ↦ some (err e)
      | ok (delta, r) ↦ elim (read_object_properties has_properties r) [
        | none ↦ none
        | some (err e) ↦ some (err e)
        | some (ok (properties, r')) ↦ some (do
          (payload, r'') ← read_int r'
          ok (
            record {
              object_id_delta = delta;
              object_properties = properties;
              payload_length = payload;
            },
            r''.position - offset,
          ))
      ]
    ]
