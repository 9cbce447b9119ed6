-- ===== src/Draft18/Datagram.antt =====
-- Object datagrams: isDatagramType, encodeObjectDatagram and decodeObjectDatagram of
-- packages/core/src/encoding/draft18-stream-codec.ts.
pub mod Flags
pub mod Written
pub mod Laws
use moq_web.Base.{
  ℕ, zero, ◌+◌, ◌-◌, ◌==◌, List, [], ◌∷◌, ◌++◌, length, drop, Bool, true, false, not, ◌&&◌, Option,
  none, some, Result, ok, err, ◌>>=◌, bit_and, ltb, if◌then◌else◌,
}
use moq_web.Base.Int.{ℤ, pos}
use moq_web.Buffers.Reader.{BufferReader}
use moq_web.Buffers.Writer.{BufferWriter, new, to_uint8_array}
use moq_web.Draft18.{CodecError, violation, unknown_type}
use moq_web.Draft18.Writer.{
  Field, var_int_field, byte_field, bytes_field, write_fields, write_var_int, write_bytes,
}
use moq_web.Draft18.Reader.{read_int, read_var_int_number}
use moq_web.Draft18.Pairs.{Pairs}
use moq_web.Draft18.Objects.{properties_bytes, read_limited_properties}
use moq_web.Draft18.Subgroup.{
  is_true, is_undefined, true_or_undefined, or_else, with_flag, has_flag, optional_byte,
  read_priority,
}

-- interface ObjectDatagramDraft18
pub record ObjectDatagram : Type 0 where
  pub track_alias : ℤ
  pub group_id : ℤ
  pub object_id : Option ℤ
  pub publisher_priority : Option ℕ
  pub object_properties : Option Pairs
  pub end_of_group : Option Bool
  pub object_status : Option ℕ
  pub payload : Option (List ℕ)

-- `DatagramFlags`
abbrev pub properties_flag : ℕ
properties_flag = 0x01

abbrev pub end_of_group_flag : ℕ
end_of_group_flag = 0x02

abbrev pub zero_object_id_flag : ℕ
zero_object_id_flag = 0x04

abbrev pub default_priority_flag : ℕ
default_priority_flag = 0x08

abbrev pub status_flag : ℕ
status_flag = 0x20

unfoldable pub is_datagram_type : ℕ → Bool
is_datagram_type type =
    if ltb 0xff type
    then false
    else (if has_flag type 0xd0
        then false
        else (if has_flag type status_flag && has_flag type end_of_group_flag then false else true))

-- `properties !== undefined && properties.size > 0`
abbrev pub has_some : Option Pairs → Bool
has_some none = false
has_some (some []) = false
has_some (some (p ∷ ps)) = true

-- `id === undefined || id === 0n`
abbrev pub is_zero_id : Option ℤ → Bool
is_zero_id none = true
is_zero_id (some (pos v)) = v == 0
is_zero_id (some z) = false

unfoldable pub datagram_type : Bool → Bool → Bool → Bool → Bool → ℕ
datagram_type has_properties end_of_group zero_id default_priority is_status =
    with_flag is_status status_flag (
      with_flag default_priority default_priority_flag (
        with_flag zero_id zero_object_id_flag
          (with_flag end_of_group end_of_group_flag (with_flag has_properties properties_flag 0))))

abbrev pub is_status : ObjectDatagram → Bool
is_status datagram = not (is_undefined datagram.object_status)

abbrev pub type_of : ObjectDatagram → ℕ
type_of datagram =
    datagram_type (has_some datagram.object_properties) (is_true datagram.end_of_group)
      (is_zero_id datagram.object_id) (is_undefined datagram.publisher_priority)
      (is_status datagram)

abbrev pub id_fields : Option ℤ → List Field
id_fields id = if is_zero_id id then [] else var_int_field (or_else id (pos 0)) ∷ []

-- The calls on the writer before the properties, and those behind them.
unfoldable pub first_fields : ObjectDatagram → List Field
first_fields datagram =
    var_int_field (pos (type_of datagram))
    ∷ var_int_field datagram.track_alias
    ∷ var_int_field datagram.group_id
    ∷ (id_fields datagram.object_id ++ optional_byte datagram.publisher_priority)

abbrev pub payload_fields : Option (List ℕ) → List Field
payload_fields none = []
payload_fields (some payload) = bytes_field payload ∷ []

abbrev pub last_fields : Option ℕ → Option (List ℕ) → List Field
last_fields (some status) payload = var_int_field (pos status) ∷ []
last_fields none payload = payload_fields payload

-- Properties that were encoded to no byte are refused.
unfoldable pub write_some_properties :
    Bool → Option Pairs → BufferWriter → Result CodecError BufferWriter
write_some_properties false properties w = ok w
write_some_properties true properties w = do
  bytes ← properties_bytes properties
  (if length bytes == 0
      then err violation
      else (do w' ← write_var_int (pos (length bytes)) w; ok (write_bytes bytes w')))

-- A status other than that of a normal object, beside properties.
abbrev pub is_abnormal : Bool → Option ℕ → Bool
is_abnormal has_properties status = has_properties && not (or_else status 0 == 0)

unfoldable pub encode_object_datagram : ObjectDatagram → Result CodecError (List ℕ)
unfolding first_fields write_some_properties
encode_object_datagram datagram =
    if is_status datagram && is_true datagram.end_of_group
    then err violation
    else (if is_abnormal (has_some datagram.object_properties) datagram.object_status
        then err violation
        else (do
          w ← write_fields (first_fields datagram) new
          w' ←
              write_some_properties (has_some datagram.object_properties) datagram.object_properties
                w
          w'' ← write_fields (last_fields datagram.object_status datagram.payload) w'
          ok (to_uint8_array w'')))

-- The fields before the properties: alias, group, object, priority.
abbrev pub Head : Type 0
Head = ℤ × ℤ × ℤ × Option ℕ

unfoldable pub read_object_id : Bool → BufferReader → Result CodecError (ℤ × BufferReader)
read_object_id true r = ok (pos 0, r)
read_object_id false r = read_int r

unfoldable pub read_head : ℕ → BufferReader → Result CodecError (Head × BufferReader)
read_head type r = do
  (alias, r1) ← read_int r
  (group, r2) ← read_int r1
  (object, r3) ← read_object_id (has_flag type zero_object_id_flag) r2
  (priority, r4) ← read_priority (has_flag type default_priority_flag) r3
  ok ((alias, group, object, priority), r4)

unfoldable pub read_datagram_properties :
    Bool → BufferReader → Option (Result CodecError (Option Pairs × BufferReader))
read_datagram_properties false r = some (ok (none, r))
read_datagram_properties true r = elim (read_var_int_number r) [
  | err e ↦ some (err e)
  | ok (n, r') ↦ elim (n == 0) [
    | true ↦ some (err violation)
    | false ↦ read_limited_properties n r'
  ]
]

-- The status, or else the rest of the buffer.
unfoldable pub read_body :
    Bool → Bool → BufferReader → Result CodecError (Option ℕ × Option (List ℕ))
read_body has_properties false r = ok (none, some (drop r.position r.buffer))
read_body has_properties true r = do
  (status, r') ← read_var_int_number r
  (if is_abnormal has_properties (some status) then err violation else ok (some status, none))

unfoldable pub read_type : BufferReader → Result CodecError (ℕ × BufferReader)
read_type r = do
  (type, r') ← read_var_int_number r
  (if not (is_datagram_type type)
      then err unknown_type
      else (if has_flag type 0x10 then err violation else ok (type, r')))

-- The type and the fields before the properties.
unfoldable pub read_start : BufferReader → Result CodecError (ℕ × Head × BufferReader)
unfolding read_type read_head
read_start r = do (type, r1) ← read_type r; (head, r2) ← read_head type r1; ok (type, head, r2)

-- What stands behind the properties, and the datagram of it all.
unfoldable pub finish :
    ℕ → ℕ → Head → Option Pairs → BufferReader → Result CodecError (ObjectDatagram × ℕ)
unfolding read_body
finish size type (alias, group, object, priority) properties r = do
  (status, payload) ← read_body (has_flag type properties_flag) (has_flag type status_flag) r
  ok (
    record {
      track_alias = alias;
      group_id = group;
      object_id = some object;
      publisher_priority = priority;
      object_properties = properties;
      end_of_group = true_or_undefined (has_flag type end_of_group_flag);
      object_status = status;
      payload = payload;
    },
    size,
  )

unfoldable pub decode_object_datagram : List ℕ → ℕ → Option (Result CodecError (ObjectDatagram × ℕ))
decode_object_datagram buffer offset =
    elim (read_start (record { buffer = buffer; position = offset })) [
      | err e ↦ some (err e)
      | ok (type, head, r) ↦ elim (read_datagram_properties (has_flag type properties_flag) r) [
        | none ↦ none
        | some (err e) ↦ some (err e)
        | some (ok (properties, r')) ↦
            some (finish (length buffer - offset) type head properties r')
      ]
    ]
