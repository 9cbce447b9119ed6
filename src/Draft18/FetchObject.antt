-- ===== src/Draft18/FetchObject.antt =====
-- Fetch objects: encodeFetchObject and decodeFetchObject of
-- packages/core/src/encoding/draft18-stream-codec.ts.
pub mod Flags
pub mod Written
pub mod Take
pub mod Laws
use moq_web.Base.{
  ℕ, ◌+◌, ◌-◌, ◌==◌, List, [], ◌∷◌, ◌++◌, Bool, true, false, not, ◌&&◌, ◌||◌, Option, none, some,
  Result, ok, err, ◌>>=◌, bit_and, bit_or, leb, if◌then◌else◌,
}
use moq_web.Base.Int.{ℤ, pos}
use moq_web.Buffers.Reader.{BufferReader}
use moq_web.Buffers.Writer.{BufferWriter, new, to_uint8_array}
use moq_web.Draft18.{CodecError, violation, missing_field}
use moq_web.Draft18.Writer.{Field, var_int_field, write_fields}
use moq_web.Draft18.Reader.{read_int, read_var_int_number}
use moq_web.Draft18.Pairs.{Pairs}
use moq_web.Draft18.Objects.{write_properties, read_limited_properties}
use moq_web.Draft18.Subgroup.{
  is_true, is_undefined, true_or_undefined, or_else, with_flag, has_flag, optional_var_int,
  optional_byte, read_priority,
}
use moq_web.Draft18.Datagram.{has_some}

-- interface FetchObjectDraft18; the subgroup mode and the mark of an end of range are the numbers of
-- their enums.
pub record FetchObject : Type 0 where
  pub subgroup_mode : ℕ
  pub group_id_delta : Option ℤ
  pub subgroup_id : Option ℤ
  pub object_id_delta : Option ℤ
  pub publisher_priority : Option ℕ
  pub object_properties : Option Pairs
  pub payload_length : Option ℤ
  pub datagram_mode : Option Bool
  pub end_of_range : Option ℕ

-- `FetchObjectFlags`
abbrev pub subgroup_mode_mask : ℕ
subgroup_mode_mask = 0x03

abbrev pub object_id_delta_flag : ℕ
object_id_delta_flag = 0x04

abbrev pub group_id_delta_flag : ℕ
group_id_delta_flag = 0x08

abbrev pub priority_flag : ℕ
priority_flag = 0x10

abbrev pub properties_flag : ℕ
properties_flag = 0x20

abbrev pub datagram_mode_flag : ℕ
datagram_mode_flag = 0x40

-- `FetchSubgroupMode.ZERO` and `EXPLICIT`
abbrev pub zero_mode : ℕ
zero_mode = 0

abbrev pub explicit_mode : ℕ
explicit_mode = 3

-- `FetchObjectEndOfRange`
unfoldable pub is_end_of_range : ℕ → Bool
is_end_of_range flags = flags == 0x8c || (flags == 0x10c || flags == 0x20c)

unfoldable pub fetch_flags : ℕ → Bool → Bool → Bool → Bool → Bool → ℕ
fetch_flags mode has_object has_group has_priority has_properties datagram_mode =
    with_flag datagram_mode datagram_mode_flag (
      with_flag has_properties properties_flag (
        with_flag has_priority priority_flag (
          with_flag has_group group_id_delta_flag
            (with_flag has_object object_id_delta_flag (bit_and mode subgroup_mode_mask)))))

abbrev pub is_given {ℓ} : {A : Type ℓ} → Option A → Bool
is_given a = not (is_undefined a)

abbrev pub flags_of : FetchObject → ℕ
flags_of obj =
    fetch_flags obj.subgroup_mode (is_given obj.object_id_delta) (is_given obj.group_id_delta)
      (is_given obj.publisher_priority) (has_some obj.object_properties) (is_true obj.datagram_mode)

-- The subgroup ID is on the wire.
abbrev pub names_subgroup : FetchObject → Bool
names_subgroup obj = not (is_true obj.datagram_mode) && (obj.subgroup_mode == explicit_mode)

-- The calls on the writer before the test of the subgroup ID, and those from there to the properties.
abbrev pub first_fields : FetchObject → List Field
first_fields obj = var_int_field (pos (flags_of obj)) ∷ optional_var_int obj.group_id_delta

abbrev pub middle_fields : FetchObject → List Field
middle_fields obj =
    (if names_subgroup obj then optional_var_int obj.subgroup_id else [])
    ++ (optional_var_int obj.object_id_delta ++ optional_byte obj.publisher_priority)

unfoldable pub encode_end_of_range : ℕ → Option ℤ → Option ℤ → Result CodecError (List ℕ)
encode_end_of_range mark (some group) (some object) = do
  w ← write_fields (var_int_field (pos mark) ∷ var_int_field group ∷ var_int_field object ∷ []) new
  ok (to_uint8_array w)
encode_end_of_range mark group object = do
  w ← write_fields (var_int_field (pos mark) ∷ []) new
  err missing_field

unfoldable pub encode_object : FetchObject → Result CodecError (List ℕ)
encode_object obj = if leb 128 (flags_of obj) then err violation else (do
  w ← write_fields (first_fields obj) new
  (if names_subgroup obj && is_undefined obj.subgroup_id then err missing_field else (do
    w1 ← write_fields (middle_fields obj) w
    w2 ← write_properties (has_some obj.object_properties) obj.object_properties w1
    w3 ← write_fields (var_int_field (or_else obj.payload_length (pos 0)) ∷ []) w2
    ok (to_uint8_array w3))))

unfoldable pub encode_fetch_object : FetchObject → Result CodecError (List ℕ)
unfolding encode_end_of_range encode_object
encode_fetch_object obj = elim obj.end_of_range [
  | some mark ↦ encode_end_of_range mark obj.group_id_delta obj.object_id_delta
  | none ↦ encode_object obj
]

unfoldable pub read_optional_int : Bool → BufferReader → Result CodecError (Option ℤ × BufferReader)
read_optional_int false r = ok (none, r)
read_optional_int true r = do (value, r') ← read_int r; ok (some value, r')

-- The fields before the properties: group, subgroup, object, priority.
abbrev pub Head : Type 0
Head = Option ℤ × Option ℤ × Option ℤ × Option ℕ

abbrev pub mode_of : ℕ → ℕ
mode_of flags = bit_and flags subgroup_mode_mask

unfoldable pub read_head : ℕ → BufferReader → Result CodecError (Head × BufferReader)
unfolding read_optional_int
read_head flags r = do
  (group, r1) ← read_optional_int (has_flag flags group_id_delta_flag) r
  (subgroup, r2) ←
      read_optional_int
        (not (has_flag flags datagram_mode_flag) && (mode_of flags == explicit_mode)) r1
  (object, r3) ← read_optional_int (has_flag flags object_id_delta_flag) r2
  (priority, r4) ← read_priority (not (has_flag flags priority_flag)) r3
  ok ((group, subgroup, object, priority), r4)

unfoldable pub read_fetch_properties :
    Bool → BufferReader → Option (Result CodecError (Option Pairs × BufferReader))
read_fetch_properties false r = some (ok (none, r))
read_fetch_properties true r = elim (read_var_int_number r) [
  | err e ↦ some (err e)
  | ok (n, r') ↦ read_limited_properties n r'
]

unfoldable pub read_end_of_range : ℕ → BufferReader → Result CodecError (FetchObject × BufferReader)
read_end_of_range flags r = do
  (group, r') ← read_int r
  (object, r'') ← read_int r'
  ok (
    record {
      subgroup_mode = zero_mode;
      group_id_delta = some group;
      subgroup_id = none;
      object_id_delta = some object;
      publisher_priority = none;
      object_properties = none;
      payload_length = none;
      datagram_mode = none;
      end_of_range = some flags;
    },
    r'',
  )

-- What stands behind the properties, and the object of it all.
unfoldable pub finish :
    ℕ → Head → Option Pairs → BufferReader → Result CodecError (FetchObject × BufferReader)
finish flags (group, subgroup, object, priority) properties r = do
  (payload, r') ← read_int r
  ok (
    record {
      subgroup_mode = mode_of flags;
      group_id_delta = group;
      subgroup_id = subgroup;
      object_id_delta = object;
      publisher_priority = priority;
      object_properties = properties;
      payload_length = some payload;
      datagram_mode = true_or_undefined (has_flag flags datagram_mode_flag);
      end_of_range = none;
    },
    r',
  )

unfoldable pub read_object :
    ℕ → BufferReader → Option (Result CodecError (FetchObject × BufferReader))
read_object flags r = elim (read_head flags r) [
  | err e ↦ some (err e)
  | ok (head, r') ↦ elim (read_fetch_properties (has_flag flags properties_flag) r') [
    | none ↦ none
    | some (err e) ↦ some (err e)
    | some (ok (properties, r'')) ↦ some (finish flags head properties r'')
  ]
]

-- What the flags tell to read.
unfoldable pub read_by_flags :
    ℕ → BufferReader → Option (Result CodecError (FetchObject × BufferReader))
read_by_flags flags r = elim (is_end_of_range flags) [
  | true ↦ some (read_end_of_range flags r)
  | false ↦ elim (leb 128 flags) [ true ↦ some (err violation) | false ↦ read_object flags r ]
]

unfoldable pub decode_fetch_object : List ℕ → ℕ → Option (Result CodecError (FetchObject × ℕ))
decode_fetch_object buffer offset =
    elim (read_var_int_number (record { buffer = buffer; position = offset })) [
      | err e ↦ some (err e)
      | ok (flags, r) ↦ elim (read_by_flags flags r) [
        | none ↦ none
        | some (err e) ↦ some (err e)
        | some (ok (obj, r')) ↦ some (ok (obj, r'.position - offset))
      ]
    ]
