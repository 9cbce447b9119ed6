-- ===== src/Draft18/Subgroup.antt =====
-- Subgroup and fetch headers: encodeSubgroupHeader, decodeSubgroupHeader, encodeFetchHeader and
-- decodeFetchHeader of packages/core/src/encoding/draft18-stream-codec.ts.
pub mod Flags
pub mod Laws
use moq_web.Base.{
  ℕ, ◌+◌, ◌-◌, ◌==◌, List, [], ◌∷◌, ◌++◌, Bool, true, false, not, ◌&&◌, Option, none, some, Result,
  ok, err, ◌>>=◌, bit_and, bit_or, leb, ltb, if◌then◌else◌,
}
use moq_web.Base.Bits.{shl, shr}
use moq_web.Base.Int.{ℤ, pos}
use moq_web.Buffers.Reader.{BufferReader}
use moq_web.Draft18.{CodecError, violation, missing_field, unknown_type}
use moq_web.Draft18.Writer.{Field, var_int_field, byte_field, fields_to_bytes}
use moq_web.Draft18.Reader.{read_int, read_var_int_number, read_byte}

-- interface SubgroupHeaderDraft18; the subgroup ID mode is the number of the enum.
pub record SubgroupHeader : Type 0 where
  pub track_alias : ℤ
  pub group_id : ℤ
  pub subgroup_id_mode : Option ℕ
  pub subgroup_id : Option ℤ
  pub publisher_priority : Option ℕ
  pub has_properties : Option Bool
  pub end_of_group : Option Bool
  pub first_object : Option Bool
  pub stream_type : Option ℕ

-- `a === true` and `a !== false`, where `a` may be undefined.
abbrev pub is_true : Option Bool → Bool
is_true none = false
is_true (some b) = b

abbrev pub is_not_false : Option Bool → Bool
is_not_false none = true
is_not_false (some b) = b

abbrev pub is_undefined {ℓ} : {A : Type ℓ} → Option A → Bool
is_undefined none = true
is_undefined (some a) = false

-- `a ? true : undefined`
abbrev pub true_or_undefined : Bool → Option Bool
true_or_undefined true = some true
true_or_undefined false = none

-- `value ?? fallback`
abbrev pub or_else {ℓ} : {A : Type ℓ} → Option A → A → A
or_else none fallback = fallback
or_else (some a) fallback = a

-- `SubgroupFlags`, and `SubgroupIdModeDraft18`.
abbrev pub properties_flag : ℕ
properties_flag = 0x01

abbrev pub mode_mask : ℕ
mode_mask = 0x06

abbrev pub end_of_group_flag : ℕ
end_of_group_flag = 0x08

abbrev pub base_type : ℕ
base_type = 0x10

abbrev pub default_priority_flag : ℕ
default_priority_flag = 0x20

abbrev pub first_object_flag : ℕ
first_object_flag = 0x40

abbrev pub zero_mode : ℕ
zero_mode = 0

abbrev pub first_object_id_mode : ℕ
first_object_id_mode = 1

abbrev pub explicit_mode : ℕ
explicit_mode = 2

-- `if (set) type |= flag`
abbrev pub with_flag : Bool → ℕ → ℕ → ℕ
with_flag set flag type = if set then bit_or type flag else type

-- `(type & flag) !== 0`
abbrev pub has_flag : ℕ → ℕ → Bool
has_flag type flag = not (bit_and type flag == 0)

unfoldable pub subgroup_type : Bool → ℕ → Bool → Bool → Bool → ℕ
subgroup_type has_properties mode end_of_group default_priority first_object =
    with_flag first_object first_object_flag (
      with_flag default_priority default_priority_flag (
        with_flag end_of_group end_of_group_flag (
          bit_or (with_flag has_properties properties_flag base_type)
            (bit_and (shl mode 1) mode_mask))))

abbrev pub header_mode : SubgroupHeader → ℕ
header_mode header = or_else header.subgroup_id_mode explicit_mode

abbrev pub header_type : SubgroupHeader → ℕ
header_type header =
    subgroup_type (is_true header.has_properties) (header_mode header) (is_true header.end_of_group)
      (is_undefined header.publisher_priority) (is_not_false header.first_object)

abbrev pub optional_var_int : Option ℤ → List Field
optional_var_int none = []
optional_var_int (some value) = var_int_field value ∷ []

abbrev pub optional_byte : Option ℕ → List Field
optional_byte none = []
optional_byte (some value) = byte_field value ∷ []

-- The calls on the writer; the subgroup ID is there when its mode is EXPLICIT.
unfoldable pub subgroup_header_fields : SubgroupHeader → List Field
subgroup_header_fields header =
    var_int_field (pos (header_type header))
    ∷ var_int_field header.track_alias
    ∷ var_int_field header.group_id
    ∷ ((if header_mode header == explicit_mode then optional_var_int header.subgroup_id else [])
        ++ optional_byte header.publisher_priority)

unfoldable pub encode_subgroup_header : SubgroupHeader → Result CodecError (List ℕ)
unfolding subgroup_header_fields
encode_subgroup_header header =
    if ltb explicit_mode (header_mode header)
    then err violation
    else (if (header_mode header == explicit_mode) && is_undefined header.subgroup_id
        then err missing_field
        else fields_to_bytes (subgroup_header_fields header))

unfoldable pub is_subgroup_header : ℕ → Bool
is_subgroup_header type = has_flag type 0x10 && not (has_flag type 0x80)

unfoldable pub mode_bits : ℕ → ℕ
mode_bits type = shr (bit_and type mode_mask) 1

-- The subgroup ID of a mode: read, 0, or left for the first object to tell.
unfoldable pub read_subgroup_id : ℕ → BufferReader → Result CodecError (Option ℤ × BufferReader)
read_subgroup_id mode r =
    if mode == explicit_mode
    then (do (value, r') ← read_int r; ok (some value, r'))
    else ok ((if mode == zero_mode then some (pos 0) else none), r)

unfoldable pub read_priority : Bool → BufferReader → Result CodecError (Option ℕ × BufferReader)
read_priority true r = ok (none, r)
read_priority false r = do (value, r') ← read_byte r; ok (some value, r')

-- The fields behind a stream type that passed the tests.
unfoldable pub read_subgroup_fields :
    ℕ → BufferReader → Result CodecError (SubgroupHeader × BufferReader)
unfolding mode_bits read_subgroup_id read_priority
read_subgroup_fields type r = do
  (alias, r1) ← read_int r
  (group, r2) ← read_int r1
  (subgroup, r3) ← read_subgroup_id (mode_bits type) r2
  (priority, r4) ← read_priority (has_flag type default_priority_flag) r3
  ok (
    record {
      track_alias = alias;
      group_id = group;
      subgroup_id_mode = some (mode_bits type);
      subgroup_id = subgroup;
      publisher_priority = priority;
      has_properties = true_or_undefined (has_flag type properties_flag);
      end_of_group = true_or_undefined (has_flag type end_of_group_flag);
      first_object = some (has_flag type first_object_flag);
      stream_type = some type;
    },
    r4,
  )

unfoldable pub decode_subgroup_header : List ℕ → ℕ → Result CodecError (SubgroupHeader × ℕ)
decode_subgroup_header buffer offset = do
  (type, r) ← read_var_int_number (record { buffer = buffer; position = offset })
  (if leb 128 type
      then err violation
      else (if not (is_subgroup_header type)
          then err unknown_type
          else (if mode_bits type == 3 then err violation else (do
            (header, r') ← read_subgroup_fields type r
            ok (header, r'.position - offset)))))

abbrev pub fetch_header_type : ℕ
fetch_header_type = 0x05

unfoldable pub encode_fetch_header : ℤ → Result CodecError (List ℕ)
encode_fetch_header request_id =
    fields_to_bytes (var_int_field (pos fetch_header_type) ∷ var_int_field request_id ∷ [])

unfoldable pub decode_fetch_header : List ℕ → ℕ → Result CodecError (ℤ × ℕ)
decode_fetch_header buffer offset = do
  (type, r) ← read_var_int_number (record { buffer = buffer; position = offset })
  (if type == fetch_header_type
      then (do (request_id, r') ← read_int r; ok (request_id, r'.position - offset))
      else err unknown_type)
