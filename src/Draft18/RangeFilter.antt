-- ===== src/Draft18/RangeFilter.antt =====
-- Range filters of draft 22, packages/core/src/encoding/draft22-range-filter.ts. A set ID is a natural
-- number.
pub mod Laws
pub mod RoundTrip
pub mod Total
pub mod Ends
use moq_web.Base.{
  ℕ, zero, suc, ◌+◌, ◌==◌, ◌%◌, List, [], ◌∷◌, ◌++◌, length, Bool, true, false, not, ◌&&◌, ◌||◌,
  Option, none, some, Result, ok, err, ◌>>=◌, ltb, leb, if◌then◌else◌,
}
use moq_web.Base.Int.{ℤ, pos, negsuc, ltb_int, ◌-ℤ◌}
use moq_web.Buffers.Reader.{BufferReader}
use moq_web.Draft18.{CodecError, violation}
use moq_web.Draft18.Writer.{Field, var_int_field, byte_field, fields_to_bytes}
use moq_web.Draft18.Reader.{read_int, read_var_int, read_byte, has_more}
use moq_web.Draft18.Subgroup.{is_undefined, or_else, optional_var_int}

-- type RangeFilterTypeDraft22
pub data FilterType : Type 0 where
  subgroup_filter objectid_filter priority_filter : FilterType
  object_property_filter track_property_filter : FilterType

-- interfaces RangeDraft22 and RangeFilterDraft22
pub record Range : Type 0 where
  pub start : ℤ
  pub end : Option ℤ

pub record RangeFilter : Type 0 where
  pub type : FilterType
  pub set_id : Option ℕ
  pub property_type : Option ℤ
  pub ranges : List Range

-- The error of `invalid`.
pub data FilterError : Type 0 where
  invalid_filter : FilterError

-- MOQT_VARINT_MAX
abbrev pub moqt_varint_max : ℕ
moqt_varint_max = 18446744073709551615

abbrev pub priority_max : ℕ
priority_max = 255

abbrev pub set_id_max : ℕ
set_id_max = 255

unfoldable pub has_property_type : FilterType → Bool
has_property_type object_property_filter = true
has_property_type track_property_filter = true
has_property_type subgroup_filter = false
has_property_type objectid_filter = false
has_property_type priority_filter = false

abbrev pub is_priority : FilterType → Bool
is_priority priority_filter = true
is_priority subgroup_filter = false
is_priority objectid_filter = false
is_priority object_property_filter = false
is_priority track_property_filter = false

abbrev pub is_empty {ℓ} : {A : Type ℓ} → List A → Bool
is_empty [] = true
is_empty (x ∷ xs) = false

unfoldable pub is_removal : RangeFilter → Bool
is_removal filter =
    is_undefined filter.set_id && (is_undefined filter.property_type && is_empty filter.ranges)

unfoldable pub count_ranges : List RangeFilter → ℕ
count_ranges [] = 0
count_ranges (filter ∷ filters) = length filter.ranges + count_ranges filters

-- `n % 2n !== 0n`
abbrev pub is_odd : ℤ → Bool
is_odd (pos n) = not (n % 2 == 0)
is_odd (negsuc n) = n % 2 == 0

unfoldable pub validate_range : Range → ℤ → ℕ → Bool → Result FilterError (Unit {0})
validate_range range previous_end value_max is_last =
    if ltb_int range.start previous_end
    then err invalid_filter
    else (if is_undefined range.end && not is_last
        then err invalid_filter
        else (if ltb_int (or_else range.end range.start) range.start
            then err invalid_filter
            else (if ltb_int (pos value_max) range.start
                  || ltb_int (pos value_max) (or_else range.end (pos 0))
                then err invalid_filter
                else ok tt)))

-- The loop over the ranges.
unfoldable pub validate_ranges : ℤ → ℕ → List Range → Result FilterError (Unit {0})
unfolding validate_range
validate_ranges previous_end value_max [] = ok tt
validate_ranges previous_end value_max (range ∷ ranges) = do
  _ ← validate_range range previous_end value_max (is_empty ranges)
  validate_ranges (or_else range.end previous_end) value_max ranges

unfoldable pub validate_property_type : RangeFilter → Result FilterError (Unit {0})
unfolding has_property_type
validate_property_type filter =
    if has_property_type filter.type
    then elim filter.property_type [
      | none ↦ err invalid_filter
      | some type ↦
          if is_odd type
          then err invalid_filter
          else (if ltb_int (pos moqt_varint_max) type then err invalid_filter else ok tt)
    ]
    else (if is_undefined filter.property_type then ok tt else err invalid_filter)

unfoldable pub validate_range_filter : RangeFilter → Result FilterError (Unit {0})
unfolding is_removal validate_property_type validate_ranges
validate_range_filter filter = if is_removal filter then ok tt else elim filter.set_id [
  | none ↦ err invalid_filter
  | some id ↦ if ltb set_id_max id then err invalid_filter else (do
    _ ← validate_property_type filter
    (if is_empty filter.ranges
        then err invalid_filter
        else validate_ranges (pos 0)
            (if is_priority filter.type then priority_max else moqt_varint_max) filter.ranges))
]

-- The calls that write the ranges; an open end is the last.
unfoldable pub range_fields : ℤ → List Range → List Field
range_fields previous_end [] = []
range_fields previous_end (range ∷ ranges) =
    var_int_field (range.start -ℤ previous_end) ∷ elim range.end [
      | none ↦ []
      | some end ↦ var_int_field (end -ℤ range.start) ∷ range_fields end ranges
    ]

-- An undefined set ID would be written as 0.
unfoldable pub filter_fields : RangeFilter → List Field
unfolding range_fields
filter_fields filter =
    byte_field (or_else filter.set_id 0)
    ∷ (optional_var_int filter.property_type ++ range_fields (pos 0) filter.ranges)

unfoldable pub encode_range_filter : RangeFilter → Result CodecError (List ℕ)
unfolding filter_fields is_removal
encode_range_filter filter =
    if is_removal filter then ok [] else fields_to_bytes (filter_fields filter)

-- The loop of `decodeRangeFilter`, for as many rounds as the fuel allows.
unfoldable pub read_ranges :
    ℕ → ℕ → List Range → BufferReader → Option (Result CodecError (List Range))
read_ranges zero previous_end ranges r = none
read_ranges (suc fuel) previous_end ranges r = elim (has_more r) [
  | false ↦ some (ok ranges)
  | true ↦ elim (read_var_int r) [
    | err e ↦ some (err e)
    | ok (delta, r') ↦ elim (has_more r') [
      | false ↦ some (ok (ranges ++ record { start = pos (previous_end + delta); end = none } ∷ []))
      | true ↦ elim (read_var_int r') [
        | err e ↦ some (err e)
        | ok (size, r'') ↦
            (let start = previous_end + delta in
              read_ranges fuel (start + size)
                (ranges ++ record { start = pos start; end = some (pos (start + size)) } ∷ []) r'')
      ]
    ]
  ]
]

unfoldable pub read_property_type :
    Bool → BufferReader → Result CodecError (Option ℤ × BufferReader)
read_property_type false r = ok (none, r)
read_property_type true r =
    if not (has_more r) then err violation else (do (type, r') ← read_int r; ok (some type, r'))

-- The set ID and the property type.
unfoldable pub read_filter_head :
    FilterType → BufferReader → Result CodecError (ℕ × Option ℤ × BufferReader)
unfolding read_property_type has_property_type
read_filter_head type r = do
  (id, r') ← read_byte r
  (property, r'') ← read_property_type (has_property_type type) r'
  ok (id, property, r'')

-- With a round for each byte, and one more.
unfoldable pub decode_range_filter : FilterType → List ℕ → Option (Result CodecError RangeFilter)
decode_range_filter type value = elim (is_empty value) [
  | true ↦ some (ok (record { type = type; set_id = none; property_type = none; ranges = [] }))
  | false ↦ elim (read_filter_head type (record { buffer = value; position = 0 })) [
    | err e ↦ some (err e)
    | ok (id, property, r) ↦ elim (read_ranges (suc (length value)) 0 [] r) [
      | none ↦ none
      | some (err e) ↦ some (err e)
      | some (ok ranges) ↦
          some (
            ok
              (record { type = type; set_id = some id; property_type = property; ranges = ranges }))
    ]
  ]
]

-- The key of a filter: type, set ID and property type.
abbrev pub rank : FilterType → ℕ
rank subgroup_filter = 0
rank objectid_filter = 1
rank priority_filter = 2
rank object_property_filter = 3
rank track_property_filter = 4

abbrev pub same_id : Option ℕ → Option ℕ → Bool
same_id none none = true
same_id none (some b) = false
same_id (some a) none = false
same_id (some a) (some b) = a == b

abbrev pub same_property : Option ℤ → Option ℤ → Bool
same_property none none = true
same_property none (some b) = false
same_property (some a) none = false
same_property (some a) (some b) = not (ltb_int a b) && not (ltb_int b a)

abbrev pub same_key : RangeFilter → RangeFilter → Bool
same_key a b =
    (rank a.type == rank b.type)
    && (same_id a.set_id b.set_id && same_property a.property_type b.property_type)

-- `seen.has`, where a filter stands for its key.
unfoldable pub was_seen : RangeFilter → List RangeFilter → Bool
was_seen filter [] = false
was_seen filter (other ∷ seen) = same_key other filter || was_seen filter seen

-- The loop of `validateRangeFilters`.
unfoldable pub validate_unseen : List RangeFilter → List RangeFilter → Result FilterError (Unit {0})
unfolding was_seen validate_range_filter
validate_unseen seen [] = ok tt
validate_unseen seen (filter ∷ filters) =
    if was_seen filter seen
    then err invalid_filter
    else (do _ ← validate_range_filter filter; validate_unseen (filter ∷ seen) filters)

unfoldable pub validate_range_filters : List RangeFilter → Result FilterError (Unit {0})
unfolding validate_unseen
validate_range_filters filters = validate_unseen [] filters
