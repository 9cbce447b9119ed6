-- ===== src/Draft18/RangeFilter/RoundTrip.antt =====
-- decodeRangeFilter on what encodeRangeFilter writes of a filter that passes the validation.
use moq_web.Base.{
  ℕ, suc, ◌≤◌, ◌<◌, ◌≡◌, refl, sym, ap, inl, inr, List, [], ◌∷◌, ◌++◌, length, Bool, true, false,
  not, Bool-cases, Option, none, some, Option-cases, ok, >>=-eq-ok, ok-injective, ltb,
  if◌then◌else◌, arith,
}
use mathlib.Core.List.{append-nil}
use moq_web.Base.Int.{ℤ, pos}
use moq_web.Buffers.Reader.{BufferReader}
use moq_web.Buffers.ReadBack.{at}
use moq_web.Draft18.Writer.{Field, fields_to_bytes}
use moq_web.Draft18.Reader.{read_byte}
use moq_web.Draft18.Cursor.{Stands, Takes, start, take_int, take_byte}
use moq_web.Draft18.Subgroup.{is_undefined, optional_var_int}
use moq_web.Draft18.RangeFilter.{
  Range, RangeFilter, moqt_varint_max, priority_max, is_empty, is_priority, has_property_type,
  is_removal, validate_property_type, validate_range_filter, range_fields, filter_fields,
  encode_range_filter, read_property_type, read_filter_head, decode_range_filter,
}
use moq_web.Draft18.RangeFilter.Laws.{IsRanges, validate_ranges-IsRanges, more, take_ranges}

-- What the validation tells of a filter that is no removal.
pub record IsValid (filter : RangeFilter) : Type 0 where
  pub id : ℕ
  pub id_given : filter.set_id ≡ some id
  pub id_small : id < 256
  pub property_given : has_property_type filter.type ≡ not (is_undefined filter.property_type)
  pub max : ℕ
  pub max_small : max ≤ moqt_varint_max
  pub ranges_valid : IsRanges 0 max filter.ranges

validate_property_type-given :
    (filter : RangeFilter)
    → validate_property_type filter ≡ ok tt
    → has_property_type filter.type ≡ not (is_undefined filter.property_type)
unfolding validate_property_type
validate_property_type-given filter h = elim (Bool-cases (has_property_type filter.type)) [
  | inl has ↦ elim (Option-cases filter.property_type) [
    | inl e ↦ absurd (let h' = rw (validate_property_type, has, e) at h in ground arith)
    | inr (z, e) ↦ rw (has, e) refl
  ]
  | inr has_not ↦ elim (Option-cases filter.property_type) [
    | inl e ↦ rw (has_not, e) refl
    | inr (z, e) ↦ absurd (let h' = rw (validate_property_type, has_not, e) at h in ground arith)
  ]
]

pub validate_range_filter-IsValid :
    (filter : RangeFilter)
    → is_removal filter ≡ false
    → validate_range_filter filter ≡ ok tt
    → IsValid filter
unfolding validate_range_filter
validate_range_filter-IsValid filter other h = elim (Option-cases filter.set_id) [
  | inl e ↦ absurd (let h' = rw (validate_range_filter, other, e) at h in ground arith)
  | inr (id, e) ↦ elim (Bool-cases (ltb 255 id)) [
    | inl large ↦ absurd (let h' = rw (validate_range_filter, other, e, large) at h in ground arith)
    | inr small ↦
        (let h' = rw (validate_range_filter, other, e, small) at h in
          let (u, property, rest) = >>=-eq-ok (validate_property_type filter) _ h' in
          elim (Bool-cases (is_empty filter.ranges)) [
            | inl empty ↦ absurd (let rest' = rw empty at rest in ground arith)
            | inr given ↦ record {
              id = id;
              id_given = e;
              id_small = ground arith;
              property_given = validate_property_type-given filter property;
              max = if is_priority filter.type then priority_max else moqt_varint_max;
              max_small = ground arith;
              ranges_valid = validate_ranges-IsRanges 0 _ filter.ranges (rw given at rest);
            }
          ])
  ]
]

module _ {buffer : List ℕ} where
  take_property_type :
      (has : Bool) (property : Option ℤ) (fs : List Field) (r : BufferReader)
      → has ≡ not (is_undefined property)
      → Stands buffer [] (optional_var_int property ++ fs) r
      → Takes buffer [] fs property (read_property_type has r)
  unfolding read_property_type
  take_property_type false none fs r given stands = (r, refl, stands)
  take_property_type true none fs r given stands = absurd (ground arith)
  take_property_type false (some z) fs r given stands = absurd (ground arith)
  take_property_type true (some z) fs r given stands =
      let (r', read, rest) = take_int z fs r stands in
      let (has_it, moves) = more z fs r stands in
      (r', rw (read_property_type, has_it, read) refl, rest)

none_of : (ranges : List Range) → is_empty ranges ≡ true → [] ≡ ranges
none_of [] h = refl
none_of (range ∷ ranges) h = absurd (ground arith)

removal_eq :
    (filter : RangeFilter)
    → is_removal filter ≡ true
    → ◌≡◌ {A = RangeFilter}
        (record { type = filter.type; set_id = none; property_type = none; ranges = [] })
        filter
unfolding is_removal
removal_eq filter h = elim (Option-cases filter.set_id) [
  | inr (id, e) ↦ absurd (let h' = rw (is_removal, e) at h in ground arith)
  | inl none_id ↦ elim (Option-cases filter.property_type) [
    | inr (z, e) ↦ absurd (let h' = rw (is_removal, none_id, e) at h in ground arith)
    | inl none_property ↦
        (let no_ranges : [] ≡ filter.ranges =
            none_of filter.ranges (rw (is_removal, none_id, none_property) at h) in
          λ i. record {
            type = filter.type;
            set_id = sym none_id i;
            property_type = sym none_property i;
            ranges = no_ranges i;
          })
  ]
]

not_empty :
    (bytes : List ℕ) (b : ℕ) (r : BufferReader)
    → read_byte (record { buffer = bytes; position = 0 }) ≡ ok (b, r)
    → is_empty bytes ≡ false
unfolding read_byte
not_empty [] b r h = absurd (ground arith)
not_empty (x ∷ bytes) b r h = refl

decode_fields :
    (filter : RangeFilter) (bytes : List ℕ)
    → IsValid filter
    → fields_to_bytes (filter_fields filter) ≡ ok bytes
    → decode_range_filter filter.type (bytes ++ []) ≡ some (ok filter)
unfolding filter_fields decode_range_filter read_filter_head
decode_fields filter bytes h wrote =
    let (r1, read1, rest1) =
      take_byte h.id (optional_var_int filter.property_type ++ range_fields (pos 0) filter.ranges)
        (at [] bytes []) h.id_small
        (rw h.id_given at (start (filter_fields filter) [] bytes [] wrote)) in
    let (r2, read2, rest2) =
      take_property_type (has_property_type filter.type) filter.property_type
        (range_fields (pos 0) filter.ranges) r1 h.property_given rest1 in
    let read3 =
      take_ranges (suc (length (bytes ++ []))) 0 h.max filter.ranges [] r2 (omega arith)
        h.ranges_valid rest2 in
    let some_byte : is_empty (bytes ++ []) ≡ false = not_empty (bytes ++ []) h.id r1 read1 in
    rw (decode_range_filter, some_byte, read1, read2, read3)
      (ap (λ (t : RangeFilter). some (ok t))
        (λ i. record {
          type = filter.type;
          set_id = sym h.id_given i;
          property_type = filter.property_type;
          ranges = filter.ranges;
        }))

-- When a filter passes validateRangeFilter and encodeRangeFilter writes it, decodeRangeFilter comes to an
-- end on the bytes and gives the filter.
pub decode_range_filter-encode :
    (filter : RangeFilter) (bytes : List ℕ)
    → validate_range_filter filter ≡ ok tt
    → encode_range_filter filter ≡ ok bytes
    → decode_range_filter filter.type bytes ≡ some (ok filter)
unfolding encode_range_filter decode_range_filter
decode_range_filter-encode filter bytes valid e = elim (Bool-cases (is_removal filter)) [
  | inr other ↦ rw (append-nil bytes) at (
      decode_fields filter bytes (validate_range_filter-IsValid filter other valid) (rw other at e))
  | inl removal ↦
      (let none_written : [] ≡ bytes = ok-injective (rw removal at e) in
        rw (← none_written) (ap (λ (t : RangeFilter). some (ok t)) (removal_eq filter removal)))
]
