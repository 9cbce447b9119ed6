-- ===== src/Draft18/RangeFilter/Total.antt =====
-- Filters that pass the validation are encoded.
use moq_web.Base.{
  ℕ, ◌-◌, ◌≤◌, ◌≡◌, refl, ◌∙◌, inl, inr, List, [], ◌∷◌, ◌++◌, All, >>=-eq-ok, bit_and, false,
  Bool-cases, Option, none, some, ok, Result-cases, arith,
}
use moq_web.Base.Int.{ℤ, pos, negsuc}
use moq_web.Varint.Moqt.{encode, encoded_length, encode_with, encode_bytes}
use moq_web.Draft18.Writer.{Field, var_int_field, byte_field}
use moq_web.Draft18.Fields.{field_bytes, fields_bytes, fields_to_bytes_lem}
use moq_web.Draft18.Subgroup.{optional_var_int, or_else}
use moq_web.Draft18.RangeFilter.{
  Range, RangeFilter, was_seen, validate_unseen, moqt_varint_max, is_removal, validate_range_filter,
  range_fields, filter_fields, encode_range_filter, decode_range_filter,
}
use moq_web.Draft18.RangeFilter.Laws.{IsRanges, minus_pos}
use moq_web.Draft18.RangeFilter.RoundTrip.{
  validate_range_filter-IsValid, decode_range_filter-encode,
}

-- Calls that put out some bytes.
abbrev Writes : List Field → Type 0
Writes fs = (bytes : List ℕ) × (fields_bytes fs ≡ ok bytes)

encoded_length-ok : (v : ℕ) → v ≤ moqt_varint_max → (n : ℕ) × (encoded_length (pos v) ≡ ok n)
unfolding encoded_length
encoded_length-ok v h = elim (Result-cases (encoded_length (pos v))) [
  | inl (n, e) ↦ (n, e)
  | inr (x, e) ↦ absurd (ground arith)
]

Writes-var_int :
    (v : ℕ) (fs : List Field)
    → v ≤ moqt_varint_max
    → Writes fs
    → Writes (var_int_field (pos v) ∷ fs)
unfolding fields_bytes field_bytes encode encode_with
Writes-var_int v fs h (bytes, e) =
    let (n, told) = encoded_length-ok v h in (encode_bytes n v ++ bytes, rw (told, e) refl)

Writes-byte : (v : ℕ) (fs : List Field) → Writes fs → Writes (byte_field v ∷ fs)
unfolding fields_bytes field_bytes
Writes-byte v fs (bytes, e) = (bit_and v 0xff ∷ bytes, rw e refl)

Writes-ranges :
    (p m : ℕ) (ranges : List Range)
    → m ≤ moqt_varint_max
    → IsRanges p m ranges
    → Writes (range_fields (pos p) ranges)
unfolding range_fields fields_bytes
Writes-ranges p m [] h valid = ([], refl)
Writes-ranges p m (range ∷ ranges) h (s, start_e, low, high, end_e) = elim end_e [
  | inl (none_e, last) ↦
      rw (none_e, start_e, minus_pos s p low) (Writes-var_int (s - p) [] (omega arith) ([], refl))
  | inr (e, some_e, over, under, valid) ↦
      rw (some_e, start_e, minus_pos s p low, minus_pos e s over)
        (Writes-var_int (s - p) (var_int_field (pos (e - s)) ∷ range_fields (pos e) ranges)
          (omega arith)
          (Writes-var_int (e - s) (range_fields (pos e) ranges) (omega arith)
            (Writes-ranges e m ranges h valid)))
]

-- A property type that is a number up to the largest.
abbrev pub IsPropertyType : Option ℤ → Type 0
IsPropertyType none = Unit
IsPropertyType (some (pos v)) = v ≤ moqt_varint_max
IsPropertyType (some (negsuc v)) = ⊥

Writes-property_type :
    (property : Option ℤ) (fs : List Field)
    → IsPropertyType property
    → Writes fs
    → Writes (optional_var_int property ++ fs)
Writes-property_type none fs h w = w
Writes-property_type (some (pos v)) fs h w = Writes-var_int v fs h w
Writes-property_type (some (negsuc v)) fs h w = absurd h

encoded :
    (filter : RangeFilter)
    → IsPropertyType filter.property_type
    → validate_range_filter filter ≡ ok tt
    → (bytes : List ℕ) × (encode_range_filter filter ≡ ok bytes)
unfolding encode_range_filter filter_fields
encoded filter property valid = elim (Bool-cases (is_removal filter)) [
  | inl removal ↦ ([], rw (encode_range_filter, removal) refl)
  | inr other ↦
      (let h = validate_range_filter-IsValid filter other valid in
        let ranges = range_fields (pos 0) filter.ranges in
        let (bytes, e) =
          Writes-byte (or_else filter.set_id 0) (optional_var_int filter.property_type ++ ranges) (
            Writes-property_type filter.property_type ranges property
              (Writes-ranges 0 h.max filter.ranges h.max_small h.ranges_valid)) in
        (bytes, rw (encode_range_filter, other) (fields_to_bytes_lem (filter_fields filter) ∙ e)))
]

-- A filter that passes validateRangeFilter, and whose property type, if it has one, is not negative and at
-- most 2^64 - 1, is encoded by encodeRangeFilter, and decodeRangeFilter comes to an end on the bytes and
-- gives the filter.
pub valid_filter-decoded :
    (filter : RangeFilter)
    → IsPropertyType filter.property_type
    → validate_range_filter filter ≡ ok tt
    → (bytes : List ℕ) × (encode_range_filter filter ≡ ok bytes)
      × (decode_range_filter filter.type bytes ≡ some (ok filter))
valid_filter-decoded filter property valid =
    let (bytes, e) = encoded filter property valid in
    (bytes, e, decode_range_filter-encode filter bytes valid e)

-- Filters whose keys differ from those seen and from each other.
abbrev pub IsUnseen : List RangeFilter → List RangeFilter → Type 0
IsUnseen seen [] = Unit
IsUnseen seen (filter ∷ filters) = (was_seen filter seen ≡ false) × IsUnseen (filter ∷ seen) filters

-- Filters that pass validateRangeFilters have keys that differ from those seen before, and each passes
-- validateRangeFilter.
pub validate_unseen-each :
    (seen filters : List RangeFilter)
    → validate_unseen seen filters ≡ ok tt
    → IsUnseen seen filters × All (λ (f : RangeFilter). validate_range_filter f ≡ ok tt) filters
unfolding validate_unseen
validate_unseen-each seen [] h = (tt, tt)
validate_unseen-each seen (filter ∷ filters) h = elim (Bool-cases (was_seen filter seen)) [
  | inl there ↦ absurd (let h' = rw (validate_unseen, there) at h in ground arith)
  | inr fresh ↦
      (let h' = rw (validate_unseen, fresh) at h in
        let (u, valid, later) = >>=-eq-ok (validate_range_filter filter) _ h' in
        let (unseen, each) = validate_unseen-each (filter ∷ seen) filters later in
        ((fresh, unseen), (valid, each)))
]
