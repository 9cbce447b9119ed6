-- ===== src/Draft18/RangeFilter/Ends.antt =====
-- decodeRangeFilter comes to an end.
use moq_web.Base.{
  ℕ, zero, suc, ◌+◌, ◌-◌, ◌<◌, ◌≡◌, refl, sym, ap, ◌∙◌, List, [], ◌∷◌, ◌++◌, length, Bool, true,
  false, Bool-cases, Option, none, some, Result-cases, ok, err, >>=-eq-ok, ok-injective, inl, inr,
  arith,
}
use moq_web.Base.Int.{ℤ, pos}
use moq_web.Buffers.Reader.{BufferReader}
use moq_web.Draft18.Reader.{read_var_int, has_more, read_byte, read_int}
use moq_web.Draft18.Objects.Total.{Ends}
use moq_web.Draft18.Pairs.Total.{read_var_int-HasMoved}
use moq_web.Draft18.RangeFilter.{
  FilterType, Range, has_property_type, read_property_type, read_filter_head, read_ranges,
  decode_range_filter,
}

read_ranges-Ends :
    (fuel previous_end : ℕ) (ranges : List Range) (r : BufferReader)
    → length r.buffer - r.position < fuel
    → Ends (read_ranges fuel previous_end ranges r)
unfolding read_ranges has_more
read_ranges-Ends zero previous_end ranges r h = absurd (omega arith)
read_ranges-Ends (suc fuel) previous_end ranges r h = elim (Bool-cases (has_more r)) [
  | inr met ↦ (ok ranges, rw (read_ranges, met) refl)
  | inl more ↦ elim (Result-cases (read_var_int r)) [
    | inr (x, e) ↦ (err x, rw (read_ranges, more, e) refl)
    | inl ((delta, r'), e) ↦ elim (Bool-cases (has_more r')) [
      | inr met ↦ (
        ok (ranges ++ record { start = pos (previous_end + delta); end = none } ∷ []),
        rw (read_ranges, more, e, met) refl,
      )
      | inl more' ↦ elim (Result-cases (read_var_int r')) [
        | inr (x, e') ↦ (err x, rw (read_ranges, more, e, more', e') refl)
        | inl ((size, r''), e') ↦
            (let (same, far) = read_var_int-HasMoved r r' delta e in
              let (same', far') = read_var_int-HasMoved r' r'' size e' in
              let start = previous_end + delta in
              let (result, ends) =
                read_ranges-Ends fuel (start + size)
                  (ranges ++ record { start = pos start; end = some (pos (start + size)) } ∷ []) r''
                  (ground (arith, ap length same, ap length same')) in
              (result, rw (read_ranges, more, e, more', e') ends))
      ]
    ]
  ]
]

-- The reads of the head of a filter leave the bytes as they are.
property_buffer :
    (has : Bool) (property : Option ℤ) (r r' : BufferReader)
    → read_property_type has r ≡ ok (property, r')
    → r'.buffer ≡ r.buffer
unfolding read_property_type read_int
property_buffer false property r r' e = ground arith
property_buffer true property r r' e = elim (Bool-cases (has_more r)) [
  | inr met ↦ absurd (let e' = rw (read_property_type, met) at e in ground arith)
  | inl more ↦
      (let ((z, s), got, done) = >>=-eq-ok (read_int r) _ (rw more at e) in
        let ((v, t), read, done') = >>=-eq-ok (read_var_int r) _ got in
        let (same, far) = read_var_int-HasMoved r t v read in
        let last : t ≡ s = λ i. (ok-injective done' i).1 in
        let last' : s ≡ r' = λ i. (ok-injective done i).1 in
        ap (λ (u : BufferReader). u.buffer) (sym last' ∙ sym last) ∙ same)
]

byte_buffer : (b : ℕ) (r r' : BufferReader) → read_byte r ≡ ok (b, r') → r'.buffer ≡ r.buffer
unfolding read_byte
byte_buffer b r r' e = ground arith

head_buffer :
    (type : FilterType) (value : List ℕ) (id : ℕ) (property : Option ℤ) (r : BufferReader)
    → read_filter_head type (record { buffer = value; position = 0 }) ≡ ok (id, property, r)
    → r.buffer ≡ value
unfolding read_filter_head
head_buffer type value id property r e =
    let ((b, r1), first, later) =
      >>=-eq-ok (read_byte (record { buffer = value; position = 0 })) _ e in
    let ((p, r2), second, done) =
      >>=-eq-ok (read_property_type (has_property_type type) r1) _ later in
    let last : r2 ≡ r = λ i. (ok-injective done i).2 in
    ap (λ (u : BufferReader). u.buffer) (sym last)
    ∙ property_buffer (has_property_type type) p r1 r2 second
    ∙ byte_buffer b (record { buffer = value; position = 0 }) r1 first

pub decode_range_filter-Ends :
    (type : FilterType) (value : List ℕ) → Ends (decode_range_filter type value)
unfolding decode_range_filter
decode_range_filter-Ends type [] =
    (ok (record { type = type; set_id = none; property_type = none; ranges = [] }), refl)
decode_range_filter-Ends type (b ∷ bytes) =
    let value = b ∷ bytes in
    elim (Result-cases (read_filter_head type (record { buffer = value; position = 0 }))) [
      | inr (x, e) ↦ (err x, rw (decode_range_filter, e) refl)
      | inl ((id, property, r), e) ↦
          (let (result, ends) =
              read_ranges-Ends (suc (length value)) 0 [] r
                (omega (arith, ap length (head_buffer type value id property r e))) in
            elim (Result-cases result) [
              | inr (x, e') ↦ (err x, rw (decode_range_filter, e, ends, e') refl)
              | inl (ranges, e') ↦ (
                ok (record {
                  type = type;
                  set_id = some id;
                  property_type = property;
                  ranges = ranges;
                }),
                rw (decode_range_filter, e, ends, e') refl,
              )
            ])
    ]
