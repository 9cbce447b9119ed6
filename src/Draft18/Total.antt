-- ===== src/Draft18/Total.antt =====
-- The decoders of objects on streams and in datagrams come to an end.
use moq_web.Base.{
  ℕ, ◌==◌, refl, List, Bool, true, false, Bool-cases, ok, err, Result-cases, inl, inr, leb, length,
  ◌-◌,
}
use moq_web.Buffers.Reader.{BufferReader}
use moq_web.Draft18.{violation}
use moq_web.Draft18.Reader.{read_var_int_number}
use moq_web.Draft18.Objects.{decode_object_header}
use moq_web.Draft18.Objects.Total.{Ends, decode_object_header-Ends}
use moq_web.Draft18.Objects.Limited.{read_limited_properties-Ends}
use moq_web.Draft18.Subgroup.{has_flag}
use moq_web.Draft18.Datagram
use moq_web.Draft18.Datagram.{read_start, read_datagram_properties, decode_object_datagram}
use moq_web.Draft18.FetchObject
use moq_web.Draft18.FetchObject.{
  is_end_of_range, read_head, read_fetch_properties, read_end_of_range, read_object, read_by_flags,
  decode_fetch_object,
}
use moq_web.Draft18.RangeFilter.{FilterType, decode_range_filter}
use moq_web.Draft18.RangeFilter.Ends.{decode_range_filter-Ends}

read_datagram_properties-Ends :
    (has : Bool) (r : BufferReader) → Ends (read_datagram_properties has r)
unfolding read_datagram_properties
read_datagram_properties-Ends false r = (_, refl)
read_datagram_properties-Ends true r = elim (Result-cases (read_var_int_number r)) [
  | inr (x, e) ↦ (err x, rw (read_datagram_properties, e) refl)
  | inl ((n, r'), e) ↦ elim (Bool-cases (n == 0)) [
    | inl empty ↦ (err violation, rw (read_datagram_properties, e, empty) refl)
    | inr sized ↦
        (let (result, ends) = read_limited_properties-Ends n r' in
          (result, rw (read_datagram_properties, e, sized) ends))
  ]
]

decode_object_datagram-Ends :
    (buffer : List ℕ) (offset : ℕ) → Ends (decode_object_datagram buffer offset)
unfolding decode_object_datagram
decode_object_datagram-Ends buffer offset =
    elim (Result-cases (read_start (record { buffer = buffer; position = offset }))) [
      | inr (x, e) ↦ (err x, rw (decode_object_datagram, e) refl)
      | inl ((type, head, r), e) ↦
          (let (result, ends) =
              read_datagram_properties-Ends (has_flag type Datagram.properties_flag) r in
            elim (Result-cases result) [
              | inr (x, e') ↦ (err x, rw (decode_object_datagram, e, ends, e') refl)
              | inl ((properties, r'), e') ↦ (
                Datagram.finish (length buffer - offset) type head properties r',
                rw (decode_object_datagram, e, ends, e') refl,
              )
            ])
    ]

read_fetch_properties-Ends : (has : Bool) (r : BufferReader) → Ends (read_fetch_properties has r)
unfolding read_fetch_properties
read_fetch_properties-Ends false r = (_, refl)
read_fetch_properties-Ends true r = elim (Result-cases (read_var_int_number r)) [
  | inr (x, e) ↦ (err x, rw (read_fetch_properties, e) refl)
  | inl ((n, r'), e) ↦
      (let (result, ends) = read_limited_properties-Ends n r' in
        (result, rw (read_fetch_properties, e) ends))
]

read_object-Ends : (flags : ℕ) (r : BufferReader) → Ends (read_object flags r)
unfolding read_object
read_object-Ends flags r = elim (Result-cases (read_head flags r)) [
  | inr (x, e) ↦ (err x, rw (read_object, e) refl)
  | inl ((head, r'), e) ↦
      (let (result, ends) =
          read_fetch_properties-Ends (has_flag flags FetchObject.properties_flag) r' in
        elim (Result-cases result) [
          | inr (x, e') ↦ (err x, rw (read_object, e, ends, e') refl)
          | inl ((properties, r''), e') ↦
              (FetchObject.finish flags head properties r'', rw (read_object, e, ends, e') refl)
        ])
]

read_by_flags-Ends : (flags : ℕ) (r : BufferReader) → Ends (read_by_flags flags r)
unfolding read_by_flags
read_by_flags-Ends flags r = elim (Bool-cases (is_end_of_range flags)) [
  | inl mark ↦ (read_end_of_range flags r, rw (read_by_flags, mark) refl)
  | inr other ↦ elim (Bool-cases (leb 128 flags)) [
    | inl high ↦ (err violation, rw (read_by_flags, other, high) refl)
    | inr low ↦
        (let (result, ends) = read_object-Ends flags r in
          (result, rw (read_by_flags, other, low) ends))
  ]
]

decode_fetch_object-Ends : (buffer : List ℕ) (offset : ℕ) → Ends (decode_fetch_object buffer offset)
unfolding decode_fetch_object
decode_fetch_object-Ends buffer offset =
    elim (Result-cases (read_var_int_number (record { buffer = buffer; position = offset }))) [
      | inr (x, e) ↦ (err x, rw (decode_fetch_object, e) refl)
      | inl ((flags, r), e) ↦
          (let (result, ends) = read_by_flags-Ends flags r in
            elim (Result-cases result) [
              | inr (x, e') ↦ (err x, rw (decode_fetch_object, e, ends, e') refl)
              | inl ((obj, r'), e') ↦
                  (ok (obj, r'.position - offset), rw (decode_fetch_object, e, ends, e') refl)
            ])
    ]

-- decodeObjectHeader, decodeObjectDatagram, decodeFetchObject and decodeRangeFilter come to an end on
-- every buffer, at every offset: the rounds for which their loops have fuel are enough.
pub decoders_end :
    (buffer : List ℕ) (offset : ℕ) (has : Bool) (type : FilterType)
    → Ends (decode_object_header buffer offset has)
      × Ends (decode_object_datagram buffer offset)
      × Ends (decode_fetch_object buffer offset)
      × Ends (decode_range_filter type buffer)
decoders_end buffer offset has type = (
  decode_object_header-Ends buffer offset has,
  decode_object_datagram-Ends buffer offset,
  decode_fetch_object-Ends buffer offset,
  decode_range_filter-Ends type buffer,
)
