-- ===== src/Draft18/Objects/Total.antt =====
-- The loop of decodeProperties ends, and with it decodeObjectHeader.
use moq_web.Base.{
  ℕ, zero, suc, ◌+◌, ◌-◌, ◌<◌, ◌≡◌, refl, List, [], Bool, true, false, Bool-cases, Option, some,
  Result, ok, err, Result-cases, inl, inr, ltb, arith, ◌==◌, if◌then◌else◌, ◌>>=◌,
}
use moq_web.Buffers.Reader.{BufferReader}
use moq_web.Draft18.{CodecError, violation, bounds_exceeded}
use moq_web.Draft18.Reader.{read_int, read_var_int_number}
use moq_web.Draft18.Pairs.{Pairs, read_pair}
use moq_web.Draft18.Pairs.Total.{read_pair-HasMoved}
use moq_web.Draft18.Objects.{
  max_properties_length, read_properties, decode_properties, read_sized_properties,
  read_object_properties, decode_object_header,
}

-- A run that comes to an end.
abbrev pub Ends : {A : Type 0} → Option (Result CodecError A) → Type 0
Ends {A} run = (result : Result CodecError A) × (run ≡ some result)

pub read_properties-Ends :
    (fuel end_offset previous : ℕ) (pairs : Pairs) (r : BufferReader)
    → end_offset - r.position < fuel
    → Ends (read_properties fuel end_offset previous pairs r)
unfolding read_properties
read_properties-Ends zero end_offset previous pairs r h = absurd (omega arith)
read_properties-Ends (suc fuel) end_offset previous pairs r h =
    elim (Bool-cases (ltb r.position end_offset)) [
      | inr met ↦ (
        if r.position == end_offset then ok (pairs, r) else err violation,
        rw (read_properties, met) refl,
      )
      | inl more ↦ elim (Result-cases (read_pair previous pairs r)) [
        | inr (x, e) ↦ (err x, rw (read_properties, more, e) refl)
        | inl ((key, (pairs', r')), e) ↦
            (let (same, far) = read_pair-HasMoved previous pairs pairs' r r' key e in
              let (result, ends) =
                read_properties-Ends fuel end_offset key pairs' r' (ground arith) in
              (result, rw (read_properties, more, e) ends))
      ]
    ]

read_sized_properties-Ends : (n : ℕ) (r : BufferReader) → Ends (read_sized_properties n r)
unfolding read_sized_properties decode_properties
read_sized_properties-Ends zero r = (_, refl)
read_sized_properties-Ends (suc n) r =
    let end_offset = r.position + suc n in
    let (result, ends) =
      read_properties-Ends (suc (end_offset - r.position)) end_offset 0 [] r (omega arith) in
    elim (Result-cases result) [
      | inl ((properties, r'), e) ↦
          (ok (some properties, r'), rw (read_sized_properties, ends, e) refl)
      | inr (x, e) ↦ (err x, rw (read_sized_properties, ends, e) refl)
    ]

read_object_properties-Ends : (has : Bool) (r : BufferReader) → Ends (read_object_properties has r)
unfolding read_object_properties
read_object_properties-Ends false r = (_, refl)
read_object_properties-Ends true r = elim (Result-cases (read_var_int_number r)) [
  | inr (x, e) ↦ (err x, rw (read_object_properties, e) refl)
  | inl ((n, r'), e) ↦ elim (Bool-cases (ltb max_properties_length n)) [
    | inl long ↦ (err bounds_exceeded, rw (read_object_properties, e, long) refl)
    | inr short ↦
        (let (result, ends) = read_sized_properties-Ends n r' in
          (result, rw (read_object_properties, e, short) ends))
  ]
]

-- decodeObjectHeader comes to an end on every buffer, at every offset: the rounds for which its loop
-- over the properties has fuel are enough.
pub decode_object_header-Ends :
    (buffer : List ℕ) (offset : ℕ) (has : Bool) → Ends (decode_object_header buffer offset has)
unfolding decode_object_header
decode_object_header-Ends buffer offset has =
    elim (Result-cases (read_int (record { buffer = buffer; position = offset }))) [
      | inr (x, e) ↦ (err x, rw (decode_object_header, e) refl)
      | inl ((delta, r), e) ↦
          (let (result, ends) = read_object_properties-Ends has r in
            elim (Result-cases result) [
              | inr (x, e') ↦ (err x, rw (decode_object_header, e, ends, e') refl)
              | inl ((properties, r'), e') ↦ (
                (do
                  (payload, r'') ← read_int r'
                  ok (
                    record {
                      object_id_delta = delta;
                      object_properties = properties;
                      payload_length = payload;
                    },
                    r''.position - offset,
                  )),
                rw (decode_object_header, e, ends, e') refl,
              )
            ])
    ]
