-- ===== src/Draft18/Objects/Limited.antt =====
-- Properties behind their length, as object datagrams and fetch objects have them: written where there
-- are any, and read up to 2^20 bytes.
use moq_web.Base.{
  ℕ, ◌+◌, ◌≤◌, ◌≡◌, refl, List, [], ◌∷◌, length, Bool, true, false, Option, some, ok, err,
  >>=-eq-ok, Result-cases, Bool-cases, inl, inr, ltb, arith, All, suc, ◌-◌,
}
use moq_web.Base.Int.{pos}
use moq_web.Buffers.Reader.{BufferReader}
use moq_web.Buffers.Writer.{BufferWriter}
use moq_web.Draft18.{bounds_exceeded}
use moq_web.Draft18.Writer.{
  Field, bytes_field, write_var_int, write_fields, write_field, fields_to_bytes,
}
use moq_web.Draft18.Cursor.{Stands}
use moq_web.Draft18.Pairs.{Pairs, sort_pairs}
use moq_web.Draft18.Pairs.Sorted.{IsMap}
use moq_web.Draft18.Pairs.RoundTrip.{IsPair}
use moq_web.Draft18.Objects.{
  max_properties_length, encode_properties, properties_bytes, write_properties,
  read_limited_properties, decode_properties,
}
use moq_web.Draft18.Objects.Properties.{properties_fields, take_sized}
use moq_web.Draft18.Objects.Total.{Ends, read_properties-Ends}

pub write_properties-fields :
    (has : Bool) (properties : Option Pairs) (w w' : BufferWriter)
    → write_properties has properties w ≡ ok w'
    → (inner : List ℕ) × (has ≡ true → properties_bytes properties ≡ ok inner)
      × (write_fields (properties_fields has inner) w ≡ ok w')
unfolding write_properties write_fields write_field
write_properties-fields false properties w w' e = ([], λ no. absurd (ground arith), e)
write_properties-fields true properties w w' e =
    let (inner, put, later) = >>=-eq-ok (properties_bytes properties) _ e in
    let (w1, size, done) = >>=-eq-ok (write_var_int (pos (length inner)) w) _ later in
    (inner, λ yes. put, rw size done)

module _ {buffer back : List ℕ} where
  pub take_limited :
      (properties : Pairs) (inner : List ℕ) (fs : List Field) (r : BufferReader)
      → IsMap properties
      → All IsPair properties
      → fields_to_bytes (encode_properties properties) ≡ ok inner
      → length inner ≤ max_properties_length
      → Stands buffer back (bytes_field inner ∷ fs) r
      → (r' : BufferReader) × (read_limited_properties (length inner) r
          ≡ some (ok (some (sort_pairs properties), r')))
        × Stands buffer back fs r'
  unfolding read_limited_properties
  take_limited properties inner fs r once each wrote short stands =
      let inside : ltb max_properties_length (length inner) ≡ false = ground arith in
      let (r', read, rest) = take_sized properties inner fs r once each wrote stands in
      (r', rw (read_limited_properties, inside, read) refl, rest)

pub read_limited_properties-Ends : (n : ℕ) (r : BufferReader) → Ends (read_limited_properties n r)
unfolding read_limited_properties decode_properties
read_limited_properties-Ends n r = elim (Bool-cases (ltb max_properties_length n)) [
  | inl long ↦ (err bounds_exceeded, rw (read_limited_properties, long) refl)
  | inr short ↦
      (let (result, ends) =
          read_properties-Ends (suc (r.position + n - r.position)) (r.position + n) 0 [] r
            (omega arith) in
        elim (Result-cases result) [
          | inl ((properties, r'), e) ↦
              (ok (some properties, r'), rw (read_limited_properties, short, ends, e) refl)
          | inr (x, e) ↦ (err x, rw (read_limited_properties, short, ends, e) refl)
        ])
]
