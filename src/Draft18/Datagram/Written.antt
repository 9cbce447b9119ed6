-- ===== src/Draft18/Datagram/Written.antt =====
-- What encodeObjectDatagram puts out.
use moq_web.Base.{
  ℕ, ◌==◌, ◌≡◌, ◌∙◌, List, [], ◌++◌, length, Bool, true, false, ◌&&◌, Bool-cases, Option, ok,
  >>=-eq-ok, inl, inr, arith, ◌>>=◌,
}
use moq_web.Base.Int.{pos}
use moq_web.Buffers.Writer.{BufferWriter, new, to_uint8_array}
use moq_web.Draft18.Writer.{Field, write_fields, write_field, write_var_int, fields_to_bytes}
use moq_web.Draft18.Fields.{write_fields-append, fields_to_bytes-written}
use moq_web.Draft18.Pairs.{Pairs}
use moq_web.Draft18.Objects.{properties_bytes}
use moq_web.Draft18.Objects.Properties.{properties_fields}
use moq_web.Draft18.Subgroup.{is_true}
use moq_web.Draft18.Datagram.{
  ObjectDatagram, has_some, is_status, is_abnormal, first_fields, last_fields,
  write_some_properties, encode_object_datagram,
}

-- The calls that write a datagram.
unfoldable pub all_fields : List ℕ → ObjectDatagram → List Field
all_fields inner datagram =
    first_fields datagram
    ++ (properties_fields (has_some datagram.object_properties) inner
        ++ last_fields datagram.object_status datagram.payload)

write_some_properties-fields :
    (has : Bool) (properties : Option Pairs) (w w' : BufferWriter)
    → write_some_properties has properties w ≡ ok w'
    → (inner : List ℕ) × (has ≡ true → properties_bytes properties ≡ ok inner)
      × (has ≡ true → (length inner == 0) ≡ false)
      × (write_fields (properties_fields has inner) w ≡ ok w')
unfolding write_some_properties write_fields write_field
write_some_properties-fields false properties w w' e =
    ([], λ no. absurd (ground arith), λ no. absurd (ground arith), e)
write_some_properties-fields true properties w w' e =
    let (inner, put, later) = >>=-eq-ok (properties_bytes properties) _ e in
    elim (Bool-cases (length inner == 0)) [
      | inl empty ↦ absurd (ground arith)
      | inr some_byte ↦
          (let (w1, size, done) =
              >>=-eq-ok (write_var_int (pos (length inner)) w) _ (rw some_byte at later) in
            (inner, λ yes. put, λ yes. some_byte, rw size done))
    ]

-- What encodeObjectDatagram accepts.
pub accepted :
    (datagram : ObjectDatagram) (bytes : List ℕ)
    → encode_object_datagram datagram ≡ ok bytes
    → ((is_status datagram && is_true datagram.end_of_group) ≡ false)
      × (is_abnormal (has_some datagram.object_properties) datagram.object_status ≡ false)
      × ((do
        w ← write_fields (first_fields datagram) new
        w' ←
            write_some_properties (has_some datagram.object_properties) datagram.object_properties w
        w'' ← write_fields (last_fields datagram.object_status datagram.payload) w'
        ok (to_uint8_array w''))
          ≡ ok bytes)
unfolding encode_object_datagram
accepted datagram bytes e = ground arith

pub encode_object_datagram-fields :
    (datagram : ObjectDatagram) (bytes : List ℕ)
    → encode_object_datagram datagram ≡ ok bytes
    → (inner : List ℕ) × (has_some datagram.object_properties ≡ true
        → properties_bytes datagram.object_properties ≡ ok inner)
      × (has_some datagram.object_properties ≡ true → (length inner == 0) ≡ false)
      × (fields_to_bytes (all_fields inner datagram) ≡ ok bytes)
unfolding all_fields
encode_object_datagram-fields datagram bytes e =
    let (once, normal, wrote) = accepted datagram bytes e in
    let (w1, first, later) = >>=-eq-ok (write_fields (first_fields datagram) new) _ wrote in
    let (w2, middle, later') =
      >>=-eq-ok
        (write_some_properties (has_some datagram.object_properties) datagram.object_properties w1)
        _ later in
    let (w3, last, done) =
      >>=-eq-ok (write_fields (last_fields datagram.object_status datagram.payload) w2) _ later' in
    let (inner, put, some_byte, props) =
      write_some_properties-fields (has_some datagram.object_properties) datagram.object_properties
        w1 w2 middle in
    (
      inner,
      put,
      some_byte,
      fields_to_bytes-written (all_fields inner datagram) w3 (
            write_fields-append (first_fields datagram) _ new w1 w3 first (
              write_fields-append (properties_fields (has_some datagram.object_properties) inner) _
                w1 w2 w3 props last))
          ∙ done,
    )
