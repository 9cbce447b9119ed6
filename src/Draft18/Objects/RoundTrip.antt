-- ===== src/Draft18/Objects/RoundTrip.antt =====
-- decodeObjectHeader on what encodeObjectHeader writes.
use moq_web.Base.{
  ℕ, ◌≤◌, ◌≡◌, refl, List, [], ◌∷◌, ◌++◌, length, Bool, true, false, some, ok, >>=-eq-ok,
  ok-injective,
}
use moq_web.Base.Int.{pos}
use moq_web.Buffers.ReadBack.{at}
use moq_web.Buffers.Writer.{new}
use moq_web.Draft18.Writer.{
  write_var_int, Field, var_int_field, fields_to_bytes, write_fields, write_field,
}
use moq_web.Draft18.Cursor.{start, take_int, moved}
use moq_web.Draft18.Objects.{
  ObjectHeader, max_properties_length, properties_bytes, write_properties, encode_object_header,
  decode_object_header,
}
use moq_web.Draft18.Objects.Properties.{
  IsGiven, told_properties, properties_fields, take_object_properties,
}

-- The calls that write a header.
header_fields : Bool → List ℕ → ObjectHeader → List Field
header_fields has inner header =
    var_int_field header.object_id_delta
    ∷ (properties_fields has inner ++ var_int_field header.payload_length ∷ [])

encode_object_header-fields :
    (has : Bool) (header : ObjectHeader) (inner bytes : List ℕ)
    → properties_bytes header.object_properties ≡ ok inner
    → encode_object_header header has ≡ ok bytes
    → fields_to_bytes (header_fields has inner header) ≡ ok bytes
unfolding encode_object_header write_properties header_fields fields_to_bytes write_fields
    write_field
encode_object_header-fields false header inner bytes wrote e =
    let (w, first, later) = >>=-eq-ok (write_var_int header.object_id_delta new) _ e in
    let (w', last, done) = >>=-eq-ok (write_var_int header.payload_length w) _ later in
    rw (first, last) done
encode_object_header-fields true header inner bytes wrote e =
    let (w, first, later) = >>=-eq-ok (write_var_int header.object_id_delta new) _ e in
    let (w', put, later') = >>=-eq-ok (write_properties true header.object_properties w) _ later in
    let (w1, size, all) = >>=-eq-ok (write_var_int (pos (length inner)) w) _ (rw wrote at put) in
    let (w'', last, done) = >>=-eq-ok (write_var_int header.payload_length w') _ later' in
    rw (first, size, ok-injective all, last) done

-- Where the bytes that encodeObjectHeader wrote for a header, with properties or without, stand
-- anywhere in a buffer, decodeObjectHeader at that offset, told the same, comes to an end and gives the
-- number of bytes written and the header, with its properties in the ascending order of their keys, or
-- none where there are none; when the properties take at most 2^20 bytes, no key stands twice, each is
-- a safe integer, the value of each even key is a number as MOQTVarInt writes it, and that of each odd
-- key is at most 65535 bytes.
pub decode_object_header-encode :
    (has : Bool) (header : ObjectHeader) (inner front bytes back : List ℕ)
    → IsGiven header.object_properties
    → properties_bytes header.object_properties ≡ ok inner
    → length inner ≤ max_properties_length
    → encode_object_header header has ≡ ok bytes
    → decode_object_header (front ++ (bytes ++ back)) (length front) has
      ≡ some (
          ok (
            record header { object_properties = told_properties has header.object_properties },
            length bytes,
          ))
unfolding decode_object_header header_fields
decode_object_header-encode has header inner front bytes back given put short e =
    let wrote = encode_object_header-fields has header inner bytes put e in
    let stands = start (header_fields has inner header) front bytes back wrote in
    let (r1, read1, rest1) =
      take_int header.object_id_delta
        (properties_fields has inner ++ var_int_field header.payload_length ∷ [])
        (at front bytes back) stands in
    let (r2, read2, rest2) =
      take_object_properties has header.object_properties inner
        (var_int_field header.payload_length ∷ []) r1 given put short rest1 in
    let (r3, read3, rest3) = take_int header.payload_length [] r2 rest2 in
    rw (decode_object_header, read1, read2, read3, moved front bytes back r3 rest3) refl
