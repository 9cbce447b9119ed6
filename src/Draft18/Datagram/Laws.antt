-- ===== src/Draft18/Datagram/Laws.antt =====
-- decodeObjectDatagram on what encodeObjectDatagram writes.
use moq_web.Base.{
  ℕ, ◌==◌, ◌≤◌, ◌≡◌, ◌∙◌, refl, sym, List, [], ◌∷◌, ◌++◌, length, drop, Bool, true, false, not,
  Bool-cases, Option, none, some, ok, ok-injective, inl, inr, arith, ◌-◌, length-append,
  drop-append_length,
}
use mathlib.Core.List.{append-nil, append_assoc}
use moq_web.Base.Int.{ℤ, pos, negsuc}
use moq_web.Varint.{max_safe_integer}
use moq_web.Buffers.Reader.{BufferReader}
use moq_web.Buffers.ReadBack.{at}
use moq_web.Draft18.Writer.{Field, var_int_field, bytes_field}
use moq_web.Draft18.Fields.{fields_bytes, field_bytes}
use moq_web.Draft18.Cursor.{Stands, Takes, start, take_int, take_var_int_number}
use moq_web.Draft18.Pairs.{Pairs}
use moq_web.Draft18.Objects.{max_properties_length, properties_bytes}
use moq_web.Draft18.Objects.Properties.{IsGiven, told_properties, properties_fields}
use moq_web.Draft18.Objects.Limited.{take_limited}
use moq_web.Draft18.Subgroup.{
  is_true, is_undefined, true_or_undefined, or_else, optional_byte, has_flag,
}
use moq_web.Draft18.Subgroup.Laws.{IsPriority, take_priority}
use moq_web.Draft18.Datagram.{
  finish, ObjectDatagram, has_some, is_zero_id, is_status, is_abnormal, type_of, id_fields,
  first_fields, payload_fields, last_fields, encode_object_datagram, read_object_id, read_head,
  read_datagram_properties, read_body, read_type, zero_object_id_flag, default_priority_flag,
  read_start, decode_object_datagram,
}
use moq_web.Draft18.Datagram.Flags.{flags_of_type}
use moq_web.Draft18.Datagram.Written.{all_fields, accepted, encode_object_datagram-fields}

-- A status that is a safe integer, where there is one.
abbrev pub IsSafe : Option ℕ → Type 0
IsSafe none = Unit
IsSafe (some status) = status ≤ max_safe_integer

abbrev pub told_payload : Option ℕ → Option (List ℕ) → Option (List ℕ)
told_payload (some status) payload = none
told_payload none payload = some (or_else payload [])

-- The datagram with what the wire tells of it.
abbrev pub as_decoded : ObjectDatagram → ObjectDatagram
as_decoded datagram = record datagram {
  object_id = some (or_else datagram.object_id (pos 0));
  object_properties = told_properties true datagram.object_properties;
  end_of_group = true_or_undefined (is_true datagram.end_of_group);
  payload = told_payload datagram.object_status datagram.payload;
}

module _ {buffer back : List ℕ} where
  take_object_id :
      (id : Option ℤ) (fs : List Field) (r : BufferReader)
      → Stands buffer back (id_fields id ++ fs) r
      → Takes buffer back fs (or_else id (pos 0)) (read_object_id (is_zero_id id) r)
  unfolding read_object_id
  take_object_id none fs r stands = (r, refl, stands)
  take_object_id (some (negsuc v)) fs r stands = take_int (negsuc v) fs r stands
  take_object_id (some (pos v)) fs r stands = elim (Bool-cases (v == 0)) [
    | inr other ↦
        (let (r', read, rest) = take_int (pos v) fs r (rw other at stands) in
          (r', rw other read, rest))
    | inl zero_id ↦
        (let same : v ≡ 0 = ground arith in (r, rw (zero_id, same) refl, rw zero_id at stands))
  ]

  take_datagram_properties :
      (properties : Option Pairs) (inner : List ℕ) (fs : List Field) (r : BufferReader)
      → IsGiven properties
      → (has_some properties ≡ true → properties_bytes properties ≡ ok inner)
      → (has_some properties ≡ true → (length inner == 0) ≡ false)
      → ((inner : List ℕ)
          → properties_bytes properties ≡ ok inner
          → length inner ≤ max_properties_length)
      → Stands buffer back (properties_fields (has_some properties) inner ++ fs) r
      → (r' : BufferReader) × (read_datagram_properties (has_some properties) r
          ≡ some (ok (told_properties true properties, r')))
        × Stands buffer back fs r'
  unfolding read_datagram_properties properties_bytes
  take_datagram_properties none inner fs r given put some_byte short stands = (r, refl, stands)
  take_datagram_properties (some []) inner fs r given put some_byte short stands = (r, refl, stands)
  take_datagram_properties (some (p ∷ ps)) inner fs r (once, each) put some_byte short stands =
      let few = short inner (put refl) in
      let (r1, read, rest) =
        take_var_int_number (length inner) (bytes_field inner ∷ fs) r (omega arith) stands in
      let (r2, reads, ends) = take_limited (p ∷ ps) inner fs r1 once each (put refl) few rest in
      (r2, rw (read_datagram_properties, read, some_byte refl) reads, ends)

  take_head :
      (datagram : ObjectDatagram) (type : ℕ) (fs : List Field) (r : BufferReader)
      → IsPriority datagram.publisher_priority
      → has_flag type zero_object_id_flag ≡ is_zero_id datagram.object_id
      → has_flag type default_priority_flag ≡ is_undefined datagram.publisher_priority
      → Stands buffer back
          (var_int_field datagram.track_alias
            ∷ var_int_field datagram.group_id
            ∷ (id_fields datagram.object_id ++ (optional_byte datagram.publisher_priority ++ fs)))
          r
      → Takes buffer back fs
          (
            datagram.track_alias,
            datagram.group_id,
            or_else datagram.object_id (pos 0),
            datagram.publisher_priority,
          )
          (read_head type r)
  unfolding read_head
  take_head datagram type fs r priority z d stands =
      let (r1, read1, rest1) = take_int datagram.track_alias _ r stands in
      let (r2, read2, rest2) = take_int datagram.group_id _ r1 rest1 in
      let (r3, read3, rest3) = take_object_id datagram.object_id _ r2 rest2 in
      let (r4, read4, rest4) = take_priority datagram.publisher_priority fs r3 priority rest3 in
      (r4, rw (read1, read2, z, read3, d, read4) refl, rest4)

payload_bytes :
    (payload : Option (List ℕ)) (bytes : List ℕ)
    → fields_bytes (payload_fields payload) ≡ ok bytes
    → bytes ≡ or_else payload []
unfolding fields_bytes field_bytes
payload_bytes none bytes e = sym (ok-injective e)
payload_bytes (some payload) bytes e = sym (ok-injective e) ∙ append-nil payload

-- What is read of the last calls, to the end of the buffer.
take_body :
    {buffer : List ℕ} (has : Bool) (status : Option ℕ) (payload : Option (List ℕ))
    (r : BufferReader)
    → IsSafe status
    → is_abnormal has status ≡ false
    → Stands buffer [] (last_fields status payload) r
    → read_body has (not (is_undefined status)) r ≡ ok (status, told_payload status payload)
unfolding read_body
take_body has (some status) payload r safe normal stands =
    let (r', read, rest) = take_var_int_number status [] r safe stands in rw (read, normal) refl
take_body has none payload r safe normal (front, bytes, wrote, whole, here) =
    let tail : drop r.position r.buffer ≡ bytes =
      rw here (drop-append_length front (bytes ++ []) ∙ append-nil bytes) in
    rw (tail, payload_bytes payload bytes wrote) refl

decode_at :
    (datagram : ObjectDatagram) (front bytes : List ℕ)
    → IsPriority datagram.publisher_priority
    → IsSafe datagram.object_status
    → IsGiven datagram.object_properties
    → ((inner : List ℕ)
        → properties_bytes datagram.object_properties ≡ ok inner
        → length inner ≤ max_properties_length)
    → encode_object_datagram datagram ≡ ok bytes
    → decode_object_datagram (front ++ (bytes ++ [])) (length front)
      ≡ some (ok (as_decoded datagram, length bytes))
unfolding all_fields first_fields read_type read_start finish decode_object_datagram
decode_at datagram front bytes priority safe given short e =
    let (once, normal, wrote_) = accepted datagram bytes e in
    let (inner, put, some_byte, wrote) = encode_object_datagram-fields datagram bytes e in
    let has = has_some datagram.object_properties in
    let (small, valid, reserved, p, g, z, d, s) =
      flags_of_type has (is_true datagram.end_of_group) (is_zero_id datagram.object_id)
        (is_undefined datagram.publisher_priority) (is_status datagram) once in
    let stands = start (all_fields inner datagram) front bytes [] wrote in
    let (r1, read1, rest1) =
      take_var_int_number (type_of datagram) _ (at front bytes []) (omega arith) stands in
    let (r2, read2, rest2) = take_head datagram (type_of datagram) _ r1 priority z d (
      rw
        (append_assoc (id_fields datagram.object_id) (optional_byte datagram.publisher_priority)
          (properties_fields has inner ++ last_fields datagram.object_status datagram.payload))
        at rest1) in
    let (r3, read3, rest3) =
      take_datagram_properties datagram.object_properties inner
        (last_fields datagram.object_status datagram.payload) r2 given put some_byte short rest2 in
    let body = take_body has datagram.object_status datagram.payload r3 safe normal rest3 in
    let size : length (front ++ (bytes ++ [])) - length front ≡ length bytes =
      omega (arith, length-append front (bytes ++ []), length-append bytes []) in
    rw (decode_object_datagram, read1, valid, reserved, read2, p, read3, p, s, body, size, g) refl

-- Where the bytes that encodeObjectDatagram wrote for a datagram are the last of a buffer,
-- decodeObjectDatagram at their offset comes to an end and gives their number and the datagram: with the
-- object ID 0 where it had none, its properties in the ascending order of their keys, or none where
-- there are none, and an empty payload where it had neither a payload nor a status; when its priority,
-- if it has one, fits a byte, its status, if it has one, is a safe integer, its properties take at most
-- 2^20 bytes, no key stands twice, each is a safe integer, the value of each even key is a number as
-- MOQTVarInt writes it, and that of each odd key is at most 65535 bytes.
pub decode_object_datagram-encode :
    (datagram : ObjectDatagram) (front bytes : List ℕ)
    → IsPriority datagram.publisher_priority
    → IsSafe datagram.object_status
    → IsGiven datagram.object_properties
    → ((inner : List ℕ)
        → properties_bytes datagram.object_properties ≡ ok inner
        → length inner ≤ max_properties_length)
    → encode_object_datagram datagram ≡ ok bytes
    → decode_object_datagram (front ++ bytes) (length front)
      ≡ some (ok (as_decoded datagram, length bytes))
decode_object_datagram-encode datagram front bytes priority safe given short e =
    rw (append-nil bytes) at (decode_at datagram front bytes priority safe given short e)
