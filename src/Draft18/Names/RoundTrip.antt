-- ===== src/Draft18/Names/RoundTrip.antt =====
-- Full track names, a namespace and a name behind it, written and read.
use moq_web.Base.{
  ℕ, ◌+◌, ◌-◌, ◌==◌, ◌≤◌, ◌≡◌, refl, List, [], ◌∷◌, ◌++◌, length, false, some, ok, ◌>>=◌, >>=-eq-ok,
  All, arith, Bool-cases, inl, inr, Result-cases,
}
use moq_web.Base.Int.{pos}
use moq_web.Buffers.Reader.{BufferReader}
use moq_web.Buffers.ReadBack.{at}
use moq_web.Buffers.Writer.{BufferWriter, new, to_uint8_array}
use moq_web.Draft18.Writer.{
  Field, var_int_field, bytes_field, write_var_int, write_bytes, write_field, write_fields,
  fields_to_bytes,
}
use moq_web.Draft18.Cursor.{Stands, Takes, start, take_var_int_number, take_bytes, moved}
use moq_web.Draft18.Names.{
  NameCodec, max_string_length, max_namespace_tuple_count, max_track_name_length, assert_bound,
  decode_name, namespace_length, write_names, encode_track_namespace, read_names,
  decode_track_namespace, encode_track_name, decode_track_name,
}

within_bound : (n limit : ℕ) (u : Unit {0}) → assert_bound n limit ≡ ok u → n ≤ limit
unfolding assert_bound
within_bound n limit u e = ground arith

bound_holds : (n limit : ℕ) → n ≤ limit → assert_bound n limit ≡ ok tt
unfolding assert_bound
bound_holds n limit h = ground arith

write_fields-append :
    (fs gs : List Field) (w : BufferWriter)
    → write_fields (fs ++ gs) w ≡ (do w' ← write_fields fs w; write_fields gs w')
unfolding write_fields
write_fields-append [] gs w = refl
write_fields-append (f ∷ fs) gs w = elim (Result-cases (write_field f w)) [
  | inl (w', e) ↦ rw e (write_fields-append fs gs w')
  | inr (x, e) ↦ rw e refl
]

module _ (codec : NameCodec) where
  open codec use {Text, encode_text, decode_fatal}

  -- A text that the platform decodes again.
  abbrev pub IsName : Text → Type 0
  IsName text = decode_fatal (encode_text text) ≡ some text

  -- The calls on the writer.
  abbrev name_fields : Text → List Field
  name_fields text =
      var_int_field (pos (length (encode_text text))) ∷ bytes_field (encode_text text) ∷ []

  abbrev names_fields : List Text → List Field
  names_fields [] = []
  names_fields (text ∷ texts) = name_fields text ++ names_fields texts

  abbrev IsFilled : Text → Type 0
  IsFilled text = 1 ≤ length (encode_text text)

  write_names-fields :
      (texts : List Text) (w w' : BufferWriter)
      → write_names codec texts w ≡ ok w'
      → (write_fields (names_fields texts) w ≡ ok w') × All IsFilled texts
  unfolding write_names write_fields
  write_names-fields [] w w' e = (e, tt)
  write_names-fields (text ∷ texts) w w' e = elim (Bool-cases (length (encode_text text) == 0)) [
    | inl empty ↦ absurd (ground arith)
    | inr filled ↦
        (let (w1, wrote, later) =
            >>=-eq-ok (write_var_int (pos (length (encode_text text))) w) _ (rw filled at e) in
          let (rest, all) = write_names-fields texts (write_bytes (encode_text text) w1) w' later in
          (rw wrote rest, (ground arith, all)))
  ]

  module _ {buffer back : List ℕ} where
    take_names :
        (texts : List Text) (total : ℕ) (fs : List Field) (r : BufferReader)
        → All IsFilled texts
        → All IsName texts
        → total + namespace_length codec texts ≤ max_track_name_length
        → Stands buffer back (names_fields texts ++ fs) r
        → Takes buffer back fs texts (read_names codec (length texts) total r)
    unfolding read_names namespace_length decode_name
    take_names [] total fs r filled named short stands = (r, refl, stands)
    take_names (text ∷ texts) total fs r (some_bytes, filled) (name, named) short stands =
        let bytes = encode_text text in
        let n = length bytes in
        let (r1, read1, rest1) = take_var_int_number n _ r (omega arith) stands in
        let (r2, read2, rest2) = take_bytes bytes _ r1 rest1 in
        let (r3, read3, rest3) =
          take_names texts (total + n) fs r2 filled named (omega arith) rest2 in
        let not_empty : (n == 0) ≡ false = ground arith in
        let field_fits = bound_holds n max_string_length (omega arith) in
        let fits = bound_holds (total + n) max_track_name_length (omega arith) in
        let decoded : decode_name codec bytes ≡ ok text = rw (decode_name, name) refl in
        (r3, rw (read1, not_empty, field_fits, fits, read2, decoded, read3) refl, rest3)

    take_namespace :
        (namespace : List Text) (fs : List Field) (r : BufferReader)
        → All IsFilled namespace
        → All IsName namespace
        → length namespace ≤ max_namespace_tuple_count
        → namespace_length codec namespace ≤ max_track_name_length
        → Stands buffer back
            (var_int_field (pos (length namespace)) ∷ (names_fields namespace ++ fs))
            r
        → Takes buffer back fs namespace (decode_track_namespace codec r)
    unfolding decode_track_namespace
    take_namespace namespace fs r filled named few short stands =
        let (r1, read1, rest1) = take_var_int_number (length namespace) _ r (omega arith) stands in
        let (r2, read2, rest2) = take_names namespace 0 fs r1 filled named (omega arith) rest1 in
        (
          r2,
          rw (read1, bound_holds (length namespace) max_namespace_tuple_count few, read2) refl,
          rest2,
        )

    take_name :
        (name : Text) (namespace : List Text) (fs : List Field) (r : BufferReader)
        → IsName name
        → namespace_length codec namespace + length (encode_text name) ≤ max_track_name_length
        → Stands buffer back (name_fields name ++ fs) r
        → Takes buffer back fs name (decode_track_name codec namespace r)
    unfolding decode_track_name decode_name
    take_name name namespace fs r named short stands =
        let bytes = encode_text name in
        let (r1, read1, rest1) = take_var_int_number (length bytes) _ r (omega arith) stands in
        let (r2, read2, rest2) = take_bytes bytes fs r1 rest1 in
        let fits =
          bound_holds (namespace_length codec namespace + length bytes) max_track_name_length
            short in
        let decoded : decode_name codec bytes ≡ ok name = rw (decode_name, named) refl in
        (r2, rw (read1, fits, read2, decoded) refl, rest2)

  -- The calls that write a full track name, and what they accept.
  full_name_fields :
      (namespace : List Text) (name : Text) (w w' w'' : BufferWriter)
      → encode_track_namespace codec namespace w ≡ ok w'
      → encode_track_name codec name namespace w' ≡ ok w''
      → (write_fields
            (var_int_field (pos (length namespace)) ∷ (names_fields namespace ++ name_fields name))
            w
          ≡ ok w'')
        × (length namespace ≤ max_namespace_tuple_count)
        × (namespace_length codec namespace + length (encode_text name) ≤ max_track_name_length)
        × All IsFilled namespace
  unfolding encode_track_namespace encode_track_name write_fields write_field
  full_name_fields namespace name w w' w'' e e' =
      let (u, few, later) =
        >>=-eq-ok (assert_bound (length namespace) max_namespace_tuple_count) _ e in
      let (u', short, later') =
        >>=-eq-ok (assert_bound (namespace_length codec namespace) max_track_name_length) _ later in
      let (w1, count, named) = >>=-eq-ok (write_var_int (pos (length namespace)) w) _ later' in
      let (fields, filled) = write_names-fields namespace w1 w' named in
      let (u'', fits, last) =
        >>=-eq-ok
          (assert_bound (namespace_length codec namespace + length (encode_text name))
            max_track_name_length)
          _ e' in
      (
        rw (count, write_fields-append (names_fields namespace) (name_fields name) w1, fields) last,
        within_bound _ _ u few,
        within_bound _ _ u'' fits,
        filled,
      )

  -- Where the bytes that encodeTrackNamespace and then encodeTrackName write on a new writer stand
  -- anywhere in a buffer, and each text is one that the platform decodes again, decodeTrackNamespace
  -- and then decodeTrackName give the namespace and the name, and stop behind the bytes.
  pub decode_full_name-encode :
      (namespace : List Text) (name : Text) (w w' : BufferWriter) (front back : List ℕ)
      → All IsName namespace
      → IsName name
      → encode_track_namespace codec namespace new ≡ ok w
      → encode_track_name codec name namespace w ≡ ok w'
      → let bytes = to_uint8_array w' in
        (r : BufferReader) × (r' : BufferReader) × (decode_track_namespace codec
            (at front bytes back)
          ≡ ok (namespace, r))
        × (decode_track_name codec namespace r ≡ ok (name, r'))
        × (r'.position - length front ≡ length bytes)
  unfolding fields_to_bytes
  decode_full_name-encode namespace name w w' front back named own e e' =
      let (wrote, few, short, filled) = full_name_fields namespace name new w w' e e' in
      let bytes = to_uint8_array w' in
      let written : fields_to_bytes
            (var_int_field (pos (length namespace)) ∷ (names_fields namespace ++ name_fields name))
          ≡ ok bytes =
        rw (fields_to_bytes, wrote) refl in
      let (r, read, rest) =
        take_namespace namespace (name_fields name) (at front bytes back) filled named few
          (omega arith) (start _ front bytes back written) in
      let (r', read', rest') = take_name name namespace [] r own short rest in
      (r, r', read, read', moved front bytes back r' rest')
