-- ===== src/Draft18/FetchObject/Written.antt =====
-- What encodeFetchObject puts out.
use moq_web.Base.{
  ℕ, ◌≡◌, ◌∙◌, refl, List, [], ◌∷◌, ◌++◌, true, false, ◌&&◌, Bool-cases, Option, none, some, ok,
  >>=-eq-ok, inl, inr, leb, arith, ◌>>=◌,
}
use moq_web.Base.Int.{ℤ, pos}
use moq_web.Buffers.Writer.{BufferWriter, new, to_uint8_array}
use moq_web.Draft18.Writer.{Field, var_int_field, write_fields, fields_to_bytes}
use moq_web.Draft18.Fields.{write_fields-append, fields_to_bytes-written}
use moq_web.Draft18.Objects.{properties_bytes, write_properties}
use moq_web.Draft18.Objects.Properties.{properties_fields}
use moq_web.Draft18.Objects.Limited.{write_properties-fields}
use moq_web.Draft18.Subgroup.{is_undefined, or_else}
use moq_web.Draft18.Datagram.{has_some}
use moq_web.Draft18.FetchObject.{
  FetchObject, flags_of, names_subgroup, first_fields, middle_fields, encode_end_of_range,
  encode_object,
}

-- The calls that write an object.
unfoldable pub all_fields : List ℕ → FetchObject → List Field
all_fields inner obj =
    first_fields obj
    ++ (middle_fields obj
        ++ (properties_fields (has_some obj.object_properties) inner
            ++ var_int_field (or_else obj.payload_length (pos 0)) ∷ []))

-- What is accepted of an object.
pub accepted :
    (obj : FetchObject) (bytes : List ℕ)
    → encode_object obj ≡ ok bytes
    → (w : BufferWriter) × (write_fields (first_fields obj) new ≡ ok w)
      × ((names_subgroup obj && is_undefined obj.subgroup_id) ≡ false)
      × ((do
        w1 ← write_fields (middle_fields obj) w
        w2 ← write_properties (has_some obj.object_properties) obj.object_properties w1
        w3 ← write_fields (var_int_field (or_else obj.payload_length (pos 0)) ∷ []) w2
        ok (to_uint8_array w3))
          ≡ ok bytes)
unfolding encode_object
accepted obj bytes e = elim (Bool-cases (leb 128 (flags_of obj))) [
  | inl high ↦ absurd (ground arith)
  | inr low ↦
      (let (w, first, later) = >>=-eq-ok (write_fields (first_fields obj) new) _ (rw low at e) in
        elim (Bool-cases (names_subgroup obj && is_undefined obj.subgroup_id)) [
          | inl missing ↦ absurd (ground arith)
          | inr given ↦ (w, first, given, rw given at later)
        ])
]

pub encode_object-fields :
    (obj : FetchObject) (bytes : List ℕ)
    → encode_object obj ≡ ok bytes
    → (inner : List ℕ) × (has_some obj.object_properties ≡ true
        → properties_bytes obj.object_properties ≡ ok inner)
      × (fields_to_bytes (all_fields inner obj) ≡ ok bytes)
unfolding all_fields
encode_object-fields obj bytes e =
    let last_field = var_int_field (or_else obj.payload_length (pos 0)) ∷ [] in
    let has = has_some obj.object_properties in
    let (w, first, given, wrote) = accepted obj bytes e in
    let (w1, middle, later) = >>=-eq-ok (write_fields (middle_fields obj) w) _ wrote in
    let (w2, props, later') = >>=-eq-ok (write_properties has obj.object_properties w1) _ later in
    let (w3, last, done) = >>=-eq-ok (write_fields last_field w2) _ later' in
    let (inner, put, props') = write_properties-fields has obj.object_properties w1 w2 props in
    (
      inner,
      put,
      fields_to_bytes-written (all_fields inner obj) w3 (
            write_fields-append (first_fields obj) _ new w w3 first (
              write_fields-append (middle_fields obj) _ w w1 w3 middle (
                write_fields-append (properties_fields has inner) last_field w1 w2 w3 props' last)))
          ∙ done,
    )

pub encode_end_of_range-fields :
    (mark : ℕ) (group object : Option ℤ) (bytes : List ℕ)
    → encode_end_of_range mark group object ≡ ok bytes
    → (g : ℤ) × (o : ℤ) × (group ≡ some g)
      × (object ≡ some o)
      × (fields_to_bytes (var_int_field (pos mark) ∷ var_int_field g ∷ var_int_field o ∷ [])
          ≡ ok bytes)
unfolding encode_end_of_range fields_to_bytes
encode_end_of_range-fields mark (some g) (some o) bytes e = (g, o, refl, refl, e)
encode_end_of_range-fields mark none object bytes e =
    let (w, first, later) = >>=-eq-ok (write_fields (var_int_field (pos mark) ∷ []) new) _ e in
    absurd (ground arith)
encode_end_of_range-fields mark (some g) none bytes e =
    let (w, first, later) = >>=-eq-ok (write_fields (var_int_field (pos mark) ∷ []) new) _ e in
    absurd (ground arith)
