-- ===== src/Draft18/Objects/Properties.antt =====
-- decodeProperties on what encodeProperties writes, inside of an object header.
use moq_web.Base.{
  Bool-cases, inl, inr, leb, ℕ, zero, suc, ◌+◌, ◌-◌, ◌==◌, ◌≤◌, ◌<◌, ◌≡◌, refl, sym, ap, ◌∙◌, List,
  [], ◌∷◌, ◌++◌, length, length-append, Bool, true, false, Option, none, some, ok, ok-injective,
  ltb, All, arith,
}
use mathlib.Core.List.{append_assoc, append-nil}
use moq_web.Base.Int.{pos}
use moq_web.Varint.Moqt.{encode}
use moq_web.Varint.Moqt.Shape.{encoded_length_bounds}
use moq_web.Varint.Moqt.RoundTrip.{encode_parts, length-encode}
use moq_web.Buffers.Reader.{BufferReader}
use moq_web.Draft18.Writer.{Field, var_int_field, bytes_field, fields_to_bytes}
use moq_web.Draft18.Fields.{
  lift-eq-ok, fields_bytes-cons, field_bytes, fields_bytes, fields_to_bytes_lem,
}
use moq_web.Draft18.Cursor.{Stands, take_var_int_number, at_end, before_back, enter, extent}
use moq_web.Draft18.Pairs.{insert_pair, Pairs, pair_fields, value_fields, sort_pairs}
use moq_web.Draft18.Pairs.Sorted.{IsMap, Ascends, sort_pairs-All, sort_pairs-Ascends}
use moq_web.Draft18.Pairs.Total.{read_pair-HasMoved}
use moq_web.Draft18.Pairs.RoundTrip.{IsPair, take_pair, Below, Below-up, Below-fresh, Below-snoc}
use moq_web.Draft18.Objects.{
  max_properties_length, encode_properties, read_properties, decode_properties, properties_bytes,
  read_sized_properties, read_object_properties,
}

module _ {buffer back : List ℕ} where
  take_properties :
      (fuel end_offset previous lower : ℕ) (pairs done : Pairs) (r : BufferReader)
      → end_offset - r.position < fuel
      → end_offset + length back ≡ length buffer
      → previous ≤ lower
      → Ascends lower pairs
      → All IsPair pairs
      → Below lower done
      → Stands buffer back (pair_fields previous pairs) r
      → (r' : BufferReader) × (read_properties fuel end_offset previous done r
          ≡ some (ok (done ++ pairs, r')))
        × Stands buffer back [] r'
  unfolding read_properties pair_fields
  take_properties zero end_offset previous lower pairs done r enough size h up ps below stands =
      absurd (omega arith)
  take_properties (suc fuel) end_offset previous lower [] done r enough size h up ps below stands =
      let here = ap (λ (t : BufferReader). t.position) (at_end r stands) in
      let met : ltb r.position end_offset ≡ false = ground arith in
      let on_end : (r.position == end_offset) ≡ true = ground arith in
      (r, rw (read_properties, met, on_end, append-nil done) refl, stands)
  take_properties (suc fuel) end_offset previous lower ((key, value) ∷ pairs) done r enough size h
        (low, up) (p, ps) below stands =
      let under = Below-up lower key done low below in
      let (r', read, rest) =
        take_pair previous key value (pair_fields key pairs) done r (omega arith) p
          (Below-fresh key done under) stands in
      let (same, far) = read_pair-HasMoved previous done _ r r' key read in
      let not_past = before_back (pair_fields key pairs) r' rest in
      let more : ltb r.position end_offset ≡ true = ground (arith, not_past) in
      let (r'', reads, ends) =
        take_properties fuel end_offset key (suc key) pairs (done ++ (key, value) ∷ []) r'
          (omega (arith, not_past)) size (omega arith) up ps (Below-snoc key value done under)
          rest in
      (
        r'',
        rw (read_properties, more, read)
            (reads
              ∙ ap (λ (t : Pairs). some (ok (t, r'')))
                  (append_assoc done ((key, value) ∷ []) pairs)),
        ends,
      )

module _ {buffer back : List ℕ} where
  -- The properties in the bytes that were written for them.
  pub take_sized :
      (properties : Pairs) (inner : List ℕ) (fs : List Field) (r : BufferReader)
      → IsMap properties
      → All IsPair properties
      → fields_to_bytes (encode_properties properties) ≡ ok inner
      → Stands buffer back (bytes_field inner ∷ fs) r
      → (r' : BufferReader) × (decode_properties (r.position + length inner) r
          ≡ some (ok (sort_pairs properties, r')))
        × Stands buffer back fs r'
  unfolding decode_properties encode_properties
  take_sized properties inner fs r once each wrote stands =
      let sorted = sort_pairs properties in
      let put = sym (fields_to_bytes_lem (pair_fields 0 sorted)) ∙ wrote in
      let (rest, within, leave) = enter inner (pair_fields 0 sorted) fs r put stands in
      let end_offset = r.position + length inner in
      let size : end_offset + length (rest ++ back) ≡ length buffer =
        extent (pair_fields 0 sorted) r inner put within in
      let (r', reads, ends) =
        take_properties (suc (end_offset - r.position)) end_offset 0 0 sorted [] r (omega arith)
          size (omega arith) (sort_pairs-Ascends properties once)
          (sort_pairs-All IsPair properties each) tt within in
      (r', reads, leave r' ends)

-- Properties that the reader takes, where there are any.
abbrev pub IsGiven : Option Pairs → Type 0
IsGiven none = Unit
IsGiven (some properties) = IsMap properties × All IsPair properties

-- What the wire tells of the properties.
abbrev pub told_properties : Bool → Option Pairs → Option Pairs
told_properties false properties = none
told_properties true none = none
told_properties true (some []) = none
told_properties true (some (p ∷ ps)) = some (sort_pairs (p ∷ ps))

abbrev pub properties_fields : Bool → List ℕ → List Field
properties_fields false inner = []
properties_fields true inner = var_int_field (pos (length inner)) ∷ bytes_field inner ∷ []

-- A written number is at least a byte long.
some_byte : (v : ℕ) (fs : List Field) → fields_bytes (var_int_field (pos v) ∷ fs) ≡ ok [] → ⊥
unfolding field_bytes
some_byte v fs e =
    let (first, rest, b, wrote, joined) = fields_bytes-cons (var_int_field (pos v)) fs [] e in
    let encoded = lift-eq-ok (encode (pos v)) b in
    let (n, told, same) = encode_parts v first encoded in
    let (lo, hi, fits) = encoded_length_bounds v n told in
    absurd (
      omega
        (arith, ap length joined, length-append first rest, length-encode v n first encoded told))

insert_pair-cons :
    (key : ℕ) (value : List ℕ) (pairs : Pairs)
    → (p : ℕ × List ℕ) × (ps : Pairs) × (insert_pair key value pairs ≡ p ∷ ps)
unfolding insert_pair
insert_pair-cons key value [] = ((key, value), [], refl)
insert_pair-cons key value ((k, v) ∷ pairs) = elim (Bool-cases (leb key k)) [
  | inl e ↦ ((key, value), (k, v) ∷ pairs, rw e refl)
  | inr e ↦ ((k, v), insert_pair key value pairs, rw e refl)
]

pub some_properties :
    (p : ℕ × List ℕ) (ps : Pairs) → fields_to_bytes (encode_properties (p ∷ ps)) ≡ ok [] → ⊥
unfolding encode_properties sort_pairs pair_fields
some_properties (key, value) ps e =
    let (p, pairs, shape) = insert_pair-cons key value (sort_pairs ps) in
    let wrote = sym (fields_to_bytes_lem _) ∙ e in
    some_byte (p.0 - 0) (value_fields p.0 p.1 ++ pair_fields p.0 pairs) (rw shape at wrote)

module _ {buffer back : List ℕ} where
  none_sized :
      (inner : List ℕ) (fs : List Field) (r : BufferReader)
      → fields_bytes [] ≡ ok inner
      → Stands buffer back (bytes_field inner ∷ fs) r
      → (read_sized_properties (length inner) r ≡ some (ok (none, r))) × Stands buffer back fs r
  unfolding fields_bytes read_sized_properties
  none_sized inner fs r put stands =
      let (rest, within, leave) = enter inner [] fs r put stands in
      let empty : [] ≡ inner = ok-injective put in (rw (← empty) refl, leave r within)

  take_sized_properties :
      (properties : Option Pairs) (inner : List ℕ) (fs : List Field) (r : BufferReader)
      → IsGiven properties
      → properties_bytes properties ≡ ok inner
      → Stands buffer back (bytes_field inner ∷ fs) r
      → (r' : BufferReader) × (read_sized_properties (length inner) r
          ≡ some (ok (told_properties true properties, r')))
        × Stands buffer back fs r'
  unfolding properties_bytes encode_properties sort_pairs pair_fields read_sized_properties
  take_sized_properties none inner fs r given wrote stands =
      let (read, ends) = none_sized inner fs r (sym (fields_to_bytes_lem []) ∙ wrote) stands in
      (r, read, ends)
  take_sized_properties (some []) inner fs r given wrote stands =
      let (read, ends) = none_sized inner fs r (sym (fields_to_bytes_lem []) ∙ wrote) stands in
      (r, read, ends)
  take_sized_properties (some (p ∷ ps)) [] fs r given wrote stands =
      absurd (some_properties p ps wrote)
  take_sized_properties (some (p ∷ ps)) (b ∷ bs) fs r (once, each) wrote stands =
      let (r', reads, ends) = take_sized (p ∷ ps) (b ∷ bs) fs r once each wrote stands in
      (r', rw (read_sized_properties, reads) refl, ends)

  pub take_object_properties :
      (has : Bool) (properties : Option Pairs) (inner : List ℕ) (fs : List Field) (r : BufferReader)
      → IsGiven properties
      → properties_bytes properties ≡ ok inner
      → length inner ≤ max_properties_length
      → Stands buffer back (properties_fields has inner ++ fs) r
      → (r' : BufferReader) × (read_object_properties has r
          ≡ some (ok (told_properties has properties, r')))
        × Stands buffer back fs r'
  unfolding read_object_properties
  take_object_properties false properties inner fs r given wrote short stands = (r, refl, stands)
  take_object_properties true properties inner fs r given wrote short stands =
      let (r1, read, rest) =
        take_var_int_number (length inner) (bytes_field inner ∷ fs) r (omega arith) stands in
      let inside : ltb max_properties_length (length inner) ≡ false = ground arith in
      let (r2, reads, ends) = take_sized_properties properties inner fs r1 given wrote rest in
      (r2, rw (read_object_properties, read, inside) reads, ends)
