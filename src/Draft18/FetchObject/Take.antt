-- ===== src/Draft18/FetchObject/Take.antt =====
-- How a reader goes through the fields of a fetch object.
use moq_web.Base.{
  ℕ, ◌≤◌, ◌≡◌, refl, List, [], ◌∷◌, ◌++◌, length, Bool, true, false, not, ◌&&◌, Option, none, some,
  ok, if◌then◌else◌, arith, subst,
}
use mathlib.Core.List.{append_assoc}
use moq_web.Base.Int.{ℤ}
use moq_web.Buffers.Reader.{BufferReader}
use moq_web.Draft18.Writer.{Field, bytes_field}
use moq_web.Draft18.Cursor.{Stands, Takes, take_int, take_var_int_number}
use moq_web.Draft18.Pairs.{Pairs}
use moq_web.Draft18.Objects.{max_properties_length, properties_bytes}
use moq_web.Draft18.Objects.Properties.{IsGiven, told_properties, properties_fields}
use moq_web.Draft18.Objects.Limited.{take_limited}
use moq_web.Draft18.Subgroup.{
  is_true, is_undefined, optional_var_int, optional_byte, has_flag, read_priority,
}
use moq_web.Draft18.Subgroup.Laws.{IsPriority, take_priority}
use moq_web.Draft18.Datagram.{has_some}
use moq_web.Draft18.FetchObject.{
  FetchObject, object_id_delta_flag, group_id_delta_flag, priority_flag, datagram_mode_flag,
  is_given, names_subgroup, middle_fields, mode_of, read_optional_int, read_head,
  read_fetch_properties,
}

regroup : (a b c d : List Field) → (a ++ (b ++ c)) ++ d ≡ a ++ (b ++ (c ++ d))
regroup a b c d = simp append_assoc

module _ {buffer back : List ℕ} where
  take_optional_int :
      (value : Option ℤ) (fs : List Field) (r : BufferReader)
      → Stands buffer back (optional_var_int value ++ fs) r
      → Takes buffer back fs value (read_optional_int (is_given value) r)
  unfolding read_optional_int
  take_optional_int none fs r stands = (r, refl, stands)
  take_optional_int (some z) fs r stands =
      let (r', read, rest) = take_int z fs r stands in (r', rw read refl, rest)

  take_named :
      (named : Bool) (id : Option ℤ) (fs : List Field) (r : BufferReader)
      → (named && is_undefined id) ≡ false
      → Stands buffer back ((if named then optional_var_int id else []) ++ fs) r
      → Takes buffer back fs (if named then id else none) (read_optional_int named r)
  unfolding read_optional_int
  take_named false id fs r given stands = (r, refl, stands)
  take_named true none fs r given stands = absurd (ground arith)
  take_named true (some z) fs r given stands = take_optional_int (some z) fs r stands

  pub take_fetch_properties :
      (properties : Option Pairs) (inner : List ℕ) (fs : List Field) (r : BufferReader)
      → IsGiven properties
      → (has_some properties ≡ true → properties_bytes properties ≡ ok inner)
      → ((inner : List ℕ)
          → properties_bytes properties ≡ ok inner
          → length inner ≤ max_properties_length)
      → Stands buffer back (properties_fields (has_some properties) inner ++ fs) r
      → (r' : BufferReader) × (read_fetch_properties (has_some properties) r
          ≡ some (ok (told_properties true properties, r')))
        × Stands buffer back fs r'
  unfolding read_fetch_properties properties_bytes
  take_fetch_properties none inner fs r given put short stands = (r, refl, stands)
  take_fetch_properties (some []) inner fs r given put short stands = (r, refl, stands)
  take_fetch_properties (some (p ∷ ps)) inner fs r (once, each) put short stands =
      let few = short inner (put refl) in
      let (r1, read, rest) =
        take_var_int_number (length inner) (bytes_field inner ∷ fs) r (omega arith) stands in
      let (r2, reads, ends) = take_limited (p ∷ ps) inner fs r1 once each (put refl) few rest in
      (r2, rw (read_fetch_properties, read) reads, ends)

  take_given_priority :
      (priority : Option ℕ) (fs : List Field) (r : BufferReader)
      → IsPriority priority
      → Stands buffer back (optional_byte priority ++ fs) r
      → Takes buffer back fs priority (read_priority (not (is_given priority)) r)
  take_given_priority none fs r h stands = take_priority none fs r h stands
  take_given_priority (some value) fs r h stands = take_priority (some value) fs r h stands

  pub take_head :
      (obj : FetchObject) (flags : ℕ) (fs : List Field) (r : BufferReader)
      → IsPriority obj.publisher_priority
      → (names_subgroup obj && is_undefined obj.subgroup_id) ≡ false
      → mode_of flags ≡ obj.subgroup_mode
      → has_flag flags object_id_delta_flag ≡ is_given obj.object_id_delta
      → has_flag flags group_id_delta_flag ≡ is_given obj.group_id_delta
      → has_flag flags priority_flag ≡ is_given obj.publisher_priority
      → has_flag flags datagram_mode_flag ≡ is_true obj.datagram_mode
      → Stands buffer back (optional_var_int obj.group_id_delta ++ (middle_fields obj ++ fs)) r
      → Takes buffer back fs
          (
            obj.group_id_delta,
            if names_subgroup obj then obj.subgroup_id else none,
            obj.object_id_delta,
            obj.publisher_priority,
          )
          (read_head flags r)
  unfolding read_head
  take_head obj flags fs r priority given m o g p d stands =
      let named = names_subgroup obj in
      let subgroup = if named then optional_var_int obj.subgroup_id else [] in
      let object = optional_var_int obj.object_id_delta in
      let last = optional_byte obj.publisher_priority ++ fs in
      let same : middle_fields obj ++ fs ≡ subgroup ++ (object ++ last) =
        regroup subgroup object (optional_byte obj.publisher_priority) fs in
      let (r1, read1, rest1) = take_optional_int obj.group_id_delta _ r stands in
      let (r2, read2, rest2) =
        take_named named obj.subgroup_id (object ++ last) r1 given
          (subst (λ (t : List Field). Stands buffer back t r1) same rest1) in
      let (r3, read3, rest3) = take_optional_int obj.object_id_delta last r2 rest2 in
      let (r4, read4, rest4) = take_given_priority obj.publisher_priority fs r3 priority rest3 in
      (r4, rw (g, read1, d, m, read2, o, read3, p, read4) refl, rest4)
