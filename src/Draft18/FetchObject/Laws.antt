-- ===== src/Draft18/FetchObject/Laws.antt =====
-- decodeFetchObject on what encodeFetchObject writes.
use moq_web.Base.{
  ℕ, ◌≤◌, ◌≡◌, refl, List, [], ◌∷◌, ◌++◌, length, true, false, Option-cases, Option, none, some, ok,
  inl, inr, leb, if◌then◌else◌, arith,
}
use moq_web.Base.Int.{pos}
use moq_web.Buffers.ReadBack.{at}
use moq_web.Draft18.Writer.{var_int_field}
use moq_web.Draft18.Cursor.{start, take_int, take_var_int_number, moved}
use moq_web.Draft18.Objects.{max_properties_length, properties_bytes}
use moq_web.Draft18.Objects.Properties.{IsGiven, told_properties, properties_fields}
use moq_web.Draft18.Subgroup.{is_true, true_or_undefined, or_else}
use moq_web.Draft18.Subgroup.Laws.{IsPriority}
use moq_web.Draft18.Datagram.{has_some}
use moq_web.Draft18.FetchObject.{
  FetchObject, zero_mode, is_end_of_range, is_given, flags_of, names_subgroup, encode_end_of_range,
  encode_object, encode_fetch_object, read_end_of_range, finish, finish, read_object, read_by_flags,
  decode_fetch_object,
}
use moq_web.Draft18.FetchObject.Flags.{flags_told}
use moq_web.Draft18.FetchObject.Written.{
  all_fields, accepted, encode_object-fields, encode_end_of_range-fields,
}
use moq_web.Draft18.FetchObject.Take.{take_head, take_fetch_properties}

-- A mark that `FetchObjectEndOfRange` has, where there is one.
abbrev pub IsMark : Option ℕ → Type 0
IsMark none = Unit
IsMark (some mark) = is_end_of_range mark ≡ true

-- What the wire tells of an object, and of the end of a range.
abbrev pub told_object : FetchObject → FetchObject
told_object obj = record obj {
  subgroup_id = if names_subgroup obj then obj.subgroup_id else none;
  object_properties = told_properties true obj.object_properties;
  payload_length = some (or_else obj.payload_length (pos 0));
  datagram_mode = true_or_undefined (is_true obj.datagram_mode);
  end_of_range = none;
}

abbrev pub told_end : ℕ → FetchObject → FetchObject
told_end mark obj = record {
  subgroup_mode = zero_mode;
  group_id_delta = obj.group_id_delta;
  subgroup_id = none;
  object_id_delta = obj.object_id_delta;
  publisher_priority = none;
  object_properties = none;
  payload_length = none;
  datagram_mode = none;
  end_of_range = some mark;
}

abbrev pub as_decoded : FetchObject → FetchObject
as_decoded obj = elim obj.end_of_range [ none ↦ told_object obj | some mark ↦ told_end mark obj ]

decode_object :
    (obj : FetchObject) (front bytes back : List ℕ)
    → obj.subgroup_mode ≤ 3
    → IsPriority obj.publisher_priority
    → IsGiven obj.object_properties
    → ((inner : List ℕ)
        → properties_bytes obj.object_properties ≡ ok inner
        → length inner ≤ max_properties_length)
    → encode_object obj ≡ ok bytes
    → decode_fetch_object (front ++ (bytes ++ back)) (length front)
      ≡ some (ok (told_object obj, length bytes))
unfolding all_fields read_by_flags finish read_object decode_fetch_object
decode_object obj front bytes back mode priority given short e =
    let (w_, first_, named, wrote_) = accepted obj bytes e in
    let (inner, put, wrote) = encode_object-fields obj bytes e in
    let has = has_some obj.object_properties in
    let last = var_int_field (or_else obj.payload_length (pos 0)) ∷ [] in
    let (small, mark, m, o, g, p, x, d) =
      flags_told obj.subgroup_mode (is_given obj.object_id_delta) (is_given obj.group_id_delta)
        (is_given obj.publisher_priority) has (is_true obj.datagram_mode) mode in
    let stands = start (all_fields inner obj) front bytes back wrote in
    let (r1, read1, rest1) =
      take_var_int_number (flags_of obj) _ (at front bytes back) (omega arith) stands in
    let (r2, read2, rest2) =
      take_head obj (flags_of obj) (properties_fields has inner ++ last) r1 priority named m o g p d
        rest1 in
    let (r3, read3, rest3) =
      take_fetch_properties obj.object_properties inner last r2 given put short rest2 in
    let (r4, read4, rest4) = take_int (or_else obj.payload_length (pos 0)) [] r3 rest3 in
    let low : leb 128 (flags_of obj) ≡ false = ground arith in
    rw
      (
        decode_fetch_object,
        read1,
        mark,
        low,
        read2,
        x,
        read3,
        read4,
        m,
        d,
        moved front bytes back r4 rest4,
      )
      refl

mark_small : (mark : ℕ) → is_end_of_range mark ≡ true → mark ≤ 0x20c
unfolding is_end_of_range
mark_small mark known = ground arith

decode_end :
    (mark : ℕ) (obj : FetchObject) (front bytes back : List ℕ)
    → is_end_of_range mark ≡ true
    → encode_end_of_range mark obj.group_id_delta obj.object_id_delta ≡ ok bytes
    → decode_fetch_object (front ++ (bytes ++ back)) (length front)
      ≡ some (ok (told_end mark obj, length bytes))
unfolding read_by_flags read_end_of_range decode_fetch_object
decode_end mark obj front bytes back known e =
    let (g, o, group, object, wrote) =
      encode_end_of_range-fields mark obj.group_id_delta obj.object_id_delta bytes e in
    let stands = start _ front bytes back wrote in
    let small = mark_small mark known in
    let (r1, read1, rest1) =
      take_var_int_number mark (var_int_field g ∷ var_int_field o ∷ []) (at front bytes back)
        (omega arith) stands in
    let (r2, read2, rest2) = take_int g (var_int_field o ∷ []) r1 rest1 in
    let (r3, read3, rest3) = take_int o [] r2 rest2 in
    rw
      (
        decode_fetch_object,
        read1,
        known,
        read2,
        read3,
        moved front bytes back r3 rest3,
        group,
        object,
      )
      refl

-- Where the bytes that encodeFetchObject wrote for a fetch object stand anywhere in a buffer,
-- decodeFetchObject at that offset comes to an end and gives their number and the object: one that
-- marks the end of a range with its mark, group and object, any other with its subgroup ID just
-- where its mode is EXPLICIT, 3 in the enum FetchSubgroupMode, and it is no datagram, its properties
-- in the ascending order of their keys, or none where there are none, and the payload length 0 where
-- it had none; when its mode and its mark, if it has one, are those of the enums, its priority, if
-- it has one, fits a byte, its properties take at most 2^20 bytes, no key stands twice, each is a
-- safe integer, the value of each even key is a number as MOQTVarInt writes it, and that of each odd
-- key is at most 65535 bytes.
pub decode_fetch_object-encode :
    (obj : FetchObject) (front bytes back : List ℕ)
    → obj.subgroup_mode ≤ 3
    → IsMark obj.end_of_range
    → IsPriority obj.publisher_priority
    → IsGiven obj.object_properties
    → ((inner : List ℕ)
        → properties_bytes obj.object_properties ≡ ok inner
        → length inner ≤ max_properties_length)
    → encode_fetch_object obj ≡ ok bytes
    → decode_fetch_object (front ++ (bytes ++ back)) (length front)
      ≡ some (ok (as_decoded obj, length bytes))
unfolding encode_fetch_object
decode_fetch_object-encode obj front bytes back mode mark priority given short e =
    elim (Option-cases obj.end_of_range) [
      | inl none_e ↦
          rw none_e (decode_object obj front bytes back mode priority given short (rw none_e at e))
      | inr (m, some_e) ↦
          rw some_e (decode_end m obj front bytes back (rw some_e at mark) (rw some_e at e))
    ]
