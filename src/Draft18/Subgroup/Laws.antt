-- ===== src/Draft18/Subgroup/Laws.antt =====
-- decodeSubgroupHeader and decodeFetchHeader on what their encoders write.
use moq_web.Base.{
  ℕ, ◌==◌, ◌≤◌, ◌<◌, ◌≡◌, refl, List, [], ◌∷◌, ◌++◌, length, false, Bool-cases, ◌&&◌, Option, none,
  some, ok, inl, inr, leb, if◌then◌else◌, arith,
}
use mathlib.Core.List.{append-nil}
use moq_web.Base.Int.{ℤ, pos}
use moq_web.Buffers.Reader.{BufferReader}
use moq_web.Buffers.ReadBack.{at}
use moq_web.Draft18.Reader.{read_var_int_number}
use moq_web.Draft18.Writer.{Field, fields_to_bytes, var_int_field}
use moq_web.Draft18.Cursor.{Stands, Takes, start, take_var_int_number, take_int, take_byte, moved}
use moq_web.Draft18.Subgroup.{
  SubgroupHeader, is_true, is_not_false, is_undefined, true_or_undefined, explicit_mode, zero_mode,
  header_mode, header_type, optional_var_int, optional_byte, subgroup_header_fields,
  encode_subgroup_header, read_subgroup_id, read_priority, read_subgroup_fields,
  decode_subgroup_header, fetch_header_type, encode_fetch_header, decode_fetch_header,
}
use moq_web.Draft18.Subgroup.Flags.{flags_of_type}

-- A priority that a byte holds.
abbrev pub IsPriority : Option ℕ → Type 0
IsPriority none = Unit
IsPriority (some value) = value < 256

abbrev pub told_subgroup_id : ℕ → Option ℤ → Option ℤ
told_subgroup_id mode id =
    if mode == explicit_mode then id else (if mode == zero_mode then some (pos 0) else none)

-- The header with what the wire tells of it: the defaults filled in, and the subgroup ID just where
-- the mode gives it.
abbrev pub as_decoded : SubgroupHeader → SubgroupHeader
as_decoded header = record header {
  subgroup_id_mode = some (header_mode header);
  subgroup_id = told_subgroup_id (header_mode header) header.subgroup_id;
  has_properties = true_or_undefined (is_true header.has_properties);
  end_of_group = true_or_undefined (is_true header.end_of_group);
  first_object = some (is_not_false header.first_object);
  stream_type = some (header_type header);
}

module _ {buffer back : List ℕ} where
  pub take_priority :
      (priority : Option ℕ) (fs : List Field) (r : BufferReader)
      → IsPriority priority
      → Stands buffer back (optional_byte priority ++ fs) r
      → Takes buffer back fs priority (read_priority (is_undefined priority) r)
  unfolding read_priority
  take_priority none fs r h stands = (r, refl, stands)
  take_priority (some value) fs r h stands =
      let (r', read, rest) = take_byte value fs r h stands in (r', rw read refl, rest)

  take_subgroup_id :
      (mode : ℕ) (id : Option ℤ) (fs : List Field) (r : BufferReader)
      → ((mode == explicit_mode) && is_undefined id) ≡ false
      → Stands buffer back ((if mode == explicit_mode then optional_var_int id else []) ++ fs) r
      → Takes buffer back fs (told_subgroup_id mode id) (read_subgroup_id mode r)
  unfolding read_subgroup_id
  take_subgroup_id mode none fs r given stands = elim (Bool-cases (mode == explicit_mode)) [
    | inr e ↦ (r, rw e refl, rw e at stands)
    | inl e ↦ absurd (ground arith)
  ]
  take_subgroup_id mode (some z) fs r given stands = elim (Bool-cases (mode == explicit_mode)) [
    | inr e ↦ (r, rw e refl, rw e at stands)
    | inl e ↦
        (let (r', read, rest) = take_int z fs r (rw e at stands) in (r', rw (e, read) refl, rest))
  ]

  take_header :
      (header : SubgroupHeader) (r : BufferReader)
      → IsPriority header.publisher_priority
      → header_mode header ≤ 2
      → ((header_mode header == explicit_mode) && is_undefined header.subgroup_id) ≡ false
      → Stands buffer back (subgroup_header_fields header) r
      → (r' : BufferReader) × (read_var_int_number r ≡ ok (header_type header, r'))
        × Takes buffer back [] (as_decoded header) (read_subgroup_fields (header_type header) r')
  unfolding subgroup_header_fields read_subgroup_fields
  take_header header r priority mode given stands =
      let (small, valid, mode_told, p, e, d, f) =
        flags_of_type (header_mode header) (is_true header.has_properties)
          (is_true header.end_of_group) (is_undefined header.publisher_priority)
          (is_not_false header.first_object) mode in
      let (r1, read1, rest1) = take_var_int_number (header_type header) _ r (omega arith) stands in
      let (r2, read2, rest2) = take_int header.track_alias _ r1 rest1 in
      let (r3, read3, rest3) = take_int header.group_id _ r2 rest2 in
      let (r4, read4, rest4) =
        take_subgroup_id (header_mode header) header.subgroup_id _ r3 given rest3 in
      let (r5, read5, rest5) =
        take_priority header.publisher_priority [] r4 priority
          (rw (append-nil (optional_byte header.publisher_priority)) rest4) in
      (r1, read1, (r5, rw (read2, read3, mode_told, read4, d, read5, p, e, f) refl, rest5))

-- What encodeSubgroupHeader accepts.
accepted :
    (header : SubgroupHeader) (bytes : List ℕ)
    → encode_subgroup_header header ≡ ok bytes
    → (header_mode header ≤ 2)
      × (((header_mode header == explicit_mode) && is_undefined header.subgroup_id) ≡ false)
      × (fields_to_bytes (subgroup_header_fields header) ≡ ok bytes)
unfolding encode_subgroup_header
accepted header bytes e = ground arith

-- Where the bytes that encodeSubgroupHeader wrote for a header stand anywhere in a buffer, and its
-- priority, if it has one, fits a byte, decodeSubgroupHeader at that offset gives the number of bytes
-- written and the header with its defaults filled in and the subgroup ID as its mode tells it.
pub decode_subgroup_header-encode :
    (header : SubgroupHeader) (front bytes back : List ℕ)
    → IsPriority header.publisher_priority
    → encode_subgroup_header header ≡ ok bytes
    → decode_subgroup_header (front ++ (bytes ++ back)) (length front)
      ≡ ok (as_decoded header, length bytes)
unfolding decode_subgroup_header
decode_subgroup_header-encode header front bytes back priority e =
    let (mode, given, wrote) = accepted header bytes e in
    let (small, valid, mode_told, p, e_, d, f) =
      flags_of_type (header_mode header) (is_true header.has_properties)
        (is_true header.end_of_group) (is_undefined header.publisher_priority)
        (is_not_false header.first_object) mode in
    let (r1, read, (r2, read', rest)) =
      take_header header (at front bytes back) priority mode given
        (start (subgroup_header_fields header) front bytes back wrote) in
    let byte : leb 128 (header_type header) ≡ false = ground arith in
    let known : (header_mode header == 3) ≡ false = ground arith in
    rw (read, byte, valid, mode_told, known, read', moved front bytes back r2 rest) refl

-- Where the bytes that encodeFetchHeader wrote stand anywhere in a buffer, decodeFetchHeader at that
-- offset gives the request ID and the number of bytes written.
pub decode_fetch_header-encode :
    (request_id : ℤ) (front bytes back : List ℕ)
    → encode_fetch_header request_id ≡ ok bytes
    → decode_fetch_header (front ++ (bytes ++ back)) (length front) ≡ ok (request_id, length bytes)
unfolding encode_fetch_header decode_fetch_header
decode_fetch_header-encode request_id front bytes back e =
    let (r1, read, rest) =
      take_var_int_number fetch_header_type (var_int_field request_id ∷ []) (at front bytes back)
        (omega arith) (start _ front bytes back e) in
    let (r2, read', rest') = take_int request_id [] r1 rest in
    rw (read, read', moved front bytes back r2 rest') refl
