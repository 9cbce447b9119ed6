-- ===== src/Draft18/Names.antt =====
-- Track namespaces and track names of packages/core/src/encoding/codec-helpers.ts.
pub mod RoundTrip
use moq_web.Base.{
  ℕ, zero, suc, ◌+◌, ◌==◌, List, [], ◌∷◌, length, Bool, Option, none, some, Result, ok, err, ◌>>=◌,
  ltb, if◌then◌else◌,
}
use moq_web.Base.Int.{pos}
use moq_web.Buffers.Reader.{BufferReader}
use moq_web.Buffers.Writer.{BufferWriter}
use moq_web.Draft18.{CodecError, bounds_exceeded, bad_name}
use moq_web.Draft18.Writer.{write_var_int, write_bytes}
use moq_web.Draft18.Reader.{read_var_int_number, read_bytes}

-- `TextEncoder`, and `TextDecoder` where it throws for bytes that are not UTF-8, which belong to the
-- platform.
pub record NameCodec : Type 1 where
  pub Text : Type 0
  pub encode_text : Text → List ℕ
  pub decode_fatal : List ℕ → Option Text

abbrev pub max_string_length : ℕ
max_string_length = 4096

abbrev pub max_namespace_tuple_count : ℕ
max_namespace_tuple_count = 32

abbrev pub max_track_name_length : ℕ
max_track_name_length = 4096

unfoldable pub assert_bound : ℕ → ℕ → Result CodecError (Unit {0})
assert_bound actual limit = if ltb limit actual then err bounds_exceeded else ok tt

module _ (codec : NameCodec) where
  open codec use {Text, encode_text, decode_fatal}

  unfoldable pub decode_name : List ℕ → Result CodecError Text
  decode_name bytes = elim (decode_fatal bytes) [ none ↦ err bad_name | some text ↦ ok text ]

  unfoldable pub namespace_length : List Text → ℕ
  namespace_length [] = 0
  namespace_length (field ∷ fields) = length (encode_text field) + namespace_length fields

  -- The loop of `encodeTrackNamespace`.
  unfoldable pub write_names : List Text → BufferWriter → Result CodecError BufferWriter
  write_names [] w = ok w
  write_names (field ∷ fields) w = if length (encode_text field) == 0 then err bad_name else (do
    w' ← write_var_int (pos (length (encode_text field))) w
    write_names fields (write_bytes (encode_text field) w'))

  unfoldable pub encode_track_namespace : List Text → BufferWriter → Result CodecError BufferWriter
  encode_track_namespace namespace w = do
    few ← assert_bound (length namespace) max_namespace_tuple_count
    short ← assert_bound (namespace_length namespace) max_track_name_length
    w' ← write_var_int (pos (length namespace)) w
    write_names namespace w'

  -- The loop of `decodeTrackNamespace`, with the rounds to go and the total length so far.
  unfoldable pub read_names : ℕ → ℕ → BufferReader → Result CodecError (List Text × BufferReader)
  read_names zero total r = ok ([], r)
  read_names (suc count) total r = do
    (size, r1) ← read_var_int_number r
    (if size == 0 then err bad_name else (do
      field_fits ← assert_bound size max_string_length
      fits ← assert_bound (total + size) max_track_name_length
      (bytes, r2) ← read_bytes size r1
      name ← decode_name bytes
      (names, r3) ← read_names count (total + size) r2
      ok (name ∷ names, r3)))

  unfoldable pub decode_track_namespace :
      BufferReader → Result CodecError (List Text × BufferReader)
  decode_track_namespace r = do
    (count, r') ← read_var_int_number r
    few ← assert_bound count max_namespace_tuple_count
    read_names count 0 r'

  unfoldable pub encode_track_name :
      Text → List Text → BufferWriter → Result CodecError BufferWriter
  encode_track_name name namespace w = do
    short ←
        assert_bound (namespace_length namespace + length (encode_text name)) max_track_name_length
    w' ← write_var_int (pos (length (encode_text name))) w
    ok (write_bytes (encode_text name) w')

  unfoldable pub decode_track_name :
      List Text → BufferReader → Result CodecError (Text × BufferReader)
  decode_track_name namespace r = do
    (size, r1) ← read_var_int_number r
    short ← assert_bound (namespace_length namespace + size) max_track_name_length
    (bytes, r2) ← read_bytes size r1
    name ← decode_name bytes
    ok (name, r2)
