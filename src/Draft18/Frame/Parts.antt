-- ===== src/Draft18/Frame/Parts.antt =====
-- What stands in a frame that encodeFramed wrote, and how decodeFramed goes on with what it finds.
use moq_web.Base.{
  ℕ, ◌+◌, ◌≤◌, ◌<◌, ◌≡◌, refl, sym, ap, ◌∙◌, List, [], ◌∷◌, ◌++◌, length, length-append,
  drop-append_eq, get_or-append_right, get_or, take, drop, true, Bool-cases, inl, inr, false,
  Result, ok, err, >>=-eq-ok, ok-injective, bit_and, bit_or, ltb, arith,
}
use mathlib.Core.List.{append_assoc}
use moq_web.Base.Bits.{shl, shr, bit_or-shl, bit_and-byte}
use moq_web.Base.Int.{pos}
use moq_web.Varint.{max_safe_integer}
use moq_web.Varint.Moqt.{encode, decode, decode_number, length_from_first_byte}
use moq_web.Varint.Moqt.RoundTrip.{decode-encode_moqt}
use moq_web.Buffers.Reader.{BufferReader}
use moq_web.Buffers.Writer.{BufferWriter, new, to_uint8_array}
use moq_web.Draft18.{CodecError, incomplete}
use moq_web.Draft18.Fields.{lift-eq-ok}
use moq_web.Draft18.Frame.{
  assert_control_length, encode_framed, peek_message_type, decode_body, decode_framed,
}

-- The two bytes of the length.
abbrev pub high : ℕ → ℕ
high n = bit_and (shr n 8) 0xff

abbrev pub low : ℕ → ℕ
low n = bit_and n 0xff

pub length-told : (n : ℕ) → n ≤ 0xffff → bit_or (shl (high n) 8) (low n) ≡ n
length-told n h =
    let small = bit_and-byte n in
    let joined = bit_or-shl 8 (high n) (low n) (omega (arith, small)) in
    omega (arith, joined, small, bit_and-byte (shr n 8))

-- A written frame: its parts, and what of them the reader tells.
pub record IsFrame (type : ℕ) (payload bytes : List ℕ) : Type 0 where
  pub type_bytes : List ℕ
  pub typed : encode (pos type) ≡ ok type_bytes
  pub fits : length payload ≤ 0xffff
  pub joined : bytes ≡ type_bytes ++ (high (length payload) ∷ low (length payload) ∷ payload)

pub encode_framed-IsFrame :
    (type : ℕ) (encode_payload : BufferWriter → Result CodecError BufferWriter) (w : BufferWriter)
    (bytes : List ℕ)
    → encode_payload new ≡ ok w
    → encode_framed type encode_payload ≡ ok bytes
    → IsFrame type (to_uint8_array w) bytes
unfolding encode_framed assert_control_length
encode_framed-IsFrame type encode_payload w bytes written e =
    let payload = to_uint8_array w in
    let (u, fits, later) = >>=-eq-ok (assert_control_length (length payload)) _ (rw written at e) in
    let (type_bytes, typed, joined) = >>=-eq-ok _ _ later in
    record {
      type_bytes = type_bytes;
      typed = lift-eq-ok (encode (pos type)) typed;
      fits = ground arith;
      joined = sym (ok-injective joined);
    }

pub written-payload :
    (type : ℕ) (encode_payload : BufferWriter → Result CodecError BufferWriter) (bytes : List ℕ)
    → encode_framed type encode_payload ≡ ok bytes
    → (w : BufferWriter) × (encode_payload new ≡ ok w)
unfolding encode_framed
written-payload type encode_payload bytes e =
    let (w, written, later) = >>=-eq-ok (encode_payload new) _ e in (w, written)

-- The first byte of an encoded number tells how many there are.
pub first_byte_tells :
    (v : ℕ) (front encoded back : List ℕ)
    → encode (pos v) ≡ ok encoded
    → length_from_first_byte (get_or (front ++ (encoded ++ back)) (length front) 0) ≡ length encoded
unfolding decode
first_byte_tells v front encoded back e =
    let decoded = decode-encode_moqt v front back encoded e in ground arith

pub get_or-between : (xs ys : List ℕ) (i : ℕ) → get_or (xs ++ ys) (length xs + i) 0 ≡ get_or ys i 0
get_or-between xs ys i = get_or-append_right xs ys i 0

pub decode_number-framed :
    (type : ℕ) (front type_bytes back : List ℕ)
    → encode (pos type) ≡ ok type_bytes
    → type ≤ max_safe_integer
    → decode_number (front ++ (type_bytes ++ back)) (length front) ≡ ok (type, length type_bytes)
unfolding decode_number
decode_number-framed type front type_bytes back typed safe =
    rw (decode-encode_moqt type front back type_bytes typed) (ground arith)

pub peek-framed :
    (type : ℕ) (front type_bytes back : List ℕ)
    → encode (pos type) ≡ ok type_bytes
    → type ≤ max_safe_integer
    → peek_message_type (front ++ (type_bytes ++ back)) (length front) ≡ ok type
unfolding peek_message_type
peek-framed type front type_bytes back typed safe =
    rw (peek_message_type, decode_number-framed type front type_bytes back typed safe) refl

-- A reader that has found the type, and the `n` of the length.
pub decode_framed-found :
    {T : Type 0} (buffer : List ℕ) (offset : ℕ)
    (decode_payload : BufferReader → Result CodecError (T × BufferReader)) (type k n : ℕ)
    (message : T)
    → peek_message_type buffer offset ≡ ok type
    → length_from_first_byte (get_or buffer offset 0) ≡ k
    → get_or buffer (offset + k) 0 ≡ high n
    → get_or buffer (offset + k + 1) 0 ≡ low n
    → n ≤ 0xffff
    → offset + (k + 2) + n ≤ length buffer
    → decode_body decode_payload (take n (drop (offset + (k + 2)) buffer)) ≡ ok message
    → decode_framed buffer offset decode_payload ≡ ok (message, k + 2 + n)
unfolding decode_framed
decode_framed-found buffer offset decode_payload type k n message peek tells hi lo fits room reads =
    let enough : ltb (length buffer) (offset + k + 2) ≡ false = ground arith in
    let all : ltb (length buffer) (offset + (k + 2) + n) ≡ false = ground arith in
    rw (peek, tells, enough, hi, lo, length-told n fits, all, reads) refl

-- The same, where the buffer is too short.
pub decode_framed-short :
    {T : Type 0} (buffer : List ℕ) (offset : ℕ)
    (decode_payload : BufferReader → Result CodecError (T × BufferReader)) (type k n : ℕ)
    → peek_message_type buffer offset ≡ ok type
    → length_from_first_byte (get_or buffer offset 0) ≡ k
    → (offset + k + 2 ≤ length buffer
        → (get_or buffer (offset + k) 0 ≡ high n) × (get_or buffer (offset + k + 1) 0 ≡ low n))
    → n ≤ 0xffff
    → length buffer < offset + (k + 2) + n
    → decode_framed buffer offset decode_payload ≡ err incomplete
unfolding decode_framed
decode_framed-short buffer offset decode_payload type k n peek tells found fits short =
    elim (Bool-cases (ltb (length buffer) (offset + k + 2))) [
      | inl e ↦ rw (peek, tells, e) refl
      | inr e ↦
          (let (hi, lo) = found (ground arith) in
            let cut : ltb (length buffer) (offset + (k + 2) + n) ≡ true = ground arith in
            rw (peek, tells, e, hi, lo, length-told n fits, cut) refl)
    ]

-- The header as the reader finds it, before `rest`.
pub length_bytes :
    (front type_bytes rest : List ℕ) (n : ℕ)
    → let buffer = front ++ (type_bytes ++ (high n ∷ low n ∷ rest)) in
      let at_length = length front + length type_bytes in
      (get_or buffer at_length 0 ≡ high n)
      × (get_or buffer (at_length + 1) 0 ≡ low n)
      × (drop (length front + (length type_bytes + 2)) buffer ≡ rest)
      × (length buffer ≡ at_length + 2 + length rest)
length_bytes front type_bytes rest n =
    let whole = sym (append_assoc front type_bytes (high n ∷ low n ∷ rest)) in
    let size = length-append front type_bytes in
    rw (whole, ← size)
      (
        ap (λ (k : ℕ). get_or ((front ++ type_bytes) ++ (high n ∷ low n ∷ rest)) k 0) (omega arith)
            ∙ get_or-between (front ++ type_bytes) (high n ∷ low n ∷ rest) 0,
        get_or-between (front ++ type_bytes) (high n ∷ low n ∷ rest) 1,
        rw (sym (append_assoc (front ++ type_bytes) (high n ∷ low n ∷ []) rest)) (
            drop-append_eq (length front + (length type_bytes + 2))
              ((front ++ type_bytes) ++ (high n ∷ low n ∷ [])) rest
              (omega (arith, size, length-append (front ++ type_bytes) (high n ∷ low n ∷ [])))),
        omega (arith, length-append (front ++ type_bytes) (high n ∷ low n ∷ rest)),
      )
