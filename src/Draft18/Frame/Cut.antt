-- ===== src/Draft18/Frame/Cut.antt =====
-- decodeFramed on a frame that is cut short.
use moq_web.Base.{
  ℕ, zero, suc, ◌+◌, ◌-◌, ◌≤◌, ◌<◌, ◌≡◌, refl, sym, ap, ◌∙◌, List, [], ◌∷◌, ◌++◌, length,
  length-append, length-take, take-append_left, take-append_right, get_or, take, min, Bool-cases,
  inl, inr, Result, ok, err, ltb, arith,
}
use moq_web.Base.Int.{pos}
use moq_web.Varint.{max_safe_integer, underflow}
use moq_web.Varint.Moqt.{encode, decode, decode_number, length_from_first_byte}
use moq_web.Buffers.Reader.{BufferReader}
use moq_web.Buffers.Writer.{BufferWriter, to_uint8_array}
use moq_web.Draft18.{CodecError, incomplete}
use moq_web.Draft18.Frame.{encode_framed, peek_message_type, decode_framed}
use moq_web.Draft18.Frame.Parts.{
  high, low, encode_framed-IsFrame, written-payload, first_byte_tells, get_or-between, peek-framed,
  decode_framed-short, length_bytes,
}

decode_number-cut :
    (type : ℕ) (front type_bytes : List ℕ) (k : ℕ)
    → encode (pos type) ≡ ok type_bytes
    → k < length type_bytes
    → decode_number (front ++ take k type_bytes) (length front) ≡ err underflow
unfolding decode_number decode
decode_number-cut type front [] k typed h = absurd (omega arith)
decode_number-cut type front (b ∷ rest) zero typed h = ground (arith, length-append front [])
decode_number-cut type front (b ∷ rest) (suc j) typed h =
    let whole = first_byte_tells type front (b ∷ rest) [] typed in
    let first = get_or-between front (b ∷ (rest ++ [])) 0 in
    let cut = get_or-between front (b ∷ take j rest) 0 in
    let start : length front + 0 ≡ length front = omega arith in
    let tells : length_from_first_byte b ≡ suc (length rest) = rw (← (rw start at first)) whole in
    let size = length-append front (b ∷ take j rest) in
    let taken = length-take j rest in
    let here : get_or (front ++ (b ∷ take j rest)) (length front) 0 ≡ b = rw start at cut in
    rw (here, tells) (ground (arith, size, taken))

peek-cut :
    (type : ℕ) (front type_bytes : List ℕ) (k : ℕ)
    → encode (pos type) ≡ ok type_bytes
    → k < length type_bytes
    → peek_message_type (front ++ take k type_bytes) (length front) ≡ err incomplete
unfolding peek_message_type
peek-cut type front type_bytes k typed h =
    rw (peek_message_type, decode_number-cut type front type_bytes k typed h) refl

length-parts :
    (front type_bytes xs : List ℕ)
    → length (front ++ (type_bytes ++ xs)) ≡ length front + length type_bytes + length xs
length-parts front type_bytes xs =
    omega (arith, length-append front (type_bytes ++ xs), length-append type_bytes xs)

-- The two bytes of the length and what is there of the body, when at least the two bytes are there.
length_bytes-cut :
    (front type_bytes body : List ℕ) (n j : ℕ)
    → let buffer = front ++ (type_bytes ++ take j (high n ∷ low n ∷ body)) in
      let at_length = length front + length type_bytes in
      (length buffer ≡ at_length + min j (2 + length body))
      × (at_length + 2 ≤ length buffer
          → (get_or buffer at_length 0 ≡ high n) × (get_or buffer (at_length + 1) 0 ≡ low n))
length_bytes-cut front type_bytes body n zero = (
  omega (arith, length-parts front type_bytes []),
  λ h. absurd (omega (arith, length-parts front type_bytes [])),
)
length_bytes-cut front type_bytes body n (suc zero) = (
  omega (arith, length-parts front type_bytes (high n ∷ [])),
  λ h. absurd (omega (arith, length-parts front type_bytes (high n ∷ []))),
)
length_bytes-cut front type_bytes body n (suc (suc j)) =
    let (hi, lo, rest, size) = length_bytes front type_bytes (take j body) n in
    (omega (arith, size, length-take j body), λ h. (hi, lo))

-- Of a frame that encodeFramed wrote for a type that is a safe integer, any number of bytes short of
-- all make decodeFramed throw that the message is incomplete, whatever the body's decoder.
pub decode_framed-cut :
    {T : Type 0} (type : ℕ) (encode_payload : BufferWriter → Result CodecError BufferWriter)
    (decode_payload : BufferReader → Result CodecError (T × BufferReader)) (front bytes : List ℕ)
    (k : ℕ)
    → type ≤ max_safe_integer
    → encode_framed type encode_payload ≡ ok bytes
    → k < length bytes
    → decode_framed (front ++ take k bytes) (length front) decode_payload ≡ err incomplete
unfolding decode_framed
decode_framed-cut type encode_payload decode_payload front bytes k safe e h =
    let (w, written) = written-payload type encode_payload bytes e in
    let frame = encode_framed-IsFrame type encode_payload w bytes written e in
    let tb = frame.type_bytes in
    let payload = to_uint8_array w in
    let n = length payload in
    let body = high n ∷ low n ∷ payload in
    let count = length-append tb body in
    let count' = ap length frame.joined in
    elim (Bool-cases (ltb k (length tb))) [
      | inl few ↦
          (let cut : take k bytes ≡ take k tb =
              rw frame.joined (take-append_left k tb body (ground arith)) in
            rw (cut, decode_framed, peek-cut type front tb k frame.typed (ground arith)) refl)
      | inr many ↦
          (let j = k - length tb in
            let all : length tb + j ≡ k = ground arith in
            let cut : take k bytes ≡ tb ++ take j body =
              ap (take k) frame.joined
              ∙ ap (λ (m : ℕ). take m (tb ++ body)) (sym all)
              ∙ take-append_right j tb body in
            let (size, found) = length_bytes-cut front tb payload n j in
            rw cut (
              decode_framed-short _ (length front) decode_payload type (length tb) n
                (peek-framed type front tb (take j body) frame.typed safe)
                (first_byte_tells type front tb (take j body) frame.typed) found frame.fits
                (omega (arith, size, all, count, count'))))
    ]
