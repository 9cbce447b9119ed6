-- ===== src/Varint/Moqt.antt =====
-- class MOQTVarInt of packages/core/src/encoding/moqt-varint.ts: the number of leading ones of the
-- first byte is the number of bytes behind it. A value is an integer, as `BigInt(value)` makes it.
pub mod Shape
pub mod RoundTrip
pub mod Bounds
use moq_web.Base.{
  ℕ, zero, suc, ◌+◌, ◌-◌, bit_and, bit_or, List, [], ◌∷◌, length, get_or, Result, ok, err, ◌>>=◌,
  ltb, leb, ◌==◌, if◌then◌else◌, true, false,
}
use moq_web.Base.Int.{ℤ, pos, negsuc}
use moq_web.Base.Bits.{shl, shr}
use moq_web.Base.Bytes.{byte_at, join_be, bytes_from, write_at}
use moq_web.Varint.{
  VarIntError, negative, too_large, underflow, buffer_too_small, unsafe_number, max_safe_integer,
}

abbrev pub moqt_varint_max : ℕ
moqt_varint_max = 18446744073709551615

-- `toSafeNumber`
unfoldable pub to_safe_number : ℕ → Result VarIntError ℕ
to_safe_number value = if ltb max_safe_integer value then err unsafe_number else ok value

-- The loop of `countLeadingOnes`, with `rounds` bits to go: `i` is `rounds - 1`.
unfoldable pub count_ones_from : ℕ → ℕ → ℕ → ℕ
count_ones_from zero byte count = count
count_ones_from (suc i) byte count = elim (bit_and byte (shl 1 i) == 0) [
  | true ↦ count
  | false ↦ count_ones_from i byte (count + 1)
]

unfoldable pub count_leading_ones : ℕ → ℕ
unfolding count_ones_from
count_leading_ones byte = count_ones_from 8 byte 0

unfoldable pub length_from_first_byte : ℕ → ℕ
unfolding count_leading_ones
length_from_first_byte first_byte =
    let leading_ones = count_leading_ones first_byte in
    if ltb leading_ones 8 then leading_ones + 1 else 9

unfoldable pub encoded_length : ℤ → Result VarIntError ℕ
encoded_length (negsuc n) = err negative
encoded_length (pos v) =
    if leb v 127
    then ok 1
    else if leb v 16383
    then ok 2
    else if leb v 2097151
    then ok 3
    else if leb v 268435455
    then ok 4
    else if leb v 34359738367
    then ok 5
    else if leb v 4398046511103
    then ok 6
    else if leb v 562949953421311
    then ok 7
    else if leb v 72057594037927935
    then ok 8
    else if leb v moqt_varint_max
    then ok 9
    else err too_large

-- The `switch` of `encode`.
unfoldable pub encode_bytes : ℕ → ℕ → List ℕ
encode_bytes length v =
    if length == 1
    then v ∷ []
    else if length == 2
    then bit_or 0b10000000 (bit_and (shr v 8) 0x3f) ∷ bit_and v 0xff ∷ []
    else if length == 3
    then bit_or 0b11000000 (bit_and (shr v 16) 0x1f) ∷ byte_at v 8 ∷ bit_and v 0xff ∷ []
    else if length == 4
    then bit_or 0b11100000 (bit_and (shr v 24) 0x0f)
      ∷ byte_at v 16
      ∷ byte_at v 8
      ∷ bit_and v 0xff
      ∷ []
    else if length == 5
    then bit_or 0b11110000 (bit_and (shr v 32) 0x07)
      ∷ byte_at v 24
      ∷ byte_at v 16
      ∷ byte_at v 8
      ∷ bit_and v 0xff
      ∷ []
    else if length == 6
    then bit_or 0b11111000 (bit_and (shr v 40) 0x03)
      ∷ byte_at v 32
      ∷ byte_at v 24
      ∷ byte_at v 16
      ∷ byte_at v 8
      ∷ bit_and v 0xff
      ∷ []
    else if length == 7
    then bit_or 0b11111100 (bit_and (shr v 48) 0x01)
      ∷ byte_at v 40
      ∷ byte_at v 32
      ∷ byte_at v 24
      ∷ byte_at v 16
      ∷ byte_at v 8
      ∷ bit_and v 0xff
      ∷ []
    else if length == 8
    then 0b11111110
      ∷ byte_at v 48
      ∷ byte_at v 40
      ∷ byte_at v 32
      ∷ byte_at v 24
      ∷ byte_at v 16
      ∷ byte_at v 8
      ∷ bit_and v 0xff
      ∷ []
    else 0b11111111
      ∷ byte_at v 56
      ∷ byte_at v 48
      ∷ byte_at v 40
      ∷ byte_at v 32
      ∷ byte_at v 24
      ∷ byte_at v 16
      ∷ byte_at v 8
      ∷ bit_and v 0xff
      ∷ []

unfoldable pub encode_with : ℤ → ℕ → Result VarIntError (List ℕ)
unfolding encode_bytes
encode_with (negsuc n) length = err negative
encode_with (pos v) length = ok (encode_bytes length v)

unfoldable pub encode : ℤ → Result VarIntError (List ℕ)
unfolding encode_with
encode v = do length ← encoded_length v; encode_with v length

-- The buffer after the write, and the number of bytes written.
unfoldable pub encode_to : ℤ → List ℕ → ℕ → Result VarIntError (List ℕ × ℕ)
encode_to value buffer offset = do
  encoded ← encode value
  (if ltb (length buffer) (offset + length encoded)
      then err buffer_too_small
      else ok (write_at buffer offset encoded, length encoded))

-- `(b1 << 8(n-1)) | … | bn`, where no bits of the first byte take part.
unfoldable pub join_rest : List ℕ → ℕ
join_rest [] = 0
join_rest (b ∷ bs) = join_be b bs

-- The `switch` of `decode` on the length `n`; `rest` are the `n - 1` bytes behind the first.
unfoldable pub payload : ℕ → ℕ → List ℕ → ℕ
unfolding join_rest
payload n first_byte rest =
    if n == 1
    then bit_and first_byte 0x7f
    else if n == 2
    then join_be (bit_and first_byte 0x3f) rest
    else if n == 3
    then join_be (bit_and first_byte 0x1f) rest
    else if n == 4
    then join_be (bit_and first_byte 0x0f) rest
    else if n == 5
    then join_be (bit_and first_byte 0x07) rest
    else if n == 6
    then join_be (bit_and first_byte 0x03) rest
    else if n == 7
    then join_be (bit_and first_byte 0x01) rest
    else join_rest rest

unfoldable pub decode : List ℕ → ℕ → Result VarIntError (ℕ × ℕ)
unfolding length_from_first_byte payload
decode buffer offset =
    if leb (length buffer) offset
    then err underflow
    else (let first_byte = get_or buffer offset 0 in
        let n = length_from_first_byte first_byte in
        if ltb (length buffer) (offset + n)
        then err underflow
        else ok (payload n first_byte (bytes_from buffer (offset + 1) (n - 1)), n))

unfoldable pub decode_number : List ℕ → ℕ → Result VarIntError (ℕ × ℕ)
decode_number buffer offset = do
  (value, bytes_read) ← decode buffer offset
  (if ltb max_safe_integer value then err unsafe_number else ok (value, bytes_read))
