-- ===== src/Varint/Quic.antt =====
-- class VarInt of packages/core/src/encoding/varint.ts. A value is an integer, as `BigInt(value)`
-- makes it; a buffer is a list of bytes.
pub mod Shape
pub mod RoundTrip
pub mod Bounds
use moq_web.Base.{
  ℕ, suc, ◌+◌, ◌-◌, ◌≤◌, bit_and, bit_or, List, [], ◌∷◌, length, get_or, Result, ok, err, ◌>>=◌,
  ltb, leb, ◌==◌, if◌then◌else◌,
}
use moq_web.Base.Int.{ℤ, pos, negsuc}
use moq_web.Base.Bits.{shl, shr}
use moq_web.Base.Bytes.{byte_at, join_be, bytes_from, write_at}
use moq_web.Varint.{
  VarIntError, negative, too_large, underflow, buffer_too_small, unsafe_number, max_safe_integer,
}

abbrev pub varint_max : ℕ
varint_max = 4611686018427387903

abbrev pub varint_max_1_byte : ℕ
varint_max_1_byte = 63

abbrev pub varint_max_2_byte : ℕ
varint_max_2_byte = 16383

abbrev pub varint_max_4_byte : ℕ
varint_max_4_byte = 1073741823

unfoldable pub encoded_length : ℤ → Result VarIntError ℕ
encoded_length (negsuc n) = err negative
encoded_length (pos v) =
    if leb v varint_max_1_byte
    then ok 1
    else if leb v varint_max_2_byte
    then ok 2
    else if leb v varint_max_4_byte
    then ok 4
    else if leb v varint_max
    then ok 8
    else err too_large

-- The `switch` of `encode`. `Number(v) | (0b10 << 30)` is negative as an int32; its bytes are those
-- of the same 32 digits read without a sign.
unfoldable pub encode_bytes : ℕ → ℕ → List ℕ
encode_bytes length v =
    if length == 1
    then bit_or v (shl 0b00 6) ∷ []
    else if length == 2
    then (let val = bit_or v (shl 0b01 14) in byte_at val 8 ∷ bit_and val 0xff ∷ [])
    else if length == 4
    then (let val = bit_or v (shl 0b10 30) in
        byte_at val 24 ∷ byte_at val 16 ∷ byte_at val 8 ∷ bit_and val 0xff ∷ [])
    else (let val = bit_or v (shl 0b11 62) in
        byte_at val 56
        ∷ byte_at val 48
        ∷ byte_at val 40
        ∷ byte_at val 32
        ∷ byte_at val 24
        ∷ byte_at val 16
        ∷ byte_at val 8
        ∷ bit_and val 0xff
        ∷ [])

unfoldable pub encode_with : ℤ → ℕ → Result VarIntError (List ℕ)
unfolding encode_bytes
encode_with (negsuc n) length = err negative
encode_with (pos v) length = ok (encode_bytes length v)

unfoldable pub encode : ℤ → Result VarIntError (List ℕ)
unfolding encode_with
encode v = do length ← encoded_length v; encode_with v length

-- The buffer after the write, and the number of bytes written.
unfoldable pub encode_to : ℤ → List ℕ → ℕ → Result VarIntError (List ℕ × ℕ)
encode_to value buffer offset = do
  encoded ← encode value
  (if ltb (length buffer) (offset + length encoded)
      then err buffer_too_small
      else ok (write_at buffer offset encoded, length encoded))

unfoldable pub length_from_first_byte : ℕ → ℕ
length_from_first_byte first_byte =
    let prefix = bit_and (shr first_byte 6) 0b11 in get_or (1 ∷ 2 ∷ 4 ∷ 8 ∷ []) prefix 0

-- The four cases of the second `switch` of `decode` are one chain of shifts and `|`.
unfoldable pub decode : List ℕ → ℕ → Result VarIntError (ℕ × ℕ)
unfolding length_from_first_byte
decode buffer offset =
    if leb (length buffer) offset
    then err underflow
    else (let first_byte = get_or buffer offset 0 in
        let n = length_from_first_byte first_byte in
        if ltb (length buffer) (offset + n)
        then err underflow
        else ok (join_be (bit_and first_byte 0x3f) (bytes_from buffer (offset + 1) (n - 1)), n))

unfoldable pub decode_number : List ℕ → ℕ → Result VarIntError (ℕ × ℕ)
decode_number buffer offset = do
  (value, bytes_read) ← decode buffer offset
  (if ltb max_safe_integer value then err unsafe_number else ok (value, bytes_read))
