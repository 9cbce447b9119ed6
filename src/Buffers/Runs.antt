-- ===== src/Buffers/Runs.antt =====
-- The readers and writers on a fixed sequence of calls, with a text that is its own bytes.
use moq_web.Base.{ℕ, ◌≡◌, refl, List, [], ◌∷◌, ok, arith}
use moq_web.Base.Int.{pos}
use moq_web.Varint.Quic.{encode, encoded_length}
use moq_web.Buffers.{
  TextCodec, WriteOp, write_byte, write_bytes, write_var_int, write_string, all_bytes,
}
use moq_web.Buffers.Agreement.{preallocated, preallocated-all_bytes}
use moq_web.Buffers.ReadBack.{at, behind, read_all, read_all-all_bytes}

abbrev plain : TextCodec
plain = record {
  Text = List ℕ;
  encode_text = λ (bytes : List ℕ). bytes;
  decode_text = λ (bytes : List ℕ). bytes;
}

abbrev calls : List (WriteOp (List ℕ))
calls =
    write_byte 7
    ∷ write_var_int (pos 300)
    ∷ write_string (104 ∷ 105 ∷ [])
    ∷ write_bytes (1 ∷ 2 ∷ 3 ∷ [])
    ∷ []

abbrev written : List ℕ
written = 7 ∷ 0x41 ∷ 0x2c ∷ 2 ∷ 104 ∷ 105 ∷ 1 ∷ 2 ∷ 3 ∷ []

calls-all_bytes : all_bytes plain calls ≡ ok written
unfolding all_bytes encode encoded_length
calls-all_bytes = refl

read_all-all_bytes_example :
    read_all plain calls (at (4 ∷ []) written (5 ∷ []))
    ≡ ok (calls, behind (4 ∷ []) written (5 ∷ []))
read_all-all_bytes_example =
    read_all-all_bytes plain calls (4 ∷ []) written (5 ∷ [])
      (omega arith, (tt, ((omega arith, refl), (tt, tt)))) calls-all_bytes

preallocated-all_bytes_example : preallocated plain calls 2 ≡ all_bytes plain calls
preallocated-all_bytes_example = preallocated-all_bytes plain calls 2
