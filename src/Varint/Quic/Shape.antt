-- ===== src/Varint/Quic/Shape.antt =====
-- What VarInt.encode writes, in plain arithmetic.
use moq_web.Base.{ℕ, ◌+◌, ◌*◌, ◌/◌, ◌^◌, ◌<◌, ◌≡◌, ◌∙◌, [], ◌∷◌, bit_or, arith, cons_eq, refl}
use moq_web.Base.Bits.{shl, bit_or-shl, bit_or_comm, bit_and-byte}
use moq_web.Base.Bytes.{be_bytes}
use moq_web.Varint.Quic.{encode_bytes}

prefixed : (k p v : ℕ) → v < 2 ^ k → bit_or v (shl p k) ≡ shl p k + v
prefixed k p v h = bit_or_comm v (shl p k) ∙ bit_or-shl k p v h

ruleset byte_laws = (bit_and-byte)

pub encode_bytes_1 : (v : ℕ) → v < 2 ^ 6 → encode_bytes 1 v ≡ v ∷ []
unfolding encode_bytes
encode_bytes_1 v h = rw (prefixed 6 0 v h) (cons_eq (omega arith) refl)

pub encode_bytes_2 : (v : ℕ) → v < 2 ^ 14 → encode_bytes 2 v ≡ (64 + v / 2 ^ 8) ∷ be_bytes 1 v
unfolding encode_bytes
encode_bytes_2 v h =
    rw (prefixed 14 1 v h) (simp byte_laws (cons_eq (omega arith) (cons_eq (omega arith) refl)))

pub encode_bytes_4 : (v : ℕ) → v < 2 ^ 30 → encode_bytes 4 v ≡ (2 * 64 + v / 2 ^ 24) ∷ be_bytes 3 v
unfolding encode_bytes
encode_bytes_4 v h = rw (prefixed 30 2 v h) (
    simp byte_laws (
      cons_eq (omega arith)
        (cons_eq (omega arith) (cons_eq (omega arith) (cons_eq (omega arith) refl)))))

pub encode_bytes_8 : (v : ℕ) → v < 2 ^ 62 → encode_bytes 8 v ≡ (3 * 64 + v / 2 ^ 56) ∷ be_bytes 7 v
unfolding encode_bytes
encode_bytes_8 v h = rw (prefixed 62 3 v h) (
    simp byte_laws (
      cons_eq (omega arith) (
        cons_eq (omega arith) (
          cons_eq (omega arith) (
            cons_eq (omega arith) (
              cons_eq (omega arith)
                (cons_eq (omega arith) (cons_eq (omega arith) (cons_eq (omega arith) refl)))))))))
