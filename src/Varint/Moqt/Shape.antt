-- ===== src/Varint/Moqt/Shape.antt =====
-- What MOQTVarInt.encode writes and what a first byte announces, in plain arithmetic.
use moq_web.Base.{
  ℕ, zero, suc, ◌+◌, ◌-◌, ◌*◌, ◌/◌, ◌%◌, ◌^◌, ◌≤◌, ◌<◌, ◌≡◌, refl, ◌∷◌, bit_or, bit_and, arith,
  cons_eq, Bool, true, ◌&&◌, ◌==◌, ==_iff, ltb, ok, if◌then◌else◌,
}
use moq_web.Base.Bits.{shl, bit_or-shl, bit_and-mask, bit_and-byte}
use moq_web.Base.Bytes.{byte_at, be_bytes}
use native.Mathlib.Nat.{mod-lt}
use moq_web.Base.Int.{pos}
use moq_web.Varint.Moqt.{encoded_length, encode_bytes, length_from_first_byte}

-- Over a small range a fact is checked at every value.
every_below : (ℕ → Bool) → ℕ → Bool
every_below test zero = true
every_below test (suc bound) = every_below test bound && test bound

every_below-at :
    (test : ℕ → Bool) (bound b : ℕ) → b < bound → every_below test bound ≡ true → test b ≡ true
unfolding every_below
every_below-at test zero b inside checked = absurd (omega arith)
every_below-at test (suc bound) b inside checked = ground (arith, every_below-at test bound b)

-- The length that a first byte announces, by the range that it lies in.
abbrev pub announced : ℕ → ℕ
announced b =
    if ltb b 128
    then 1
    else if ltb b 192
    then 2
    else if ltb b 224
    then 3
    else if ltb b 240
    then 4
    else if ltb b 248
    then 5
    else if ltb b 252
    then 6
    else if ltb b 254
    then 7
    else if ltb b 255
    then 8
    else 9

announced_table : every_below (λ b. length_from_first_byte b == announced b) 256 ≡ true
unfolding every_below length_from_first_byte
announced_table = refl

pub length_from_first_byte-announced : (b : ℕ) → b < 256 → length_from_first_byte b ≡ announced b
length_from_first_byte-announced b h = (==_iff _ _).0 (every_below-at _ 256 b h announced_table)

-- `p` above the `k` low bits of `x`.
tagged : (k p x : ℕ) → 0 < 2 ^ k → bit_or (shl p k) (bit_and x (2 ^ k - 1)) ≡ shl p k + x % 2 ^ k
tagged k p x h = rw (bit_and-mask k x) (bit_or-shl k p (x % 2 ^ k) (mod-lt x h))

last_byte : (v : ℕ) → bit_and v 0xff ≡ byte_at v 0
last_byte v = omega (arith, bit_and-byte v, bit_and-byte (v / 2 ^ 0))

pub encode_bytes_2 : (v : ℕ) → v < 2 ^ 14 → encode_bytes 2 v ≡ (128 + v / 2 ^ 8) ∷ be_bytes 1 v
unfolding encode_bytes
encode_bytes_2 v h =
    rw (last_byte v, tagged 6 2 (v / 2 ^ 8) (omega arith)) (cons_eq (omega arith) refl)

pub encode_bytes_3 : (v : ℕ) → v < 2 ^ 21 → encode_bytes 3 v ≡ (192 + v / 2 ^ 16) ∷ be_bytes 2 v
unfolding encode_bytes
encode_bytes_3 v h =
    rw (last_byte v, tagged 5 6 (v / 2 ^ 16) (omega arith)) (cons_eq (omega arith) refl)

pub encode_bytes_4 : (v : ℕ) → v < 2 ^ 28 → encode_bytes 4 v ≡ (224 + v / 2 ^ 24) ∷ be_bytes 3 v
unfolding encode_bytes
encode_bytes_4 v h =
    rw (last_byte v, tagged 4 14 (v / 2 ^ 24) (omega arith)) (cons_eq (omega arith) refl)

pub encode_bytes_5 : (v : ℕ) → v < 2 ^ 35 → encode_bytes 5 v ≡ (240 + v / 2 ^ 32) ∷ be_bytes 4 v
unfolding encode_bytes
encode_bytes_5 v h =
    rw (last_byte v, tagged 3 30 (v / 2 ^ 32) (omega arith)) (cons_eq (omega arith) refl)

pub encode_bytes_6 : (v : ℕ) → v < 2 ^ 42 → encode_bytes 6 v ≡ (248 + v / 2 ^ 40) ∷ be_bytes 5 v
unfolding encode_bytes
encode_bytes_6 v h =
    rw (last_byte v, tagged 2 62 (v / 2 ^ 40) (omega arith)) (cons_eq (omega arith) refl)

pub encode_bytes_7 : (v : ℕ) → v < 2 ^ 49 → encode_bytes 7 v ≡ (252 + v / 2 ^ 48) ∷ be_bytes 6 v
unfolding encode_bytes
encode_bytes_7 v h =
    rw (last_byte v, tagged 1 126 (v / 2 ^ 48) (omega arith)) (cons_eq (omega arith) refl)

pub encode_bytes_8 : (v : ℕ) → encode_bytes 8 v ≡ 254 ∷ be_bytes 7 v
unfolding encode_bytes
encode_bytes_8 v = rw (last_byte v)

pub encode_bytes_9 : (v : ℕ) → encode_bytes 9 v ≡ 255 ∷ be_bytes 8 v
unfolding encode_bytes
encode_bytes_9 v = rw (last_byte v)

-- One more than the largest value that `n` bytes hold.
abbrev pub capacity : ℕ → ℕ
capacity n = if n == 9 then 2 ^ 64 else 2 ^ (7 * n)

pub encoded_length_bounds :
    (v n : ℕ) → encoded_length (pos v) ≡ ok n → (1 ≤ n) × (n ≤ 9) × (v < capacity n)
unfolding encoded_length
encoded_length_bounds v n h = ground arith

pub encoded_length_least :
    (m v n : ℕ) → encoded_length (pos v) ≡ ok n → 1 ≤ m → m ≤ 9 → v < capacity m → n ≤ m
unfolding encoded_length
encoded_length_least zero v n h lo hi k = absurd (omega arith)
encoded_length_least (suc zero) v n h lo hi k = ground arith
encoded_length_least (suc (suc zero)) v n h lo hi k = ground arith
encoded_length_least (suc (suc (suc zero))) v n h lo hi k = ground arith
encoded_length_least (suc (suc (suc (suc zero)))) v n h lo hi k = ground arith
encoded_length_least (suc (suc (suc (suc (suc zero))))) v n h lo hi k = ground arith
encoded_length_least (suc (suc (suc (suc (suc (suc zero)))))) v n h lo hi k = ground arith
encoded_length_least (suc (suc (suc (suc (suc (suc (suc zero))))))) v n h lo hi k = ground arith
encoded_length_least (suc (suc (suc (suc (suc (suc (suc (suc zero)))))))) v n h lo hi k =
    ground arith
encoded_length_least (suc (suc (suc (suc (suc (suc (suc (suc (suc zero))))))))) v n h lo hi k =
    ground arith
encoded_length_least (suc (suc (suc (suc (suc (suc (suc (suc (suc (suc m)))))))))) v n h lo hi k =
    absurd (omega arith)
