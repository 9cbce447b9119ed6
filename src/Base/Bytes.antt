-- ===== src/Base/Bytes.antt =====
-- Byte strings (`Uint8Array`) as lists of numbers, and big-endian numbers in them.
use Prim.Native.Nat.{ℕ, zero, suc, ◌+◌, ◌*◌, ◌/◌, ◌%◌, ◌^◌, ◌≤◌, ◌<◌, bit_and, bit_or}
use mathlib.Core.Path.{◌≡◌, refl, sym, ap, ◌∙◌}
use mathlib.Core.List.{List, [], ◌∷◌, ◌++◌, append_assoc}
use native.Mathlib.Omega.{arith}
use native.Mathlib.Nat.{
  one-le-pow, div-add-mod, div-add-mod', mod-lt, mod-eq_of_lt, add-mul-mod_self_left,
}
use native.Mathlib.Numerals.{towards_suc}
use moq_web.Base.Bits.{shl, shr, bit_or-shl, bit_and-byte}
use moq_web.Base.Lists.{
  length, length-append, length-take, length-drop, take-append_eq, get_or, take, drop, All,
}

abbrev pub IsByte : ℕ → Type 0
IsByte b = b < 256

-- `(v >> k) & 0xff`
abbrev pub byte_at : ℕ → ℕ → ℕ
byte_at v k = bit_and (shr v k) 0xff

-- `(x << 8n) | (b1 << 8(n-1)) | … | bn`, for the bytes `b1 … bn`.
or_bytes : ℕ → List ℕ → ℕ
or_bytes acc [] = acc
or_bytes acc (b ∷ bs) = or_bytes (bit_or acc (shl b (8 * length bs))) bs

unfoldable pub join_be : ℕ → List ℕ → ℕ
unfolding or_bytes
join_be x bs = or_bytes (shl x (8 * length bs)) bs

-- `buffer[i], …, buffer[i + n - 1]`
unfoldable pub bytes_from : List ℕ → ℕ → ℕ → List ℕ
bytes_from buffer i zero = []
bytes_from buffer i (suc n) = get_or buffer i 0 ∷ bytes_from buffer (i + 1) n

-- `buffer.set(bytes, offset)`, where the bytes fit.
unfoldable pub write_at : List ℕ → ℕ → List ℕ → List ℕ
write_at buffer offset bytes = take offset buffer ++ (bytes ++ drop (offset + length bytes) buffer)

-- The number that a byte string stands for, most significant byte first.
abbrev pub of_be : List ℕ → ℕ
of_be [] = 0
of_be (b ∷ bs) = b * 2 ^ (8 * length bs) + of_be bs

-- The `n` low bytes of a number.
abbrev pub be_bytes : ℕ → ℕ → List ℕ
be_bytes zero v = []
be_bytes (suc n) v = byte_at v (8 * n) ∷ be_bytes n v

pub length-be_bytes : (n v : ℕ) → length (be_bytes n v) ≡ n
length-be_bytes zero v = refl
length-be_bytes (suc n) v = ap suc (length-be_bytes n v)

pub be_bytes-IsByte : (n v : ℕ) → All IsByte (be_bytes n v)
be_bytes-IsByte zero v = tt
be_bytes-IsByte (suc n) v = (omega (arith, bit_and-byte (shr v (8 * n))), be_bytes-IsByte n v)

pub eight_more : (n : ℕ) → 2 ^ (8 * suc n) ≡ 256 * 2 ^ (8 * n)
eight_more n = let e : 8 * suc n ≡ 8 * n + 8 = omega arith in rw e (simp towards_suc (omega arith))

pub base_pos : (n : ℕ) → 1 ≤ 2 ^ n
base_pos n = one-le-pow n 2 (omega arith)

-- A remainder by `256 * p` has the byte above `p` and the remainder by `p`.
digit_mod : (p v : ℕ) → 1 ≤ p → v % (256 * p) ≡ v / p % 256 * p + v % p
digit_mod p v h =
    let low : ℕ = v / p % 256 * p + v % p in
    let high : ℕ = v / p / 256 in
    let whole : v ≡ low + 256 * p * high =
      omega (arith, div-add-mod v p, ap (λ (t : ℕ). p * t) (div-add-mod (v / p) 256)) in
    let fits : low < 256 * p = grind (arith, mod-lt v h, mod-lt (v / p) {m = 256}) in
    ap (λ (t : ℕ). t % (256 * p)) whole
    ∙ add-mul-mod_self_left low (256 * p) high
    ∙ mod-eq_of_lt fits

pub of_be-be_bytes : (n v : ℕ) → of_be (be_bytes n v) ≡ v % 2 ^ (8 * n)
of_be-be_bytes zero v = omega arith
of_be-be_bytes (suc n) v =
    rw (length-be_bytes n v, of_be-be_bytes n v, bit_and-byte (shr v (8 * n)), eight_more n)
      (sym (digit_mod (2 ^ (8 * n)) v (base_pos (8 * n))))

pub of_be-lt : (bs : List ℕ) → All IsByte bs → of_be bs < 2 ^ (8 * length bs)
of_be-lt [] h = omega arith
of_be-lt (b ∷ bs) (h, hs) =
    rw (eight_more (length bs)) (grind (arith, of_be-lt bs hs, base_pos (8 * length bs)))

or_bytes-of_be :
    (acc x : ℕ) (bs : List ℕ)
    → All IsByte bs
    → acc ≡ shl x (8 * length bs)
    → or_bytes acc bs ≡ acc + of_be bs
unfolding or_bytes
or_bytes-of_be acc x [] h e = omega arith
or_bytes-of_be acc x (b ∷ bs) (hb, hs) e =
    let p : ℕ = 2 ^ (8 * length bs) in
    let fits : shl b (8 * length bs) < 2 ^ (8 * suc (length bs)) =
      rw (eight_more (length bs)) (grind (arith, base_pos (8 * length bs))) in
    let joined : bit_or acc (shl b (8 * length bs)) ≡ acc + shl b (8 * length bs) =
      rw e (bit_or-shl (8 * suc (length bs)) x (shl b (8 * length bs)) fits) in
    let aligned : acc ≡ x * (256 * p) = rw (← eight_more (length bs)) e in
    omega (
      arith,
      joined,
      or_bytes-of_be (bit_or acc (shl b (8 * length bs))) (x * 256 + b) bs hs (omega arith),
    )

-- The chain of shifts and `|` reads a big-endian number.
pub join_be-of_be :
    (x : ℕ) (bs : List ℕ) → All IsByte bs → join_be x bs ≡ x * 2 ^ (8 * length bs) + of_be bs
unfolding join_be
join_be-of_be x bs h = or_bytes-of_be (shl x (8 * length bs)) x bs h refl

pub get_or-IsByte : (bs : List ℕ) (i : ℕ) → All IsByte bs → IsByte (get_or bs i 0)
get_or-IsByte [] i h = omega arith
get_or-IsByte (b ∷ bs) zero h = h.0
get_or-IsByte (b ∷ bs) (suc i) h = get_or-IsByte bs i h.1

bytes_from-cons :
    (b : ℕ) (bs : List ℕ) (i n : ℕ) → bytes_from (b ∷ bs) (suc i) n ≡ bytes_from bs i n
unfolding bytes_from
bytes_from-cons b bs i zero = refl
bytes_from-cons b bs i (suc n) =
    let next : suc i + 1 ≡ suc (i + 1) = omega arith in
    ap (λ (t : List ℕ). get_or bs i 0 ∷ t)
      (ap (λ (k : ℕ). bytes_from (b ∷ bs) k n) next ∙ bytes_from-cons b bs (i + 1) n)

bytes_from_start : (bs back : List ℕ) → bytes_from (bs ++ back) 0 (length bs) ≡ bs
unfolding bytes_from
bytes_from_start [] back = refl
bytes_from_start (b ∷ bs) back =
    ap (λ (t : List ℕ). b ∷ t)
      (bytes_from-cons b (bs ++ back) 0 (length bs) ∙ bytes_from_start bs back)

-- The bytes that stand between a front and a back part of a buffer.
pub bytes_from-append :
    (front bs back : List ℕ) → bytes_from (front ++ (bs ++ back)) (length front) (length bs) ≡ bs
bytes_from-append [] bs back = bytes_from_start bs back
bytes_from-append (x ∷ front) bs back =
    bytes_from-cons x (front ++ (bs ++ back)) (length front) (length bs)
    ∙ bytes_from-append front bs back

pub bytes_from-IsByte :
    (buffer : List ℕ) (i n : ℕ) → All IsByte buffer → All IsByte (bytes_from buffer i n)
unfolding bytes_from
bytes_from-IsByte buffer i zero h = tt
bytes_from-IsByte buffer i (suc n) h =
    (get_or-IsByte buffer i h, bytes_from-IsByte buffer (i + 1) n h)

pub length-bytes_from : (buffer : List ℕ) (i n : ℕ) → length (bytes_from buffer i n) ≡ n
unfolding bytes_from
length-bytes_from buffer i zero = refl
length-bytes_from buffer i (suc n) = ap suc (length-bytes_from buffer (i + 1) n)

-- A reader at the first of some bytes finds it and the ones behind it.
pub read_append :
    (front : List ℕ) (b : ℕ) (bs back : List ℕ)
    → let buffer = front ++ (b ∷ (bs ++ back)) in
      (get_or buffer (length front) 0 ≡ b) × (bytes_from buffer (length front + 1) (length bs) ≡ bs)
unfolding bytes_from
read_append front b bs back =
    let whole = bytes_from-append front (b ∷ bs) back in
    (ap (λ (t : List ℕ). get_or t 0 0) whole, ap (λ (t : List ℕ). drop 1 t) whole)

pub length-between :
    (front : List ℕ) (b : ℕ) (bs back : List ℕ)
    → length (front ++ (b ∷ (bs ++ back))) ≡ length front + suc (length bs) + length back
length-between front b bs back =
    omega (arith, length-append front (b ∷ (bs ++ back)), length-append bs back)

-- The high part of a number and its `n` low bytes make up the number again.
pub join_be-be_bytes : (n v x : ℕ) → x ≡ v / 2 ^ (8 * n) → join_be x (be_bytes n v) ≡ v
join_be-be_bytes n v x e =
    join_be-of_be x (be_bytes n v) (be_bytes-IsByte n v)
    ∙ rw (length-be_bytes n v, of_be-be_bytes n v, e) (div-add-mod' v (2 ^ (8 * n)))

-- A write that fits leaves the size of the buffer, and what stands before it.
pub length-write_at :
    (buffer : List ℕ) (offset : ℕ) (bytes : List ℕ)
    → offset + length bytes ≤ length buffer
    → length (write_at buffer offset bytes) ≡ length buffer
unfolding write_at
length-write_at buffer offset bytes h = omega (
  arith,
  length-append (take offset buffer) (bytes ++ drop (offset + length bytes) buffer),
  length-append bytes (drop (offset + length bytes) buffer),
  length-take offset buffer,
  length-drop (offset + length bytes) buffer,
)

pub take-write_at :
    (buffer : List ℕ) (offset : ℕ) (bytes : List ℕ)
    → offset ≤ length buffer
    → take (offset + length bytes) (write_at buffer offset bytes) ≡ take offset buffer ++ bytes
unfolding write_at
take-write_at buffer offset bytes h =
    let rest = drop (offset + length bytes) buffer in
    let size : offset + length bytes ≡ length (take offset buffer ++ bytes) =
      omega (arith, length-append (take offset buffer) bytes, length-take offset buffer) in
    rw (← append_assoc (take offset buffer) bytes rest)
      (take-append_eq (offset + length bytes) (take offset buffer ++ bytes) rest size)
