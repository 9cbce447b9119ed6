-- ===== src/Draft18/Fields.antt =====
-- What the calls on a writer put out, and what the calls on a reader make of it, field by field.
use moq_web.Base.{
  ℕ, ◌≤◌, ◌<◌, ◌≡◌, ◌∙◌, refl, sym, ap, List, [], ◌∷◌, ◌++◌, length, bit_and, concat, Result, ok,
  err, ◌>>=◌, >>=-eq-ok, ok-injective, Result-cases, inl, inr, length-append, take-append_length,
  drop-append_length, arith,
}
use mathlib.Core.List.{append-nil, append_assoc}
use moq_web.Base.Int.{pos}
use moq_web.Base.Bits.{bit_and-byte}
use moq_web.Base.Bytes.{read_append, length-between}
use moq_web.Varint.{max_safe_integer}
use moq_web.Varint.Moqt.{encode, decode_number}
use moq_web.Varint.Moqt.RoundTrip.{decode-encode_moqt}
use moq_web.Buffers.Reader.{BufferReader}
use moq_web.Buffers.Writer.{BufferWriter, add_chunk, new, to_uint8_array}
use moq_web.Buffers.Chunks.{IsCounted, to_uint8_array-concat, add_chunk_lem}
use moq_web.Buffers.ReadBack.{at, behind, at-append, behind-at}
use moq_web.Draft18.{CodecError, lift}
use moq_web.Draft18.Writer.{
  Field, var_int_field, byte_field, bytes_field, write_var_int, write_byte, write_bytes,
  write_field, write_fields, fields_to_bytes,
}
use moq_web.Draft18.Reader.{read_var_int, read_var_int_number, read_byte, read_bytes}

-- The bytes that a call is to put out, and those of a sequence of calls.
unfoldable pub field_bytes : Field → Result CodecError (List ℕ)
field_bytes (var_int_field value) = lift (encode value)
field_bytes (byte_field value) = ok (bit_and value 0xff ∷ [])
field_bytes (bytes_field bytes) = ok bytes

unfoldable pub fields_bytes : List Field → Result CodecError (List ℕ)
unfolding field_bytes
fields_bytes [] = ok []
fields_bytes (f ∷ fs) = do first ← field_bytes f; rest ← fields_bytes fs; ok (first ++ rest)

write_field_lem :
    (f : Field) (w : BufferWriter)
    → write_field f w ≡ (do bytes ← field_bytes f; ok (add_chunk bytes w))
unfolding write_field write_var_int write_byte write_bytes field_bytes
write_field_lem (var_int_field value) w = refl
write_field_lem (byte_field value) w = refl
write_field_lem (bytes_field bytes) w = refl

contents-step :
    (before first after : List ℕ) (r : Result CodecError (List ℕ))
    → after ≡ before ++ first
    → (do rest ← r; ok (after ++ rest))
      ≡ (do bytes ← (do rest ← r; ok (first ++ rest)); ok (before ++ bytes))
contents-step before first after (ok rest) e =
    ap ok (ap (λ (t : List ℕ). t ++ rest) e ∙ append_assoc before first rest)
contents-step before first after (err x) e = refl

write_fields_lem :
    (fs : List Field) (w : BufferWriter)
    → IsCounted w
    → (do w' ← write_fields fs w; ok (to_uint8_array w'))
      ≡ (do bytes ← fields_bytes fs; ok (concat w.chunks ++ bytes))
unfolding write_fields fields_bytes
write_fields_lem [] w h = ap ok (to_uint8_array-concat w h ∙ sym (append-nil (concat w.chunks)))
write_fields_lem (f ∷ fs) w h = elim (Result-cases (field_bytes f)) [
  | inl (first, e) ↦
      (let (counted, joined) = add_chunk_lem first w h in
        rw (write_field_lem f w, e)
          (write_fields_lem fs (add_chunk first w) counted
            ∙ contents-step (concat w.chunks) first (concat (add_chunk first w).chunks)
                (fields_bytes fs) joined))
  | inr (x, e) ↦ rw (write_field_lem f w, e) refl
]

fields-ok : (r : Result CodecError (List ℕ)) → (do bytes ← r; ok bytes) ≡ r
fields-ok (ok bytes) = refl
fields-ok (err e) = refl

-- A new writer puts out, through its chunks, what the calls are to put out.
pub fields_to_bytes_lem : (fs : List Field) → fields_to_bytes fs ≡ fields_bytes fs
unfolding fields_to_bytes new
fields_to_bytes_lem fs = write_fields_lem fs new refl ∙ fields-ok (fields_bytes fs)

-- The first field and the others.
pub fields_bytes-cons :
    (f : Field) (fs : List Field) (bytes : List ℕ)
    → fields_bytes (f ∷ fs) ≡ ok bytes
    → (first : List ℕ) × (rest : List ℕ) × (field_bytes f ≡ ok first)
      × (fields_bytes fs ≡ ok rest)
      × (bytes ≡ first ++ rest)
unfolding fields_bytes
fields_bytes-cons f fs bytes e =
    let (first, wrote, later) = >>=-eq-ok (field_bytes f) _ e in
    let (rest, wrote', joined) = >>=-eq-ok (fields_bytes fs) _ later in
    (first, rest, wrote, wrote', sym (ok-injective joined))

pub lift-eq-ok : {A : Type 0} (m : Result _ A) {a : A} → lift m ≡ ok a → m ≡ ok a
lift-eq-ok (ok b) e = cc
lift-eq-ok (err x) e = cc

-- What is read at the first of two runs of bytes is read at both.
read_first :
    {A : Type 0} (read : BufferReader → Result CodecError (A × BufferReader)) (a : A)
    (front first rest back : List ℕ)
    → read (at front first (rest ++ back)) ≡ ok (a, behind front first (rest ++ back))
    → read (at front (first ++ rest) back) ≡ ok (a, at (front ++ first) rest back)
read_first read a front first rest back e =
    ap read (at-append front first rest back)
    ∙ e
    ∙ ap (λ (r : BufferReader). ok (a, r)) (behind-at front first rest back)

var_int-at :
    (v : ℕ) (front first back : List ℕ)
    → encode (pos v) ≡ ok first
    → read_var_int (at front first back) ≡ ok (v, behind front first back)
unfolding read_var_int
var_int-at v front first back e = rw (decode-encode_moqt v front back first e)

var_int_number-at :
    (v : ℕ) (front first back : List ℕ)
    → encode (pos v) ≡ ok first
    → v ≤ max_safe_integer
    → read_var_int_number (at front first back) ≡ ok (v, behind front first back)
unfolding read_var_int_number decode_number
var_int_number-at v front first back e fits =
    rw (decode-encode_moqt v front back first e) (ground arith)

byte-at :
    (front : List ℕ) (b : ℕ) (back : List ℕ)
    → read_byte (at front (b ∷ []) back) ≡ ok (b, behind front (b ∷ []) back)
unfolding read_byte
byte-at front b back =
    let (head, tail) = read_append front b [] back in
    rw head (ground (arith, length-between front b [] back))

bytes-at :
    (front bytes back : List ℕ)
    → read_bytes (length bytes) (at front bytes back) ≡ ok (bytes, behind front bytes back)
unfolding read_bytes
bytes-at front bytes back =
    rw (drop-append_length front (bytes ++ back), take-append_length bytes back)
      (ground (arith, length-append front (bytes ++ back), length-append bytes back))

-- A reader at a written field reads it, and stands at the rest.
pub read_var_int-field :
    (v : ℕ) (front first rest back : List ℕ)
    → field_bytes (var_int_field (pos v)) ≡ ok first
    → read_var_int (at front (first ++ rest) back) ≡ ok (v, at (front ++ first) rest back)
unfolding field_bytes
read_var_int-field v front first rest back e =
    read_first read_var_int v front first rest back
      (var_int-at v front first (rest ++ back) (lift-eq-ok (encode (pos v)) e))

pub read_var_int_number-field :
    (v : ℕ) (front first rest back : List ℕ)
    → field_bytes (var_int_field (pos v)) ≡ ok first
    → v ≤ max_safe_integer
    → read_var_int_number (at front (first ++ rest) back) ≡ ok (v, at (front ++ first) rest back)
unfolding field_bytes
read_var_int_number-field v front first rest back e fits =
    read_first read_var_int_number v front first rest back
      (var_int_number-at v front first (rest ++ back) (lift-eq-ok (encode (pos v)) e) fits)

pub read_byte-field :
    (v : ℕ) (front first rest back : List ℕ)
    → field_bytes (byte_field v) ≡ ok first
    → v < 256
    → read_byte (at front (first ++ rest) back) ≡ ok (v, at (front ++ first) rest back)
unfolding field_bytes
read_byte-field v front first rest back e small =
    let same : bit_and v 0xff ≡ v = omega (arith, bit_and-byte v) in
    read_first read_byte v front first rest back
      (rw (← ok-injective e, same) (byte-at front v (rest ++ back)))

pub read_bytes-field :
    (front first rest back : List ℕ)
    → read_bytes (length first) (at front (first ++ rest) back)
      ≡ ok (first, at (front ++ first) rest back)
read_bytes-field front first rest back =
    read_first (read_bytes (length first)) first front first rest back
      (bytes-at front first (rest ++ back))

-- Calls one run after the other.
pub write_fields-append :
    (fs gs : List Field) (w w1 w2 : BufferWriter)
    → write_fields fs w ≡ ok w1
    → write_fields gs w1 ≡ ok w2
    → write_fields (fs ++ gs) w ≡ ok w2
unfolding write_fields
write_fields-append [] gs w w1 w2 e e' = rw (ok-injective e) e'
write_fields-append (f ∷ fs) gs w w1 w2 e e' =
    let (w', first, rest) = >>=-eq-ok (write_field f w) _ e in
    rw first (write_fields-append fs gs w' w1 w2 rest e')

pub fields_to_bytes-written :
    (fs : List Field) (w : BufferWriter)
    → write_fields fs new ≡ ok w
    → fields_to_bytes fs ≡ ok (to_uint8_array w)
unfolding fields_to_bytes
fields_to_bytes-written fs w e = rw e refl
