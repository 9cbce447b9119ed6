-- ===== src/Draft18/Cursor.antt =====
-- A reader that stands at what given calls on a writer put out, and how each read moves it on.
use moq_web.Base.{
  ◌+◌, ℕ, ◌-◌, ◌≤◌, ◌<◌, ◌≡◌, refl, sym, ap, ◌∙◌, List, [], ◌∷◌, ◌++◌, length, length-append,
  Result, ok, ok-injective, arith,
}
use mathlib.Core.List.{append_assoc}
use moq_web.Base.Int.{ℤ, pos, negsuc}
use moq_web.Varint.{max_safe_integer}
use moq_web.Varint.Moqt.{encode}
use moq_web.Buffers.Reader.{BufferReader}
use moq_web.Buffers.ReadBack.{at, reader_eq}
use moq_web.Draft18.{CodecError}
use moq_web.Draft18.Writer.{Field, var_int_field, byte_field, bytes_field, fields_to_bytes}
use moq_web.Draft18.Reader.{read_int, read_var_int, read_var_int_number, read_byte, read_bytes}
use moq_web.Draft18.Fields.{
  field_bytes, fields_bytes, fields_bytes-cons, fields_to_bytes_lem, read_var_int-field,
  read_var_int_number-field, read_byte-field, read_bytes-field,
}

-- In the buffer, before some last bytes, stand the bytes of the calls, and the reader is at the first.
abbrev pub Stands : List ℕ → List ℕ → List Field → BufferReader → Type 0
Stands buffer back fs r =
    (front : List ℕ) × (bytes : List ℕ) × (fields_bytes fs ≡ ok bytes)
    × (buffer ≡ front ++ (bytes ++ back))
    × (r ≡ at front bytes back)

-- A read gives a value, and its reader stands at the bytes of the other calls.
abbrev pub Takes {ℓ} :
    {A : Type ℓ} → List ℕ → List ℕ → List Field → A → Result CodecError (A × BufferReader) → Type ℓ
Takes buffer back fs a result =
    (r' : BufferReader) × (result ≡ ok (a, r')) × Stands buffer back fs r'

pub start :
    (fs : List Field) (front bytes back : List ℕ)
    → fields_to_bytes fs ≡ ok bytes
    → Stands (front ++ (bytes ++ back)) back fs (at front bytes back)
start fs front bytes back e = (front, bytes, sym (fields_to_bytes_lem fs) ∙ e, refl, refl)

negative : (v : ℕ) (bytes : List ℕ) → field_bytes (var_int_field (negsuc v)) ≡ ok bytes → ⊥
unfolding field_bytes encode
negative v bytes e = ground arith

module _ {buffer back : List ℕ} where
  take_field :
      {A : Type 0} (read : BufferReader → Result CodecError (A × BufferReader)) (a : A) (f : Field)
      (fs : List Field) (r : BufferReader)
      → ((front first rest : List ℕ)
          → field_bytes f ≡ ok first
          → read (at front (first ++ rest) back) ≡ ok (a, at (front ++ first) rest back))
      → Stands buffer back (f ∷ fs) r
      → Takes buffer back fs a (read r)
  take_field read a f fs r reads (front, bytes, wrote, whole, here) =
      let (first, rest, b, wrote', joined) = fields_bytes-cons f fs bytes wrote in
      let same : front ++ (bytes ++ back) ≡ (front ++ first) ++ (rest ++ back) =
        rw joined (simp append_assoc) in
      (
        at (front ++ first) rest back,
        rw (here, joined) (reads front first rest b),
        (front ++ first, rest, wrote', whole ∙ same, refl),
      )

  pub take_var_int :
      (v : ℕ) (fs : List Field) (r : BufferReader)
      → Stands buffer back (var_int_field (pos v) ∷ fs) r
      → Takes buffer back fs v (read_var_int r)
  take_var_int v fs r =
      take_field read_var_int v (var_int_field (pos v)) fs r
        (λ front first rest. read_var_int-field v front first rest back)

  pub take_var_int_number :
      (v : ℕ) (fs : List Field) (r : BufferReader)
      → v ≤ max_safe_integer
      → Stands buffer back (var_int_field (pos v) ∷ fs) r
      → Takes buffer back fs v (read_var_int_number r)
  take_var_int_number v fs r fits =
      take_field read_var_int_number v (var_int_field (pos v)) fs r
        (λ front first rest e. read_var_int_number-field v front first rest back e fits)

  -- A number of either sign: one that was written is not negative.
  pub take_int :
      (z : ℤ) (fs : List Field) (r : BufferReader)
      → Stands buffer back (var_int_field z ∷ fs) r
      → Takes buffer back fs z (read_int r)
  unfolding read_int
  take_int (pos v) fs r stands =
      let (r', read, rest) = take_var_int v fs r stands in (r', rw read refl, rest)
  take_int (negsuc v) fs r (front, bytes, wrote, whole, here) =
      let (first, rest, b, later, joined) =
        fields_bytes-cons (var_int_field (negsuc v)) fs bytes wrote in
      absurd (negative v first b)

  pub take_byte :
      (v : ℕ) (fs : List Field) (r : BufferReader)
      → v < 256
      → Stands buffer back (byte_field v ∷ fs) r
      → Takes buffer back fs v (read_byte r)
  take_byte v fs r small =
      take_field read_byte v (byte_field v) fs r
        (λ front first rest e. read_byte-field v front first rest back e small)

  pub take_bytes :
      (bytes : List ℕ) (fs : List Field) (r : BufferReader)
      → Stands buffer back (bytes_field bytes ∷ fs) r
      → Takes buffer back fs bytes (read_bytes (length bytes) r)
  unfolding field_bytes
  take_bytes bytes fs r =
      take_field (read_bytes (length bytes)) bytes (bytes_field bytes) fs r
        (λ front first rest e. rw (ok-injective e) (read_bytes-field front first rest back))

  -- Bytes that are an encoded number.
  pub as_var_int :
      (v : ℕ) (bytes : List ℕ) (fs : List Field) (r : BufferReader)
      → encode (pos v) ≡ ok bytes
      → Stands buffer back (bytes_field bytes ∷ fs) r
      → Stands buffer back (var_int_field (pos v) ∷ fs) r
  unfolding fields_bytes field_bytes
  as_var_int v bytes fs r e (front, all, wrote, whole, here) = (front, all, rw e wrote, whole, here)

  -- Behind the last call the reader stands at the last bytes.
  pub at_end :
      (r : BufferReader)
      → Stands buffer back [] r
      → r ≡ record { buffer = buffer; position = length buffer - length back }
  unfolding fields_bytes
  at_end r (front, bytes, wrote, whole, here) =
      here
      ∙ reader_eq (sym whole) (
          omega (
            arith,
            ap length (ok-injective wrote),
            ap length whole,
            length-append front (bytes ++ back),
            length-append bytes back,
          ))

  pub inside :
      (fs : List Field) (r : BufferReader) → Stands buffer back fs r → r.position ≤ length r.buffer
  inside fs r (front, bytes, wrote, whole, here) =
      rw here (omega (arith, length-append front (bytes ++ back)))

  pub before_back :
      (fs : List Field) (r : BufferReader)
      → Stands buffer back fs r
      → r.position + length back ≤ length buffer
  before_back fs r (front, bytes, wrote, whole, here) =
      rw (here, whole)
        (omega (arith, length-append front (bytes ++ back), length-append bytes back))

  pub extent :
      (fs : List Field) (r : BufferReader) (bytes : List ℕ)
      → fields_bytes fs ≡ ok bytes
      → Stands buffer back fs r
      → r.position + length bytes + length back ≡ length buffer
  extent fs r bytes e (front, bytes', wrote, whole, here) =
      let same = ap length (ok-injective (sym wrote ∙ e)) in
      rw (here, whole)
        (omega (arith, same, length-append front (bytes' ++ back), length-append bytes' back))

-- How far a reader has moved that read all the calls.
pub moved :
    (front bytes back : List ℕ) (r : BufferReader)
    → Stands (front ++ (bytes ++ back)) back [] r
    → r.position - length front ≡ length bytes
moved front bytes back r stands =
    rw (at_end r stands)
      (omega (arith, length-append front (bytes ++ back), length-append bytes back))

-- A reader at bytes that calls put out stands at the calls, before the bytes of the others; and behind
-- the calls it stands at the others.
pub enter :
    {buffer back : List ℕ} (inner : List ℕ) (gs fs : List Field) (r : BufferReader)
    → fields_bytes gs ≡ ok inner
    → Stands buffer back (bytes_field inner ∷ fs) r
    → (rest : List ℕ) × Stands buffer (rest ++ back) gs r
      × ((r' : BufferReader) → Stands buffer (rest ++ back) [] r' → Stands buffer back fs r')
unfolding fields_bytes field_bytes
enter {buffer} {back} inner gs fs r put (front, bytes, wrote, whole, here) =
    let (first, rest, b, wrote', joined) = fields_bytes-cons (bytes_field inner) fs bytes wrote in
    let same : bytes ++ back ≡ inner ++ (rest ++ back) =
      rw (joined, ← ok-injective b) (append_assoc inner rest back) in
    (
      rest,
      (
        front,
        inner,
        put,
        whole ∙ ap (λ (t : List ℕ). front ++ t) same,
        here ∙ reader_eq (ap (λ (t : List ℕ). front ++ t) same) refl,
      ),
      λ r' (front', bytes', wrote'', whole', here').
          (let none_left =
              ap (λ (t : List ℕ). front' ++ (t ++ (rest ++ back))) (sym (ok-injective wrote'')) in
            (front', rest, wrote', whole' ∙ none_left, here' ∙ reader_eq none_left refl)),
    )
