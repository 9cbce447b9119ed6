-- ===== src/Buffers/Contract.antt =====
-- What the users of `WritableByteBuffer` rely on, and what follows for a sequence of calls.
use moq_web.Base.{
  ℕ, ◌≡◌, ◌∙◌, refl, sym, ap, List, [], ◌∷◌, ◌++◌, Result, ok, err, ◌>>=◌, Result-cases, >>=-eq-ok,
  ok-injective, length, inl, inr,
}
use mathlib.Core.List.{append-nil, append_assoc}
use moq_web.Base.Int.{pos}
use moq_web.Varint.{VarIntError}
use moq_web.Varint.Quic.{encode}
use moq_web.Buffers.{TextCodec, WriteOp, write_string, op_bytes, all_bytes}

output_step :
    (before first after : List ℕ)
    → after ≡ before ++ first
    → (r : Result VarIntError (List ℕ))
    → (do rest ← r; ok (after ++ rest))
      ≡ (do bytes ← (do rest ← r; ok (first ++ rest)); ok (before ++ bytes))
output_step before first after e (ok rest) =
    ap ok (ap (λ (t : List ℕ). t ++ rest) e ∙ append_assoc before first rest)
output_step before first after e (err x) = refl

pub string_parts :
    (codec : TextCodec) (text : codec.Text) (bytes : List ℕ)
    → op_bytes codec (write_string text) ≡ ok bytes
    → (size : List ℕ) × (encode (pos (length (codec.encode_text text))) ≡ ok size)
      × (bytes ≡ size ++ codec.encode_text text)
unfolding op_bytes
string_parts codec text bytes h =
    let (size, written, same) = >>=-eq-ok (encode (pos (length (codec.encode_text text)))) _ h in
    (size, written, sym (ok-injective same))

-- A writer keeps its invariant, puts out what a call is to put out, and throws where that throws.
pub record ByteWriter (codec : TextCodec) : Type 1 where
  pub State : Type 0
  pub IsValid : State → Type 0
  pub contents : State → List ℕ
  pub write : WriteOp codec.Text → State → Result VarIntError State
  pub write_ok :
      (op : WriteOp codec.Text) (s : State) (bytes : List ℕ)
      → IsValid s
      → op_bytes codec op ≡ ok bytes
      → (s' : State) × (write op s ≡ ok s') × IsValid s' × (contents s' ≡ contents s ++ bytes)
  pub write_err :
      (op : WriteOp codec.Text) (s : State) (e : VarIntError)
      → op_bytes codec op ≡ err e
      → write op s ≡ err e

module _ (codec : TextCodec) (w : ByteWriter codec) where
  open w use {State, IsValid, contents, write, write_ok, write_err}

  unfoldable pub write_all : List (WriteOp codec.Text) → State → Result VarIntError State
  write_all [] s = ok s
  write_all (op ∷ ops) s = do s' ← write op s; write_all ops s'

  -- The bytes after some calls, or the first error.
  unfoldable pub output : List (WriteOp codec.Text) → State → Result VarIntError (List ℕ)
  unfolding write_all
  output ops s = do s' ← write_all ops s; ok (contents s')

  output-cons :
      (op : WriteOp codec.Text) (ops : List (WriteOp codec.Text)) (s s' : State)
      → write op s ≡ ok s'
      → output (op ∷ ops) s ≡ output ops s'
  unfolding output
  output-cons op ops s s' e = rw e

  -- From any valid state the bytes that the calls are to put out stand behind those already there.
  pub output_lem :
      (ops : List (WriteOp codec.Text)) (s : State)
      → IsValid s
      → output ops s ≡ (do bytes ← all_bytes codec ops; ok (contents s ++ bytes))
  unfolding output all_bytes
  output_lem [] s h = ap ok (sym (append-nil (contents s)))
  output_lem (op ∷ ops) s h = elim (Result-cases (op_bytes codec op)) [
    | inl (bytes, e) ↦
        (let (s', wrote, valid, more) = write_ok op s bytes h e in
          output-cons op ops s s' wrote
          ∙ output_lem ops s' valid
          ∙ rw e (output_step (contents s) bytes (contents s') more (all_bytes codec ops)))
    | inr (x, e) ↦ rw (e, write_err op s x e)
  ]
