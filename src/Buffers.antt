-- ===== src/Buffers.antt =====
-- The byte readers and writers of packages/core/src/encoding/varint.ts, over QUIC's VarInt.
-- `TextEncoder` and `TextDecoder` belong to the platform: a text is any type with these functions.
mod Runs
pub mod Reader
pub mod Writer
pub mod Prealloc
pub mod Contract
pub mod Chunks
pub mod Growth
pub mod Agreement
pub mod ReadBack
use moq_web.Base.{ℕ, suc, ◌+◌, bit_and, ◌≡◌, List, [], ◌∷◌, ◌++◌, length, Result, ok, err, ◌>>=◌}
use moq_web.Base.Int.{ℤ, pos}
use moq_web.Varint.{VarIntError}
use moq_web.Varint.Quic.{encode}

pub record TextCodec : Type 1 where
  pub Text : Type 0
  pub encode_text : Text → List ℕ
  pub decode_text : List ℕ → Text

-- A call on `WritableByteBuffer`.
pub data WriteOp (Text : Type 0) : Type 0 where
  write_byte : ℕ → WriteOp Text
  write_bytes : List ℕ → WriteOp Text
  write_var_int : ℤ → WriteOp Text
  write_string : Text → WriteOp Text

-- What each call is to put out, and what a sequence of them is to; the first that throws ends it.
module _ (codec : TextCodec) where
  open codec use {Text, encode_text}

  unfoldable pub op_bytes : WriteOp Text → Result VarIntError (List ℕ)
  op_bytes (write_byte value) = ok (bit_and value 0xff ∷ [])
  op_bytes (write_bytes bytes) = ok bytes
  op_bytes (write_var_int value) = encode value
  op_bytes (write_string value) = do
    let bytes = encode_text value
    size ← encode (pos (length bytes))
    ok (size ++ bytes)

  unfoldable pub all_bytes : List (WriteOp Text) → Result VarIntError (List ℕ)
  unfolding op_bytes
  all_bytes [] = ok []
  all_bytes (op ∷ ops) = do first ← op_bytes op; rest ← all_bytes ops; ok (first ++ rest)
