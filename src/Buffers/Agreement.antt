-- ===== src/Buffers/Agreement.antt =====
-- The two writers agree, whatever the calls and whatever the first capacity.
use moq_web.Base.{ℕ, ◌≡◌, ◌∙◌, refl, sym, List, Result, ok, err, ◌>>=◌, arith}
use moq_web.Varint.{VarIntError}
use moq_web.Buffers.{TextCodec, WriteOp, all_bytes}
use moq_web.Buffers.Writer
use moq_web.Buffers.Writer.{BufferWriter}
use moq_web.Buffers.Prealloc
use moq_web.Buffers.Prealloc.{PreallocBufferWriter, reset_with_capacity}
use moq_web.Buffers.Contract.{output, output_lem}
use moq_web.Buffers.Chunks.{buffer_writer}
use moq_web.Buffers.Growth.{prealloc_writer}

>>=-ok : (r : Result VarIntError (List ℕ)) → (do bytes ← r; ok bytes) ≡ r
>>=-ok (ok bytes) = refl
>>=-ok (err e) = refl

module _ (codec : TextCodec) (ops : List (WriteOp codec.Text)) where
  abbrev pub chunked : Result VarIntError (List ℕ)
  chunked = output codec (buffer_writer codec) ops Writer.new

  abbrev pub preallocated : ℕ → Result VarIntError (List ℕ)
  preallocated capacity = output codec (prealloc_writer codec) ops (Prealloc.new capacity)

  -- A new BufferWriter puts out what the calls are to put out, and throws at the first that throws.
  pub chunked-all_bytes : chunked ≡ all_bytes codec ops
  unfolding Writer.new Writer.to_uint8_array Writer.copy_chunks
  chunked-all_bytes =
      output_lem codec (buffer_writer codec) ops Writer.new refl ∙ >>=-ok (all_bytes codec ops)

  -- A new PreallocBufferWriter puts out, whatever its first capacity, what the calls are to put out, and
  -- throws at the first that throws.
  pub preallocated-all_bytes : (capacity : ℕ) → preallocated capacity ≡ all_bytes codec ops
  unfolding Prealloc.new Prealloc.to_uint8_array
  preallocated-all_bytes capacity =
      output_lem codec (prealloc_writer codec) ops (Prealloc.new capacity) (omega arith)
      ∙ >>=-ok (all_bytes codec ops)

  -- The two writers put out the same bytes, or throw the same error, for the same calls.
  pub preallocated-chunked : (capacity : ℕ) → preallocated capacity ≡ chunked
  preallocated-chunked capacity = preallocated-all_bytes capacity ∙ sym chunked-all_bytes
