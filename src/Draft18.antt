-- ===== src/Draft18.antt =====
-- The wire format of drafts 18 and 22, packages/core/src/encoding: what it is built from.
mod Runs
mod ObjectRuns
pub mod Writer
pub mod Reader
pub mod Fields
pub mod Cursor
pub mod Names
pub mod Objects
pub mod Pairs
pub mod Frame
pub mod Subgroup
pub mod Datagram
pub mod FetchObject
pub mod Total
pub mod RangeFilter
use moq_web.Base.{ℕ, Result, ok, err}
use moq_web.Varint.{VarIntError}

-- The throws of the codecs: of MOQTVarInt, of Draft18BufferReader, and the `Draft18CodecError`s and
-- `Draft18StreamCodecError`s by what they tell.
pub data CodecError : Type 0 where
  var_int : VarIntError → CodecError
  underflow bounds_exceeded malformed violation incomplete key_too_large : CodecError
  bad_name unknown_type missing_field : CodecError

-- `CodecError` takes in what MOQTVarInt throws.
abbrev pub lift {ℓ} : {A : Type ℓ} → Result VarIntError A → Result CodecError A
lift (ok a) = ok a
lift (err e) = err (var_int e)
