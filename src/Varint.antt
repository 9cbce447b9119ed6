-- ===== src/Varint.antt =====
-- The two variable-length integers of the wire formats, packages/core/src/encoding: QUIC's (2 bits of
-- length, varint.ts) and that of MOQT (a count of leading ones, moqt-varint.ts).
mod Runs
pub mod Quic
pub mod Moqt
use moq_web.Base.{ℕ, ◌-◌, ◌^◌}

-- `VarIntError` and `MOQTVarIntError`, by the throw that raises them.
pub data VarIntError : Type 0 where
  negative too_large underflow buffer_too_small invalid_length unsafe_number : VarIntError

-- `Number.MAX_SAFE_INTEGER`
abbrev pub max_safe_integer : ℕ
max_safe_integer = 2 ^ 53 - 1
