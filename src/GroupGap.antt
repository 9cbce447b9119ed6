-- ===== src/GroupGap.antt =====
-- packages/msf/src/session/group-gap.ts: the extension that tells the group before a restart. Bytes
-- are read and written by its own code, beside class VarInt.
mod Runs
pub mod Laws
pub mod Decoded
use moq_web.Base.{
  ℕ, zero, suc, ◌+◌, bit_and, bit_or, Bool, true, false, List, [], ◌∷◌, Option, none, some, Result,
  ok, err, ◌>>=◌, ltb, leb, length, ◌-◌, if◌then◌else◌, not,
}
use moq_web.Base.Int.{ℤ, pos, negsuc}
use moq_web.Base.Bits.{shl, shr}
use moq_web.Base.Bytes.{byte_at, bytes_from}

-- The `RangeError`s of the encoder and of the decoder.
pub data GapError : Type 0 where
  negative_group out_of_range empty_payload truncated : GapError

unfoldable pub encode_prior_group_id_gap : ℤ → Result GapError (List ℕ)
encode_prior_group_id_gap (negsuc n) = err negative_group
encode_prior_group_id_gap (pos v) =
    if ltb v 0x40
    then ok (v ∷ [])
    else if ltb v 0x4000
    then ok (bit_or 0x40 (bit_and (shr v 8) 0x3f) ∷ bit_and v 0xff ∷ [])
    else if ltb v 0x40000000
    then ok
        (bit_or 0x80 (bit_and (shr v 24) 0x3f) ∷ byte_at v 16 ∷ byte_at v 8 ∷ bit_and v 0xff ∷ [])
    else if ltb v 0x4000000000000000
    then (let hi = shr v 32 in
        let lo = bit_and v 0xffffffff in
        ok (
          bit_or 0xc0 (bit_and (shr hi 24) 0x3f)
          ∷ byte_at hi 16
          ∷ byte_at hi 8
          ∷ bit_and hi 0xff
          ∷ byte_at lo 24
          ∷ byte_at lo 16
          ∷ byte_at lo 8
          ∷ bit_and lo 0xff
          ∷ []))
    else err out_of_range

-- The loop of the decoder over the bytes behind the first.
unfoldable pub gather : ℕ → List ℕ → ℕ
gather value [] = value
gather value (b ∷ bytes) = gather (bit_or (shl value 8) b) bytes

-- The value and its length.
unfoldable pub decode_prior_group_id_gap : List ℕ → Result GapError (ℕ × ℕ)
unfolding gather
decode_prior_group_id_gap [] = err empty_payload
decode_prior_group_id_gap (b ∷ bytes) =
    let prefix = shr b 6 in
    let n = shl 1 prefix in
    if ltb (length (b ∷ bytes)) n
    then err truncated
    else ok (gather (bit_and b 0x3f) (bytes_from (b ∷ bytes) 1 (n - 1)), n)

-- `a < b` and `a + 1n` on bigints.
abbrev pub less : ℤ → ℤ → Bool
less (negsuc a) (negsuc b) = ltb b a
less (negsuc a) (pos b) = true
less (pos a) (negsuc b) = false
less (pos a) (pos b) = ltb a b

abbrev pub next : ℤ → ℤ
next (pos n) = pos (n + 1)
next (negsuc zero) = pos 0
next (negsuc (suc n)) = negsuc n

pub record GroupIdGapTracker : Type 0 where
  pub last_group_id : ℤ
  pub pending_restart_from : Option ℤ

unfoldable pub new : Option ℤ → GroupIdGapTracker
new none = record { last_group_id = negsuc 0; pending_restart_from = none }
new (some last) = record { last_group_id = last; pending_restart_from = none }

unfoldable pub record_group : ℤ → GroupIdGapTracker → GroupIdGapTracker
record_group v t = if less t.last_group_id v then record t { last_group_id = v } else t

unfoldable pub restart : GroupIdGapTracker → GroupIdGapTracker
restart t =
    if not (less t.last_group_id (pos 0))
    then record t { pending_restart_from = some t.last_group_id }
    else t

-- The group to use, and the value of the extension, where there is one.
unfoldable pub next_group_after_restart :
    ℤ → GroupIdGapTracker → Result GapError (GroupIdGapTracker × (ℤ × Option (List ℕ)))
unfolding record_group
next_group_after_restart candidate t =
    let group_id =
      if not (less t.last_group_id candidate) then next t.last_group_id else candidate in
    elim t.pending_restart_from [
      | some from ↦ do
        value ← encode_prior_group_id_gap from
        ok (
          record_group group_id (record t { pending_restart_from = none }),
          (group_id, some value),
        )
      | none ↦ ok (record_group group_id t, (group_id, none))
    ]
