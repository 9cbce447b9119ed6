-- ===== src/SendOrder.antt =====
-- packages/session/src/priority.ts: the number by which the transport orders streams, and the reading
-- of the scheduling parameters of a request. A priority is an integer, or not finite; a group ID is an
-- integer.
mod Runs
pub mod Laws
use moq_web.Base.{
  ℕ, ◌+◌, ◌-◌, ◌*◌, ◌^◌, min, List, [], ◌∷◌, Option, none, some, ltb, ◌==◌, if◌then◌else◌,
}
use moq_web.Base.Int.{ℤ, pos, negsuc}

pub data GroupOrder : Type 0 where
  ascending descending : GroupOrder

pub data Priority : Type 0 where
  not_finite : Priority
  int : ℤ → Priority

abbrev pub group_bits : ℕ
group_bits = 36

abbrev pub group_max : ℕ
group_max = 2 ^ 36 - 1

unfoldable pub clamp8 : Priority → ℕ
clamp8 not_finite = 128
clamp8 (int (negsuc n)) = 0
clamp8 (int (pos v)) = if ltb 0xff v then 0xff else v

-- `Math.max(0, Math.min(Math.floor(groupId), GROUP_MAX))`
unfoldable pub clamp_group : ℤ → ℕ
clamp_group (negsuc n) = 0
clamp_group (pos v) = min v group_max

unfoldable pub group_key : GroupOrder → ℤ → ℕ
unfolding clamp_group
group_key descending group_id = clamp_group group_id
group_key ascending group_id = group_max - clamp_group group_id

unfoldable pub compute_send_order : Priority → Priority → GroupOrder → ℤ → ℕ
unfolding clamp8 group_key
compute_send_order subscriber_priority publisher_priority group_order group_id =
    let inv_sub = 0xff - clamp8 subscriber_priority in
    let inv_pub = 0xff - clamp8 publisher_priority in
    inv_sub * 2 ^ (8 + group_bits) + inv_pub * 2 ^ group_bits + group_key group_order group_id

pub record SchedulingParams : Type 0 where
  pub subscriber_priority : Option ℕ
  pub group_order : Option GroupOrder

-- A present value with at least one byte gives its first.
abbrev pub first_byte : Option (List ℕ) → Option ℕ
first_byte none = none
first_byte (some []) = none
first_byte (some (b ∷ bs)) = some b

abbrev pub read_group_order : Option ℕ → Option GroupOrder
read_group_order none = none
read_group_order (some v) = some (if v == 2 then descending else ascending)

-- The parameters are a map from their keys.
unfoldable pub parse_subscriber_scheduling_params : Option (ℕ → Option (List ℕ)) → SchedulingParams
parse_subscriber_scheduling_params none = record { subscriber_priority = none; group_order = none }
parse_subscriber_scheduling_params (some params) = record {
  subscriber_priority = first_byte (params 0x20);
  group_order = read_group_order (first_byte (params 0x22));
}
