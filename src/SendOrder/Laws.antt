-- ===== src/SendOrder/Laws.antt =====
-- The packed number against the tuple that it stands for.
use moq_web.Base.{ℕ, ◌+◌, ◌-◌, ◌*◌, ◌^◌, ◌≤◌, ◌<◌, ◌≡◌, ◌↔◌, ◌⊎◌, sym, arith}
use moq_web.Base.Int.{ℤ, pos, negsuc}
use moq_web.Varint.{max_safe_integer}
use moq_web.SendOrder.{
  GroupOrder, ascending, descending, Priority, not_finite, int, clamp8, clamp_group, group_key,
  group_max, compute_send_order,
}

clamp8-le : (p : Priority) → clamp8 p ≤ 255
unfolding clamp8
clamp8-le not_finite = omega arith
clamp8-le (int (negsuc n)) = omega arith
clamp8-le (int (pos v)) = ground arith

clamp_group-le : (g : ℤ) → clamp_group g ≤ group_max
unfolding clamp_group
clamp_group-le (negsuc n) = omega arith
clamp_group-le (pos v) = omega arith

group_key-le : (o : GroupOrder) (g : ℤ) → group_key o g ≤ group_max
unfolding group_key
group_key-le ascending g = omega arith
group_key-le descending g = clamp_group-le g

packed-lt :
    (a b c x y z : ℕ)
    → a ≤ 255
    → b ≤ 255
    → c < 68719476736
    → x ≤ 255
    → y ≤ 255
    → z < 68719476736
    → ((255 - a) * 17592186044416 + (255 - b) * 68719476736 + c
        < (255 - x) * 17592186044416 + (255 - y) * 68719476736 + z)
      ↔ ((x < a) ⊎ ((x ≡ a) × ((y < b) ⊎ ((y ≡ b) × (c < z)))))
packed-lt a b c x y z ha hb hc hx hy hz = grind arith

-- `k` is the integer cut to the numbers from 0 to `top`.
abbrev pub IsCut : ℕ → ℤ → ℕ → Type 0
IsCut top (negsuc n) k = k ≡ 0
IsCut top (pos v) k = ((v ≤ top) × (k ≡ v)) ⊎ ((top < v) × (k ≡ top))

-- The number that stands for a priority: 128 where it is not finite.
abbrev pub IsPriority : Priority → ℕ → Type 0
IsPriority not_finite k = k ≡ 128
IsPriority (int z) k = IsCut 255 z k

-- The place of a group, cut to 36 bits, in its order: from the front, or from the back.
abbrev pub IsPlace : GroupOrder → ℤ → ℕ → Type 0
IsPlace ascending g k = IsCut 68719476735 g k
IsPlace descending g k = (group : ℕ) × IsCut 68719476735 g group × (k + group ≡ 68719476735)

clamp8_unique : (p : Priority) (k : ℕ) → IsPriority p k → clamp8 p ≡ k
unfolding clamp8
clamp8_unique not_finite k h = sym h
clamp8_unique (int (negsuc n)) k h = sym h
clamp8_unique (int (pos v)) k h = ground arith

clamp_group_unique : (g : ℤ) (k : ℕ) → IsCut 68719476735 g k → clamp_group g ≡ k
unfolding clamp_group
clamp_group_unique (negsuc n) k h = sym h
clamp_group_unique (pos v) k h = omega arith

group_key_unique :
    (o : GroupOrder) (g : ℤ) (k : ℕ) → IsPlace o g k → group_key o g + k ≡ 68719476735
unfolding group_key
group_key_unique ascending g k h = omega (arith, clamp_group_unique g k h, clamp_group-le g)
group_key_unique descending g k (group, h, e) = omega (arith, clamp_group_unique g group h)

-- Of two streams, whose priorities are cut to 0 to 255, 128 where one is not finite, and whose groups
-- are cut to 36 bits, one gets a larger number than another just if its subscriber priority is smaller,
-- or that is the same and its publisher priority is smaller, or both are the same and the place of its
-- group, counted from the front in ascending order and from the back in descending order, is before.
pub compute_send_order_iff :
    (s p s' p' : Priority) (o o' : GroupOrder) (g g' : ℤ) (a b c a' b' c' : ℕ)
    → IsPriority s a
    → IsPriority p b
    → IsPlace o g c
    → IsPriority s' a'
    → IsPriority p' b'
    → IsPlace o' g' c'
    → (compute_send_order s p o g < compute_send_order s' p' o' g')
      ↔ ((a' < a) ⊎ ((a' ≡ a) × ((b' < b) ⊎ ((b' ≡ b) × (c' < c)))))
unfolding compute_send_order
compute_send_order_iff s p s' p' o o' g g' a b c a' b' c' is_a is_b is_c is_a' is_b' is_c' =
    let (up, down) =
      packed-lt (clamp8 s) (clamp8 p) (group_key o g) (clamp8 s') (clamp8 p') (group_key o' g')
        (clamp8-le s) (clamp8-le p) (omega (arith, group_key-le o g)) (clamp8-le s') (clamp8-le p')
        (omega (arith, group_key-le o' g')) in
    let ea = clamp8_unique s a is_a in
    let eb = clamp8_unique p b is_b in
    let ec = group_key_unique o g c is_c in
    let ea' = clamp8_unique s' a' is_a' in
    let eb' = clamp8_unique p' b' is_b' in
    let ec' = group_key_unique o' g' c' is_c' in
    ((λ l. omega (arith, up l)), (λ h. down (omega arith)))

-- The number is below 2^52, so that a JavaScript number holds it exactly.
pub compute_send_order-lt :
    (s p : Priority) (o : GroupOrder) (g : ℤ)
    → (compute_send_order s p o g < 2 ^ 52) × (2 ^ 52 ≤ max_safe_integer)
unfolding compute_send_order
compute_send_order-lt s p o g =
    (omega (arith, clamp8-le s, clamp8-le p, group_key-le o g), omega arith)

-- Of two groups that fit 36 bits the earlier comes first in ascending order, and the later in
-- descending order.
pub group_key_iff :
    (x y : ℕ)
    → x ≤ group_max
    → y ≤ group_max
    → ((group_key ascending (pos y) < group_key ascending (pos x)) ↔ (x < y))
      × ((group_key descending (pos x) < group_key descending (pos y)) ↔ (x < y))
unfolding group_key clamp_group
group_key_iff x y hx hy = (grind arith, grind arith)
