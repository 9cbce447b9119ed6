-- ===== src/RingBuffer/Invariant.antt =====
-- The abstract view of a ring: the items that it holds, oldest first.
use moq_web.Base.{
  ℕ, zero, suc, ◌+◌, ◌%◌, ◌≤◌, ◌<◌, ◌≡◌, ◌∙◌, refl, ap, List, [], ◌∷◌, ◌++◌, length, get_or, set,
  replicate, length-set, length-append, get_or-set_self, length-replicate, Option, none, some, ok,
  arith,
}
use native.Mathlib.Numerals.{add-one}
use native.Mathlib.Nat.{mod-add-mod, mod-eq_of_lt, mod-lt}
use moq_web.RingBuffer.{RingBuffer, OverflowMode, new, walk, keep_some, store}
use moq_web.RingBuffer.Index.{walk-set, walk_snoc}

module _ {A : Type 0} where
  -- The slots are as many as the capacity, the indices lie in the ring, and `n` items stand from the
  -- head on, in the order of `xs`, with none missing.
  pub record Represents (r : RingBuffer A) (xs : List A) : Type 0 where
    pub some_room : 0 < r.capacity
    pub slots : length r.items ≡ r.capacity
    pub head_inside : r.head < r.capacity
    pub tail_behind : r.tail ≡ (r.head + r.size) % r.capacity
    pub size_fits : r.size ≤ r.capacity
    pub in_order : walk r.items r.capacity r.head r.size ≡ xs
    pub none_missing : length xs ≡ r.size

  walk_empty : (items : List (Option A)) (c i : ℕ) → walk items c i 0 ≡ []
  unfolding walk
  walk_empty items c i = refl

  -- A new ring holds nothing.
  pub new-Represents :
      (capacity : ℕ) (mode : OverflowMode) (r : RingBuffer A)
      → new A capacity mode ≡ ok r
      → Represents r []
  unfolding new
  new-Represents zero mode r h = cc
  new-Represents (suc c) mode r h = record {
    some_room = ground arith;
    slots = ground (arith, length-replicate {A = Option A} (suc c) none);
    head_inside = ground arith;
    tail_behind = ground (arith, mod-eq_of_lt {n = 0} {m = suc c});
    size_fits = ground arith;
    in_order = ground (arith, walk_empty (replicate (suc c) none) (suc c) 0);
    none_missing = ground arith;
  }

  length-walk-le : (items : List (Option A)) (c n i : ℕ) → length (walk items c i n) ≤ n
  unfolding walk
  length-walk-le items c zero i = omega arith
  length-walk-le items c (suc n) i = ground (arith, length-walk-le items c n ((i + 1) % c))

  split_first :
      (o : Option A) (x : A) (xs ys : List A)
      → keep_some o ys ≡ x ∷ xs
      → length ys ≤ length xs
      → (o ≡ some x) × (ys ≡ xs)
  split_first none x xs ys e h = absurd (omega (arith, ap length e))
  split_first (some y) x xs ys e h = (cc, cc)

  -- The oldest item stands at the head, and the others behind it.
  pub front :
      (r : RingBuffer A) (x : A) (xs : List A)
      → Represents r (x ∷ xs)
      → (get_or r.items r.head none ≡ some x)
        × (walk r.items r.capacity ((r.head + 1) % r.capacity) (length xs) ≡ xs)
  unfolding walk
  front r x xs h =
      let size = h.none_missing in
      let whole = rw (← size) at h.in_order in
      split_first (get_or r.items r.head none) x xs _ whole
        (length-walk-le r.items r.capacity (length xs) ((r.head + 1) % r.capacity))

  stored :
      (items : List (Option A)) (c i n : ℕ) (xs : List A) (x : A)
      → length items ≡ c
      → i < c
      → n < c
      → walk items c i n ≡ xs
      → walk (set items ((i + n) % c) (some x)) c i (suc n) ≡ xs ++ x ∷ []
  stored items c i n xs x size inside room e =
      let there : (i + n) % c < length items = rw size (mod-lt (i + n) (omega arith)) in
      let last = get_or-set_self items ((i + n) % c) (some x) none there in
      walk_snoc (set items ((i + n) % c) (some x)) c n i inside
      ∙ rw (walk-set items (some x) c n n i inside (omega arith) room, last, e)

  -- An item stored in the slot behind the last one comes last.
  pub store-Represents :
      (r : RingBuffer A) (xs : List A) (x : A)
      → Represents r xs
      → r.size < r.capacity
      → Represents (store x (record r { size = r.size + 1 })) (xs ++ x ∷ [])
  unfolding store
  store-Represents r xs x h room = record {
    some_room = h.some_room;
    slots = length-set r.items r.tail (some x) ∙ h.slots;
    head_inside = h.head_inside;
    tail_behind =
        rw h.tail_behind (
          mod-add-mod (r.head + r.size) r.capacity 1
          ∙ ap (λ (t : ℕ). t % r.capacity) (omega arith));
    size_fits = omega arith;
    in_order =
        rw (h.tail_behind, add-one)
          (stored r.items r.capacity r.head r.size xs x h.slots h.head_inside room h.in_order);
    none_missing = omega (arith, length-append xs (x ∷ []), h.none_missing);
  }

  -- The counts of the statistics have no part in what a ring holds.
  pub recount :
      (r : RingBuffer A) (xs : List A) (pushed popped dropped : ℕ)
      → Represents r xs
      → Represents
          (record r { total_pushed = pushed; total_popped = popped; total_dropped = dropped })
          xs
  recount r xs pushed popped dropped h = record {
    some_room = h.some_room;
    slots = h.slots;
    head_inside = h.head_inside;
    tail_behind = h.tail_behind;
    size_fits = h.size_fits;
    in_order = h.in_order;
    none_missing = h.none_missing;
  }
