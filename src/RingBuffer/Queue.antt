-- ===== src/RingBuffer/Queue.antt =====
-- The operations of a ring against those of a bounded queue of items, oldest first.
use moq_web.Base.{
  ℕ, ◌+◌, ◌-◌, ◌%◌, ◌<◌, ◌≡◌, ◌∙◌, refl, sym, subst, ap, true, false, List, [], ◌∷◌, ◌++◌, length,
  set, length-set, none, some, arith,
}
use native.Mathlib.Nat.{mod-lt, mod-eq_of_lt, add-mod_right}
use moq_web.RingBuffer.{
  RingBuffer, OverflowMode, reject, overwrite, walk, push, pop, store, push_full, is_full, is_empty,
}
use moq_web.RingBuffer.Index.{walk-set, step_mod}
use moq_web.RingBuffer.Invariant.{Represents, recount, front, store-Represents}

module _ {A : Type 0} where
  -- `push` on a ring with room adds the item behind the others, and nothing overflows.
  pub push_room :
      (x : A) (r : RingBuffer A) (xs : List A)
      → Represents r xs
      → length xs < r.capacity
      → Represents (push x r).0 (xs ++ x ∷ []) × ((push x r).1 ≡ true) × ((push x r).2 ≡ none)
  unfolding push
  push_room x r xs h room =
      let size = h.none_missing in
      let free : is_full r ≡ false = unfold is_full in ground arith in
      rw free (store-Represents r xs x h (omega arith), refl, refl)

  -- `push` on a full ring that rejects keeps the items, returns false, overflows none of them, and
  -- counts one more as dropped.
  pub push_reject :
      (x : A) (r : RingBuffer A) (xs : List A)
      → Represents r xs
      → length xs ≡ r.capacity
      → r.overflow_mode ≡ reject
      → Represents (push x r).0 xs
        × ((push x r).1 ≡ false)
        × ((push x r).2 ≡ none)
        × ((push x r).0.total_dropped ≡ r.total_dropped + 1)
  unfolding push push_full
  push_reject x r xs h full mode =
      let size = h.none_missing in
      let no_room : is_full r ≡ true = unfold is_full in ground arith in
      rw no_room (
        subst
          (λ (m : OverflowMode).
            Represents (push_full m x r).0 xs
            × ((push_full m x r).1 ≡ false)
            × ((push_full m x r).2 ≡ none)
            × ((push_full m x r).0.total_dropped ≡ r.total_dropped + 1))
          (sym mode)
          (recount r xs r.total_pushed r.total_popped (r.total_dropped + 1) h, refl, refl, refl))

  -- The ring without its oldest item, whose slot is not cleared.
  abbrev behind_front : RingBuffer A → RingBuffer A
  behind_front r = record r { head = (r.head + 1) % r.capacity; size = r.size - 1 }

  behind_front-Represents :
      (r : RingBuffer A) (x : A) (xs : List A)
      → Represents r (x ∷ xs)
      → Represents (behind_front r) xs
  behind_front-Represents r x xs h =
      let (oldest, rest) = front r x xs h in
      let size = h.none_missing in
      let fewer : r.size - 1 ≡ length xs = omega arith in
      record {
        some_room = h.some_room;
        slots = h.slots;
        head_inside = mod-lt (r.head + 1) h.some_room;
        tail_behind =
            h.tail_behind
            ∙ sym (
                step_mod r.head (r.size - 1) r.capacity
                ∙ ap (λ (t : ℕ). (r.head + t) % r.capacity) (omega arith));
        size_fits = omega arith;
        in_order = rw fewer rest;
        none_missing = omega arith;
      }

  -- The slot of the head is seen by no walk over fewer slots than the capacity that starts behind it.
  cleared :
      (r : RingBuffer A) (x : A) (xs : List A)
      → Represents r (x ∷ xs)
      → walk (set r.items r.head none) r.capacity ((r.head + 1) % r.capacity) (r.size - 1)
        ≡ walk r.items r.capacity ((r.head + 1) % r.capacity) (r.size - 1)
  cleared r x xs h =
      let c = r.capacity in
      let size = h.none_missing in
      let around : ((r.head + 1) % c + (c - 1)) % c ≡ r.head =
        step_mod r.head (c - 1) c
        ∙ ap (λ (t : ℕ). (r.head + t) % c) (omega arith)
        ∙ add-mod_right r.head c
        ∙ mod-eq_of_lt h.head_inside in
      let unseen =
        walk-set r.items none c (r.size - 1) (c - 1) ((r.head + 1) % c)
          (mod-lt (r.head + 1) h.some_room) (omega arith) (omega arith) in
      rw around at unseen

  stored_at :
      (r : RingBuffer A) (xs : List A) (x : A) (n : ℕ)
      → Represents r xs
      → r.size < r.capacity
      → r.size + 1 ≡ n
      → Represents (store x (record r { size = n })) (xs ++ x ∷ [])
  stored_at r xs x n h room e =
      subst (λ (k : ℕ). Represents (store x (record r { size = k })) (xs ++ x ∷ [])) e
        (store-Represents r xs x h room)

  -- `push` on a full ring that overwrites drops the oldest item, tells it, counts it as dropped, and
  -- adds the new item behind the others.
  pub push_overwrite :
      (x y : A) (r : RingBuffer A) (xs : List A)
      → Represents r (y ∷ xs)
      → length (y ∷ xs) ≡ r.capacity
      → r.overflow_mode ≡ overwrite
      → Represents (push x r).0 (xs ++ x ∷ [])
        × ((push x r).1 ≡ true)
        × ((push x r).2 ≡ some y)
        × ((push x r).0.total_dropped ≡ r.total_dropped + 1)
  unfolding push push_full store
  push_overwrite x y r xs h full mode =
      let size = h.none_missing in
      let no_room : is_full r ≡ true = unfold is_full in ground arith in
      let same : r.size - 1 + 1 ≡ r.size = omega arith in
      let smaller =
        recount (behind_front r) xs r.total_pushed r.total_popped (r.total_dropped + 1)
          (behind_front-Represents r y xs h) in
      let stored =
        stored_at (record (behind_front r) { total_dropped = r.total_dropped + 1 }) xs x r.size
          smaller (omega arith) same in
      rw no_room (
        subst
          (λ (m : OverflowMode).
            Represents (push_full m x r).0 (xs ++ x ∷ [])
            × ((push_full m x r).1 ≡ true)
            × ((push_full m x r).2 ≡ some y)
            × ((push_full m x r).0.total_dropped ≡ r.total_dropped + 1))
          (sym mode) (stored, refl, (front r y xs h).0, refl))

  -- `pop` on a ring that holds items gives the oldest and leaves the others.
  pub pop_front :
      (r : RingBuffer A) (x : A) (xs : List A)
      → Represents r (x ∷ xs)
      → ((pop r).0 ≡ some x) × Represents (pop r).1 xs
  unfolding pop
  pop_front r x xs h =
      let size = h.none_missing in
      let some_item : is_empty r ≡ false = unfold is_empty in ground arith in
      let rest = behind_front-Represents r x xs h in
      rw some_item (
        (front r x xs h).0,
        record {
          some_room = h.some_room;
          slots = length-set r.items r.head none ∙ h.slots;
          head_inside = rest.head_inside;
          tail_behind = rest.tail_behind;
          size_fits = rest.size_fits;
          in_order = cleared r x xs h ∙ rest.in_order;
          none_missing = rest.none_missing;
        },
      )

  -- On an empty ring it gives nothing and changes nothing.
  pub pop_empty : (r : RingBuffer A) → Represents r [] → pop r ≡ (none, r)
  unfolding pop
  pop_empty r h =
      let size = h.none_missing in
      let nothing : is_empty r ≡ true = unfold is_empty in ground arith in rw nothing
