-- ===== src/RingBuffer/Bulk.antt =====
-- The operations that look at all items of a ring, or move many.
use moq_web.Base.{
  ℕ, zero, suc, ◌+◌, ◌%◌, ◌≤◌, ◌≡◌, ◌∙◌, refl, sym, ap, Bool, List, [], ◌∷◌, ◌++◌, length, take,
  drop, length-append, length-replicate, Option, none, some, arith, leb, take_past, drop_past, min,
  if◌then◌else◌, Bool-cases, inl, inr,
}
use mathlib.Core.List.{append-nil, append_assoc}
use native.Mathlib.Nat.{mod-eq_of_lt}
use moq_web.RingBuffer.{
  RingBuffer, OverflowMode, reject, overwrite, push_full, store, is_full, walk, to_array, find,
  find_from, push, pop, pop_times, pop_many, clear, kept, push_each, remove_where,
}
use moq_web.RingBuffer.Invariant.{Represents}
use moq_web.RingBuffer.Queue.{push_room, pop_front}

module _ {A : Type 0} where
  -- `toArray`, and so `forEach`, has the items in the order of the queue.
  pub to_array_lem : (r : RingBuffer A) (xs : List A) → Represents r xs → to_array r ≡ xs
  unfolding to_array
  to_array_lem r xs h = h.in_order

  pop_times_lem :
      (n : ℕ) (r : RingBuffer A) (xs : List A)
      → Represents r xs
      → n ≤ length xs
      → ((pop_times n r).0 ≡ take n xs) × Represents (pop_times n r).1 (drop n xs)
  unfolding pop_times
  pop_times_lem zero r xs h le = (refl, h)
  pop_times_lem (suc n) r [] h le = absurd (omega arith)
  pop_times_lem (suc n) r (x ∷ xs) h le =
      let (oldest, rest) = pop_front r x xs h in
      let (more, left) = pop_times_lem n (pop r).1 xs rest (omega arith) in
      (rw (oldest, more), left)

  -- `popMany` gives the `count` oldest items, or all if there are fewer, and leaves the others.
  pub pop_many_lem :
      (count : ℕ) (r : RingBuffer A) (xs : List A)
      → Represents r xs
      → ((pop_many count r).0 ≡ take count xs) × Represents (pop_many count r).1 (drop count xs)
  unfolding pop_many
  pop_many_lem count r xs h = elim (Bool-cases (leb count (length xs))) [
    | inl some_left ↦
        let all : min count r.size ≡ count = ground (arith, h.none_missing) in
        rw all (pop_times_lem count r xs h (ground arith))
    | inr none_left ↦
        let all : min count r.size ≡ length xs = ground (arith, h.none_missing) in
        let (popped, rest) = pop_times_lem (length xs) r xs h (omega arith) in
        rw (all, take_past count xs (ground arith), drop_past count xs (ground arith))
          (
            popped ∙ take_past (length xs) xs (omega arith),
            rw (drop_past (length xs) xs (omega arith)) at rest,
          )
  ]

  -- `clear` tells how many items there were, and leaves none.
  pub clear_lem :
      (r : RingBuffer A) (xs : List A)
      → Represents r xs
      → ((clear r).0 ≡ length xs) × Represents (clear r).1 []
  unfolding clear walk
  clear_lem r xs h = (
    sym h.none_missing,
    record {
      some_room = h.some_room;
      slots = length-replicate r.capacity none;
      head_inside = h.some_room;
      tail_behind = sym (mod-eq_of_lt h.some_room);
      size_fits = omega arith;
      in_order = refl;
      none_missing = refl;
    },
  )

  -- The first item for which the predicate holds.
  abbrev pub first_where : (A → Bool) → List A → Option A
  first_where predicate [] = none
  first_where predicate (x ∷ xs) = if predicate x then some x else first_where predicate xs

  find_from-walk :
      (predicate : A → Bool) (items : List (Option A)) (c n i : ℕ)
      → find_from predicate items c i n ≡ first_where predicate (walk items c i n)
  unfolding find_from walk
  find_from-walk predicate items c zero i = refl
  find_from-walk predicate items c (suc n) i =
      ground (arith, find_from-walk predicate items c n ((i + 1) % c))

  -- `find` gives the oldest item for which the predicate holds.
  pub find_lem :
      (predicate : A → Bool) (r : RingBuffer A) (xs : List A)
      → Represents r xs
      → find predicate r ≡ first_where predicate xs
  unfolding find
  find_lem predicate r xs h =
      find_from-walk predicate r.items r.capacity r.size r.head
      ∙ ap (first_where predicate) h.in_order

  push_full-capacity :
      (mode : OverflowMode) (x : A) (r : RingBuffer A)
      → (push_full mode x r).0.capacity ≡ r.capacity
  unfolding push_full store
  push_full-capacity reject x r = refl
  push_full-capacity overwrite x r = refl

  push-capacity : (x : A) (r : RingBuffer A) → (push x r).0.capacity ≡ r.capacity
  unfolding push push_full store
  push-capacity x r = elim (Bool-cases (is_full r)) [
    | inl full ↦ rw full (push_full-capacity r.overflow_mode x r)
    | inr room ↦ rw room refl
  ]

  push_each_lem :
      (ys : List A) (r : RingBuffer A) (xs : List A)
      → Represents r xs
      → length xs + length ys ≤ r.capacity
      → Represents (push_each ys r) (xs ++ ys)
  unfolding push_each
  push_each_lem [] r xs h fits = rw (append-nil xs) h
  push_each_lem (y ∷ ys) r xs h fits =
      let behind = append_assoc xs (y ∷ []) ys in
      let longer = length-append xs (y ∷ []) in
      let pushed = (push_room y r xs h (omega arith)).0 in
      let same = push-capacity y r in
      let rest = push_each_lem ys (push y r).0 (xs ++ y ∷ []) pushed (omega arith) in
      rw behind at rest

  length-kept-le : (predicate : A → Bool) (xs : List A) → length (kept predicate xs) ≤ length xs
  unfolding kept
  length-kept-le predicate [] = omega arith
  length-kept-le predicate (x ∷ xs) = ground (arith, length-kept-le predicate xs)

  -- `removeWhere` leaves, in their order, the items for which the predicate fails, and tells how many
  -- it took out.
  pub remove_where_lem :
      (predicate : A → Bool) (r : RingBuffer A) (xs : List A)
      → Represents r xs
      → ((remove_where predicate r).0 + length (kept predicate xs) ≡ length xs)
        × Represents (remove_where predicate r).1 (kept predicate xs)
  unfolding remove_where
  remove_where_lem predicate r xs h =
      let fewer = length-kept-le predicate xs in
      let (all, empty) = clear_lem r xs h in
      rw h.in_order (
        omega (arith, h.none_missing),
        push_each_lem (kept predicate xs) (clear r).1 [] empty
            (omega (arith, h.none_missing, h.size_fits)),
      )
