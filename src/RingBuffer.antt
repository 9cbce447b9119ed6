-- ===== src/RingBuffer.antt =====
-- class RingBuffer of packages/core/src/buffer/ring-buffer.ts. A slot that holds `undefined` is `none`;
-- an item is never `undefined`. `onOverflow` is told the item that `push` gives back as dropped.
mod Runs
pub mod Index
pub mod Invariant
pub mod Queue
pub mod Bulk
use moq_web.Base.{
  ℕ, zero, suc, ◌+◌, ◌-◌, ◌%◌, min, Bool, true, false, List, [], ◌∷◌, ◌++◌, length, get_or, set,
  replicate, Option, none, some, Result, ok, err, ltb, ◌==◌, if◌then◌else◌, not,
}

pub data OverflowMode : Type 0 where
  reject overwrite : OverflowMode

pub data CapacityError : Type 0 where
  capacity_too_small : CapacityError

pub record RingBuffer (A : Type 0) : Type 0 where
  pub items : List (Option A)
  pub head : ℕ
  pub tail : ℕ
  pub size : ℕ
  pub capacity : ℕ
  pub overflow_mode : OverflowMode
  pub total_pushed : ℕ
  pub total_popped : ℕ
  pub total_dropped : ℕ

unfoldable pub new : (A : Type 0) → ℕ → OverflowMode → Result CapacityError (RingBuffer A)
new A capacity overflow_mode =
    if ltb capacity 1
    then err capacity_too_small
    else ok (record {
      items = replicate capacity none;
      head = 0;
      tail = 0;
      size = 0;
      capacity = capacity;
      overflow_mode = overflow_mode;
      total_pushed = 0;
      total_popped = 0;
      total_dropped = 0;
    })

module _ {A : Type 0} where
  unfoldable pub is_empty : RingBuffer A → Bool
  is_empty r = r.size == 0

  unfoldable pub is_full : RingBuffer A → Bool
  is_full r = r.size == r.capacity

  unfoldable pub available : RingBuffer A → ℕ
  available r = r.capacity - r.size

  -- `this.items[this.tail] = item`, the new tail and the count, which end `push`.
  unfoldable pub store : A → RingBuffer A → RingBuffer A
  store item r = record r {
    items = set r.items r.tail (some item);
    tail = (r.tail + 1) % r.capacity;
    total_pushed = r.total_pushed + 1;
  }

  -- `push` on a full buffer.
  unfoldable pub push_full : OverflowMode → A → RingBuffer A → RingBuffer A × Bool × Option A
  unfolding store
  push_full reject item r = (record r { total_dropped = r.total_dropped + 1 }, false, none)
  push_full overwrite item r = (
    store item (record r { head = (r.head + 1) % r.capacity; total_dropped = r.total_dropped + 1 }),
    true,
    get_or r.items r.head none,
  )

  -- The buffer, the result, and the item that overflowed.
  unfoldable pub push : A → RingBuffer A → RingBuffer A × Bool × Option A
  unfolding push_full is_full store
  push item r =
      if is_full r
      then push_full r.overflow_mode item r
      else (store item (record r { size = r.size + 1 }), true, none)

  unfoldable pub pop : RingBuffer A → Option A × RingBuffer A
  unfolding is_empty
  pop r = if is_empty r then (none, r) else (
    get_or r.items r.head none,
    record r {
      items = set r.items r.head none;
      head = (r.head + 1) % r.capacity;
      size = r.size - 1;
      total_popped = r.total_popped + 1;
    },
  )

  unfoldable pub peek : RingBuffer A → Option A
  unfolding is_empty
  peek r = if is_empty r then none else get_or r.items r.head none

  unfoldable pub peek_last : RingBuffer A → Option A
  unfolding is_empty
  peek_last r =
      if is_empty r then none else get_or r.items ((r.tail + r.capacity - 1) % r.capacity) none

  abbrev pub keep_some : Option A → List A → List A
  keep_some none xs = xs
  keep_some (some x) xs = x ∷ xs

  -- The loop of `popMany`, over the reads to go.
  unfoldable pub pop_times : ℕ → RingBuffer A → List A × RingBuffer A
  unfolding pop
  pop_times zero r = ([], r)
  pop_times (suc n) r =
      let (item, r') = pop r in let (items, r'') = pop_times n r' in (keep_some item items, r'')

  unfoldable pub pop_many : ℕ → RingBuffer A → List A × RingBuffer A
  unfolding pop_times
  pop_many count r = pop_times (min count r.size) r

  unfoldable pub clear : RingBuffer A → ℕ × RingBuffer A
  clear r = (r.size, record r { items = replicate r.capacity none; head = 0; tail = 0; size = 0 })

  -- The loop of `forEach`, over the slots to go: the items that the callback is given, in order.
  unfoldable pub walk : List (Option A) → ℕ → ℕ → ℕ → List A
  walk items capacity read_index zero = []
  walk items capacity read_index (suc n) =
      keep_some (get_or items read_index none) (walk items capacity ((read_index + 1) % capacity) n)

  -- `forEach` with a callback that collects.
  unfoldable pub to_array : RingBuffer A → List A
  unfolding walk
  to_array r = walk r.items r.capacity r.head r.size

  -- The loop of `find`.
  unfoldable pub find_from : (A → Bool) → List (Option A) → ℕ → ℕ → ℕ → Option A
  find_from predicate items capacity read_index zero = none
  find_from predicate items capacity read_index (suc n) =
      let rest = find_from predicate items capacity ((read_index + 1) % capacity) n in
      elim (get_or items read_index none) [
        | none ↦ rest
        | some item ↦ if predicate item then some item else rest
      ]

  unfoldable pub find : (A → Bool) → RingBuffer A → Option A
  unfolding find_from
  find predicate r = find_from predicate r.items r.capacity r.head r.size

  -- The items for which `predicate` fails.
  unfoldable pub kept : (A → Bool) → List A → List A
  kept predicate [] = []
  kept predicate (x ∷ xs) = if predicate x then kept predicate xs else x ∷ kept predicate xs

  unfoldable pub push_each : List A → RingBuffer A → RingBuffer A
  unfolding push
  push_each [] r = r
  push_each (x ∷ xs) r = push_each xs (push x r).0

  unfoldable pub remove_where : (A → Bool) → RingBuffer A → ℕ × RingBuffer A
  unfolding to_array kept clear push_each
  remove_where predicate r =
      let to_keep = kept predicate (to_array r) in
      (r.size - length to_keep, push_each to_keep (clear r).1)

  unfoldable pub reset_stats : RingBuffer A → RingBuffer A
  reset_stats r = record r { total_pushed = 0; total_popped = 0; total_dropped = 0 }
