-- ===== src/Scheduler.antt =====
-- class PriorityScheduler of packages/core/src/track/priority-scheduler.ts. The map from priorities to
-- queues is the list of its four queues, from HIGH, which is 0, to LOW, which is 3. `now` is what
-- `Date.now()` gives.
mod Runs
pub mod Order
pub mod Counts
use moq_web.Base.{
  ℕ, zero, suc, ◌+◌, ◌-◌, ◌≤◌, Bool, true, false, List, [], ◌∷◌, ◌++◌, length, get_or, set,
  replicate, Option, none, some, ltb, leb, ◌==◌, if◌then◌else◌, not, ◌&&◌, ◌||◌,
}

abbrev pub high : ℕ
high = 0

abbrev pub medium_high : ℕ
medium_high = 1

abbrev pub medium_low : ℕ
medium_low = 2

abbrev pub low : ℕ
low = 3

pub record QueueItem (T : Type 0) : Type 0 where
  pub data_of : T
  pub priority : ℕ
  pub sequence : ℕ
  pub enqueued_at : ℕ

pub record Scheduler (T : Type 0) : Type 0 where
  pub queues : List (List (QueueItem T))
  pub sequence : ℕ
  pub total_enqueued : ℕ
  pub total_dequeued : ℕ
  pub total_dropped : ℕ
  pub max_queue_size : ℕ
  pub max_age : ℕ

-- The options by their values, 0 for one that is not given.
unfoldable pub new : (T : Type 0) → ℕ → ℕ → Scheduler T
new T max_queue_size max_age = record {
  queues = replicate 4 [];
  sequence = 0;
  total_enqueued = 0;
  total_dequeued = 0;
  total_dropped = 0;
  max_queue_size = max_queue_size;
  max_age = max_age;
}

-- The priority that `enqueue` uses.
abbrev pub valid_priority : ℕ → ℕ
valid_priority priority = if ltb priority high || ltb low priority then medium_high else priority

module _ {T : Type 0} where
  unfoldable pub enqueue : ℕ → T → ℕ → Scheduler T → Scheduler T × Bool
  enqueue now item priority s =
      let p = valid_priority priority in
      let queue = get_or s.queues p [] in
      if ltb 0 s.max_queue_size && leb s.max_queue_size (length queue)
      then (record s { total_dropped = s.total_dropped + 1 }, false)
      else (
        record s {
          queues = set s.queues p (
              queue
              ++ record { data_of = item; priority = p; sequence = s.sequence; enqueued_at = now }
                ∷ []);
          sequence = s.sequence + 1;
          total_enqueued = s.total_enqueued + 1;
        },
        true,
      )

  -- `now - queue[i].enqueuedAt > this.maxAge`, false as well when the clock went back.
  abbrev pub is_expired : ℕ → ℕ → QueueItem T → Bool
  is_expired now max_age item = ltb max_age (now - item.enqueued_at)

  -- The loop of `removeExpired` over one queue: what is left, and how many were removed.
  unfoldable pub sweep_queue : ℕ → ℕ → List (QueueItem T) → List (QueueItem T) × ℕ
  sweep_queue now max_age [] = ([], 0)
  sweep_queue now max_age (item ∷ queue) =
      let (left, removed) = sweep_queue now max_age queue in
      if is_expired now max_age item then (left, removed + 1) else (item ∷ left, removed)

  -- The loop over the queues.
  unfoldable pub sweep : ℕ → ℕ → List (List (QueueItem T)) → List (List (QueueItem T)) × ℕ
  unfolding sweep_queue
  sweep now max_age [] = ([], 0)
  sweep now max_age (queue ∷ queues) =
      let (left, removed) = sweep_queue now max_age queue in
      let (others, more) = sweep now max_age queues in (left ∷ others, removed + more)

  unfoldable pub remove_expired : ℕ → Scheduler T → Scheduler T × ℕ
  unfolding sweep
  remove_expired now s =
      if leb s.max_age 0
      then (s, 0)
      else (let (left, removed) = sweep now s.max_age s.queues in
          (record s { queues = left; total_dropped = s.total_dropped + removed }, removed))

  -- The loop of `dequeue`: the first item of the first queue that has one, and the queues without it.
  unfoldable pub shift_first :
      List (List (QueueItem T)) → Option (QueueItem T) × List (List (QueueItem T))
  shift_first [] = (none, [])
  shift_first ((item ∷ queue) ∷ queues) = (some item, queue ∷ queues)
  shift_first ([] ∷ queues) = let (item, others) = shift_first queues in (item, [] ∷ others)

  unfoldable pub take_item : Scheduler T → Scheduler T × Option T
  unfolding shift_first
  take_item s =
      let (item, left) = shift_first s.queues in
      elim item [
        | none ↦ (s, none)
        | some first ↦
            (record s { queues = left; total_dequeued = s.total_dequeued + 1 }, some first.data_of)
      ]

  unfoldable pub dequeue : ℕ → Scheduler T → Scheduler T × Option T
  unfolding remove_expired take_item
  dequeue now s = take_item (if ltb 0 s.max_age then (remove_expired now s).0 else s)

  unfoldable pub first_of : List (List (QueueItem T)) → Option T
  first_of [] = none
  first_of ((item ∷ queue) ∷ queues) = some item.data_of
  first_of ([] ∷ queues) = first_of queues

  unfoldable pub peek : Scheduler T → Option T
  unfolding first_of
  peek s = first_of s.queues

  unfoldable pub all_empty : List (List (QueueItem T)) → Bool
  all_empty [] = true
  all_empty (queue ∷ queues) = if ltb 0 (length queue) then false else all_empty queues

  unfoldable pub is_empty : Scheduler T → Bool
  unfolding all_empty
  is_empty s = all_empty s.queues

  unfoldable pub total_length : List (List (QueueItem T)) → ℕ
  total_length [] = 0
  total_length (queue ∷ queues) = length queue + total_length queues

  unfoldable pub size : Scheduler T → ℕ
  unfolding total_length
  size s = total_length s.queues

  unfoldable pub size_at : ℕ → Scheduler T → ℕ
  size_at priority s = length (get_or s.queues priority [])

  -- The queues of as many priorities, emptied.
  abbrev pub emptied : List (List (QueueItem T)) → List (List (QueueItem T))
  emptied [] = []
  emptied (queue ∷ queues) = [] ∷ emptied queues

  unfoldable pub clear : Scheduler T → Scheduler T × ℕ
  unfolding total_length
  clear s =
      let count = total_length s.queues in
      (record s { queues = emptied s.queues; total_dropped = s.total_dropped + count }, count)

  unfoldable pub clear_at : ℕ → Scheduler T → Scheduler T × ℕ
  clear_at priority s =
      let count = length (get_or s.queues priority []) in
      (
        record s { queues = set s.queues priority []; total_dropped = s.total_dropped + count },
        count,
      )

  unfoldable pub reset_stats : Scheduler T → Scheduler T
  reset_stats s = record s { total_enqueued = 0; total_dequeued = 0; total_dropped = 0 }

-- `determinePriority`, `priorityFromPublisher` and `priorityToPublisher`.
unfoldable pub determine_priority : ℕ → Bool → ℕ → ℕ
determine_priority object_id is_keyframe age =
    if is_keyframe || object_id == 0
    then high
    else (if ltb 500 age then low else (if ltb object_id 5 then medium_high else medium_low))

unfoldable pub priority_from_publisher : ℕ → ℕ
priority_from_publisher publisher_priority =
    if ltb publisher_priority 64
    then high
    else (if ltb publisher_priority 128
        then medium_high
        else (if ltb publisher_priority 192 then medium_low else low))

unfoldable pub priority_to_publisher : ℕ → ℕ
priority_to_publisher priority =
    if priority == high
    then 32
    else (if priority == medium_high
        then 96
        else (if priority == medium_low then 160 else (if priority == low then 224 else 128)))
