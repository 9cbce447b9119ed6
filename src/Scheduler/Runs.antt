-- ===== src/Scheduler/Runs.antt =====
-- A scheduler that holds two items, the older at a lower priority, and a third past its age.
use moq_web.Base.{ℕ, ◌+◌, ◌≡◌, List, [], ◌∷◌, some}
use moq_web.Scheduler.{QueueItem, Scheduler, new, dequeue, size}
use moq_web.Scheduler.Order.{waiting, dequeue_lem}
use moq_web.Scheduler.Counts.{
  Call, enqueue_call, dequeue_call, clear_at_call, run, run-new-accounted,
}

abbrev item : ℕ → ℕ → ℕ → ℕ → QueueItem ℕ
item data_of priority sequence enqueued_at = record {
  data_of = data_of;
  priority = priority;
  sequence = sequence;
  enqueued_at = enqueued_at;
}

abbrev scheduler : Scheduler ℕ
scheduler = record {
  queues = (item 30 0 2 100 ∷ item 31 0 3 400 ∷ []) ∷ [] ∷ (item 20 2 1 300 ∷ []) ∷ [] ∷ [];
  sequence = 4;
  total_enqueued = 4;
  total_dequeued = 1;
  total_dropped = 0;
  max_queue_size = 2;
  max_age = 150;
}

dequeue_lem_example :
    ((dequeue 420 scheduler).1 ≡ some 31)
    × (waiting (dequeue 420 scheduler).0 ≡ item 20 2 1 300 ∷ [])
dequeue_lem_example = dequeue_lem 420 scheduler

abbrev calls : List (Call ℕ)
calls =
    enqueue_call 5 40 0
    ∷ enqueue_call 6 41 0
    ∷ enqueue_call 7 42 3
    ∷ dequeue_call 8
    ∷ clear_at_call 3
    ∷ []

run-new-accounted_example :
    (run calls (new ℕ 1 0)).total_dequeued
      + (run calls (new ℕ 1 0)).total_dropped
      + size (run calls (new ℕ 1 0))
    ≡ 3
run-new-accounted_example = run-new-accounted ℕ 1 0 calls
