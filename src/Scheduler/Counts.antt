-- ===== src/Scheduler/Counts.antt =====
-- The counts of a scheduler over any sequence of calls.
use moq_web.Base.{
  ℕ, zero, suc, ◌+◌, ◌≤◌, ◌<◌, ◌≡◌, ◌∙◌, refl, ap, List, [], ◌∷◌, ◌++◌, length, get_or, set,
  length-append, length-set, some, ltb, leb, if◌then◌else◌, ◌&&◌, arith, Bool-cases, Option-cases,
  inl, inr,
}
use moq_web.Scheduler.{
  QueueItem, Scheduler, new, valid_priority, enqueue, sweep_queue, sweep, remove_expired,
  shift_first, take_item, dequeue, clear, clear_at, emptied, total_length, size,
}

-- A call, with the time at which it is made where that is read.
pub data Call (T : Type 0) : Type 0 where
  enqueue_call : ℕ → T → ℕ → Call T
  dequeue_call : ℕ → Call T
  clear_call : Call T
  clear_at_call : ℕ → Call T

module _ {T : Type 0} where
  unfoldable pub step : Call T → Scheduler T → Scheduler T
  unfolding enqueue dequeue clear clear_at
  step (enqueue_call now item priority) s = (enqueue now item priority s).0
  step (dequeue_call now) s = (dequeue now s).0
  step clear_call s = (clear s).0
  step (clear_at_call priority) s = (clear_at priority s).0

  unfoldable pub run : List (Call T) → Scheduler T → Scheduler T
  unfolding step
  run [] s = s
  run (call ∷ calls) s = run calls (step call s)

  -- The calls that offer an item.
  abbrev pub offered : List (Call T) → ℕ
  offered [] = 0
  offered (enqueue_call now item priority ∷ calls) = suc (offered calls)
  offered (dequeue_call now ∷ calls) = offered calls
  offered (clear_call ∷ calls) = offered calls
  offered (clear_at_call priority ∷ calls) = offered calls

  -- What has been given, dropped or still waits.
  abbrev pub accounted : Scheduler T → ℕ
  accounted s = s.total_dequeued + s.total_dropped + size s

  sweep_queue-length :
      (now max_age : ℕ) (queue : List (QueueItem T))
      → length (sweep_queue now max_age queue).0 + (sweep_queue now max_age queue).1 ≡ length queue
  unfolding sweep_queue
  sweep_queue-length now max_age [] = refl
  sweep_queue-length now max_age (x ∷ xs) = ground (arith, sweep_queue-length now max_age xs)

  sweep-length :
      (now max_age : ℕ) (queues : List (List (QueueItem T)))
      → total_length (sweep now max_age queues).0 + (sweep now max_age queues).1
        ≡ total_length queues
  unfolding sweep total_length
  sweep-length now max_age [] = refl
  sweep-length now max_age (queue ∷ queues) =
      ground (arith, sweep_queue-length now max_age queue, sweep-length now max_age queues)

  shift_first-length :
      (queues : List (List (QueueItem T))) (item : QueueItem T)
      → (shift_first queues).0 ≡ some item
      → suc (total_length (shift_first queues).1) ≡ total_length queues
  unfolding shift_first total_length
  shift_first-length [] item h = cc
  shift_first-length ((x ∷ queue) ∷ queues) item h = omega arith
  shift_first-length ([] ∷ queues) item h = omega (arith, shift_first-length queues item h)

  set-length :
      (queues : List (List (QueueItem T))) (p : ℕ) (queue : List (QueueItem T))
      → p < length queues
      → total_length (set queues p queue) + length (get_or queues p [])
        ≡ total_length queues + length queue
  unfolding total_length
  set-length [] p queue h = absurd (omega arith)
  set-length (q ∷ queues) zero queue h = omega arith
  set-length (q ∷ queues) (suc p) queue h = omega (arith, set-length queues p queue (omega arith))

  set-length_past :
      (queues : List (List (QueueItem T))) (p : ℕ) (queue : List (QueueItem T))
      → length queues ≤ p
      → total_length (set queues p queue) + length (get_or queues p []) ≡ total_length queues
  unfolding total_length
  set-length_past [] p queue h = refl
  set-length_past (q ∷ queues) zero queue h = absurd (omega arith)
  set-length_past (q ∷ queues) (suc p) queue h =
      omega (arith, set-length_past queues p queue (omega arith))

  emptied-length : (queues : List (List (QueueItem T))) → total_length (emptied queues) ≡ 0
  unfolding total_length
  emptied-length [] = refl
  emptied-length (queue ∷ queues) = omega (arith, emptied-length queues)

  take_item-accounted : (s : Scheduler T) → accounted (take_item s).0 ≡ accounted s
  unfolding take_item size
  take_item-accounted s = elim (Option-cases (shift_first s.queues).0) [
    | inl nothing ↦ rw (take_item, nothing) refl
    | inr (item, found) ↦
        rw (take_item, found) (omega (arith, shift_first-length s.queues item found))
  ]

  remove_expired-accounted :
      (now : ℕ) (s : Scheduler T)
      → accounted (if ltb 0 s.max_age then (remove_expired now s).0 else s) ≡ accounted s
  unfolding remove_expired size
  remove_expired-accounted now s = ground (arith, sweep-length now s.max_age s.queues)

  enqueue-accounted :
      (now : ℕ) (item : T) (priority : ℕ) (s : Scheduler T)
      → length s.queues ≡ 4
      → accounted (enqueue now item priority s).0 ≡ suc (accounted s)
  unfolding enqueue size
  enqueue-accounted now item priority s four =
      let p = valid_priority priority in
      let queue = get_or s.queues p [] in
      let at_most : p < length s.queues = ground arith in
      let added : QueueItem T = record {
        data_of = item;
        priority = p;
        sequence = s.sequence;
        enqueued_at = now;
      } in
      let grown = set-length s.queues p (queue ++ added ∷ []) at_most in
      let one_more = length-append queue (added ∷ []) in
      elim (Bool-cases (ltb 0 s.max_queue_size && leb s.max_queue_size (length queue))) [
        | inl full ↦ rw full (omega arith)
        | inr room ↦ rw room (omega (arith, grown, one_more))
      ]

  clear-accounted : (s : Scheduler T) → accounted (clear s).0 ≡ accounted s
  unfolding clear size
  clear-accounted s = omega (arith, emptied-length s.queues)

  clear_at-accounted : (p : ℕ) (s : Scheduler T) → accounted (clear_at p s).0 ≡ accounted s
  unfolding clear_at size
  clear_at-accounted p s = elim (Bool-cases (ltb p (length s.queues))) [
    | inl inside ↦ omega (arith, set-length s.queues p [] (ground arith))
    | inr past ↦ omega (arith, set-length_past s.queues p [] (ground arith))
  ]

  -- The queues stay as many as the priorities.
  sweep-count :
      (now max_age : ℕ) (queues : List (List (QueueItem T)))
      → length (sweep now max_age queues).0 ≡ length queues
  unfolding sweep
  sweep-count now max_age [] = refl
  sweep-count now max_age (queue ∷ queues) = ap suc (sweep-count now max_age queues)

  shift_first-count :
      (queues : List (List (QueueItem T))) → length (shift_first queues).1 ≡ length queues
  unfolding shift_first
  shift_first-count [] = refl
  shift_first-count ((x ∷ queue) ∷ queues) = refl
  shift_first-count ([] ∷ queues) = ap suc (shift_first-count queues)

  emptied-count : (queues : List (List (QueueItem T))) → length (emptied queues) ≡ length queues
  emptied-count [] = refl
  emptied-count (queue ∷ queues) = ap suc (emptied-count queues)

  take_item-count : (s : Scheduler T) → length (take_item s).0.queues ≡ length s.queues
  unfolding take_item
  take_item-count s = elim (Option-cases (shift_first s.queues).0) [
    | inl nothing ↦ rw (take_item, nothing) refl
    | inr (item, found) ↦ rw (take_item, found) (shift_first-count s.queues)
  ]

  remove_expired-count :
      (now : ℕ) (s : Scheduler T)
      → length (if ltb 0 s.max_age then (remove_expired now s).0 else s).queues ≡ length s.queues
  unfolding remove_expired
  remove_expired-count now s = ground (arith, sweep-count now s.max_age s.queues)

  enqueue-count :
      (now : ℕ) (item : T) (priority : ℕ) (s : Scheduler T)
      → length (enqueue now item priority s).0.queues ≡ length s.queues
  unfolding enqueue
  enqueue-count now item priority s =
      let queue = get_or s.queues (valid_priority priority) [] in
      elim (Bool-cases (ltb 0 s.max_queue_size && leb s.max_queue_size (length queue))) [
        | inl full ↦ rw full refl
        | inr room ↦ rw room (length-set s.queues (valid_priority priority) _)
      ]

  step-count : (call : Call T) (s : Scheduler T) → length (step call s).queues ≡ length s.queues
  unfolding step enqueue dequeue clear clear_at
  step-count (enqueue_call now item priority) s = enqueue-count now item priority s
  step-count (dequeue_call now) s =
      take_item-count (if ltb 0 s.max_age then (remove_expired now s).0 else s)
      ∙ remove_expired-count now s
  step-count clear_call s = emptied-count s.queues
  step-count (clear_at_call priority) s = length-set s.queues priority []

  -- Every offered item is given, dropped or waiting: none is lost, and none counted twice.
  pub run-accounted :
      (calls : List (Call T)) (s : Scheduler T)
      → length s.queues ≡ 4
      → accounted (run calls s) ≡ accounted s + offered calls
  unfolding run step dequeue
  run-accounted [] s four = omega arith
  run-accounted (enqueue_call now item priority ∷ calls) s four =
      let call = enqueue_call now item priority in
      let more = enqueue-accounted now item priority s four in
      omega (arith, run-accounted calls (step call s) (step-count call s ∙ four), more)
  run-accounted (dequeue_call now ∷ calls) s four =
      let fresh = if ltb 0 s.max_age then (remove_expired now s).0 else s in
      let same = take_item-accounted fresh ∙ remove_expired-accounted now s in
      let call = dequeue_call now in
      omega (arith, run-accounted calls (step call s) (step-count call s ∙ four), same)
  run-accounted (clear_call ∷ calls) s four = omega (
    arith,
    clear-accounted s,
    run-accounted calls (step clear_call s) (step-count clear_call s ∙ four),
  )
  run-accounted (clear_at_call p ∷ calls) s four =
      let call = clear_at_call p in
      omega (
        arith,
        clear_at-accounted p s,
        run-accounted calls (step call s) (step-count call s ∙ four),
      )

-- From a new scheduler, the offered items are those given, dropped and waiting.
pub run-new-accounted :
    (T : Type 0) (max_queue_size max_age : ℕ) (calls : List (Call T))
    → (run calls (new T max_queue_size max_age)).total_dequeued
        + (run calls (new T max_queue_size max_age)).total_dropped
        + size (run calls (new T max_queue_size max_age))
      ≡ offered calls
unfolding new size total_length
run-new-accounted T max_queue_size max_age calls =
    omega (arith, run-accounted calls (new T max_queue_size max_age) refl)
