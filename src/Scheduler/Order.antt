-- ===== src/Scheduler/Order.antt =====
-- The order in which a scheduler gives its items, against one list of all that wait.
use moq_web.Base.{
  ℕ, zero, suc, ◌<◌, ◌≡◌, ◌∙◌, refl, sym, ap, false, List, [], ◌∷◌, ◌++◌, length, get_or, set, take,
  drop, concat, Option, none, some, ltb, leb, if◌then◌else◌, ◌&&◌, arith, Bool-cases, Option-cases,
  inl, inr,
}
use mathlib.Core.List.{append-nil, append_assoc}
use moq_web.Scheduler.{
  QueueItem, Scheduler, valid_priority, enqueue, is_expired, sweep_queue, sweep, remove_expired,
  shift_first, take_item, dequeue, first_of, peek,
}

module _ {T : Type 0} where
  -- All that waits, in the order in which it is to be given.
  abbrev pub waiting : Scheduler T → List (QueueItem T)
  waiting s = concat s.queues

  -- The items that are not yet expired.
  abbrev pub unexpired : ℕ → ℕ → List (QueueItem T) → List (QueueItem T)
  unexpired now max_age [] = []
  unexpired now max_age (item ∷ items) =
      let rest = unexpired now max_age items in
      if ltb 0 max_age && is_expired now max_age item then rest else item ∷ rest

  abbrev pub first_data : List (QueueItem T) → Option T
  first_data [] = none
  first_data (item ∷ items) = some item.data_of

  abbrev pub all_but_first : List (QueueItem T) → List (QueueItem T)
  all_but_first [] = []
  all_but_first (item ∷ items) = items

  unexpired-append :
      (now max_age : ℕ) (xs ys : List (QueueItem T))
      → unexpired now max_age (xs ++ ys) ≡ unexpired now max_age xs ++ unexpired now max_age ys
  unexpired-append now max_age [] ys = refl
  unexpired-append now max_age (x ∷ xs) ys = ground (arith, unexpired-append now max_age xs ys)

  sweep_queue_lem :
      (now max_age : ℕ) (queue : List (QueueItem T))
      → 0 < max_age
      → (sweep_queue now max_age queue).0 ≡ unexpired now max_age queue
  unfolding sweep_queue
  sweep_queue_lem now max_age [] h = refl
  sweep_queue_lem now max_age (x ∷ xs) h = ground (arith, sweep_queue_lem now max_age xs h)

  sweep_lem :
      (now max_age : ℕ) (queues : List (List (QueueItem T)))
      → 0 < max_age
      → concat (sweep now max_age queues).0 ≡ unexpired now max_age (concat queues)
  unfolding sweep
  sweep_lem now max_age [] h = refl
  sweep_lem now max_age (queue ∷ queues) h =
      rw
        (
          unexpired-append now max_age queue (concat queues),
          sweep_queue_lem now max_age queue h,
          sweep_lem now max_age queues h,
        )
        refl

  unexpired-all :
      (now max_age : ℕ) (xs : List (QueueItem T)) → max_age ≡ 0 → unexpired now max_age xs ≡ xs
  unexpired-all now max_age [] h = refl
  unexpired-all now max_age (x ∷ xs) h = ground (arith, unexpired-all now max_age xs h)

  abbrev first_item : List (QueueItem T) → Option (QueueItem T)
  first_item [] = none
  first_item (item ∷ items) = some item

  first_item-none : (xs : List (QueueItem T)) → first_item xs ≡ none → xs ≡ []
  first_item-none [] h = refl
  first_item-none (x ∷ xs) h = cc

  first_item-some :
      (xs : List (QueueItem T)) (item : QueueItem T)
      → first_item xs ≡ some item
      → some item.data_of ≡ first_data xs
  first_item-some [] item h = cc
  first_item-some (x ∷ xs) item h = cc

  shift_first_lem :
      (queues : List (List (QueueItem T)))
      → (first_item (concat queues) ≡ (shift_first queues).0)
        × (concat (shift_first queues).1 ≡ all_but_first (concat queues))
  unfolding shift_first
  shift_first_lem [] = (refl, refl)
  shift_first_lem ((item ∷ queue) ∷ queues) = (refl, refl)
  shift_first_lem ([] ∷ queues) = shift_first_lem queues

  first_of_lem : (queues : List (List (QueueItem T))) → first_of queues ≡ first_data (concat queues)
  unfolding first_of
  first_of_lem [] = refl
  first_of_lem ((item ∷ queue) ∷ queues) = refl
  first_of_lem ([] ∷ queues) = first_of_lem queues

  take_item_lem :
      (s : Scheduler T)
      → ((take_item s).1 ≡ first_data (waiting s))
        × (waiting (take_item s).0 ≡ all_but_first (waiting s))
  unfolding take_item
  take_item_lem s =
      let (item, rest) = shift_first_lem s.queues in
      elim (Option-cases (shift_first s.queues).0) [
        | inl nothing ↦
            let empty = first_item-none (concat s.queues) (item ∙ nothing) in
            rw (take_item, nothing) (rw empty (refl, refl))
        | inr (first, found) ↦
            rw (take_item, found) (first_item-some (concat s.queues) first (item ∙ found), rest)
      ]

  -- `removeExpired`, which `dequeue` calls first when items can expire.
  remove_expired_lem :
      (now : ℕ) (s : Scheduler T)
      → waiting (if ltb 0 s.max_age then (remove_expired now s).0 else s)
        ≡ unexpired now s.max_age (waiting s)
  unfolding remove_expired
  remove_expired_lem now s = elim (Bool-cases (ltb 0 s.max_age)) [
    | inl limited ↦
        let some_age : leb s.max_age 0 ≡ false = ground arith in
        rw limited (rw some_age (sweep_lem now s.max_age s.queues (ground arith)))
    | inr unlimited ↦ rw unlimited (sym (unexpired-all now s.max_age (waiting s) (ground arith)))
  ]

  -- `peek` gives the item that comes first of all that waits.
  pub peek_lem : (s : Scheduler T) → peek s ≡ first_data (waiting s)
  unfolding peek
  peek_lem s = first_of_lem s.queues

  -- `dequeue` gives the first item that is not expired, from the front of the queue of the highest
  -- priority on, and leaves the unexpired others in their order.
  pub dequeue_lem :
      (now : ℕ) (s : Scheduler T)
      → ((dequeue now s).1 ≡ first_data (unexpired now s.max_age (waiting s)))
        × (waiting (dequeue now s).0 ≡ all_but_first (unexpired now s.max_age (waiting s)))
  unfolding dequeue
  dequeue_lem now s =
      let (item, rest) = take_item_lem (if ltb 0 s.max_age then (remove_expired now s).0 else s) in
      let fresh = remove_expired_lem now s in
      (item ∙ ap first_data fresh, rest ∙ ap all_but_first fresh)

  concat-set :
      (queues : List (List (QueueItem T))) (p : ℕ) (item : QueueItem T)
      → p < length queues
      → concat (set queues p (get_or queues p [] ++ item ∷ []))
        ≡ concat (take (suc p) queues) ++ item ∷ concat (drop (suc p) queues)
  concat-set [] p item h = absurd (omega arith)
  concat-set (queue ∷ queues) zero item h =
      append_assoc queue (item ∷ []) (concat queues)
      ∙ ap (λ (xs : List (QueueItem T)). xs ++ item ∷ concat queues) (sym (append-nil queue))
  concat-set (queue ∷ queues) (suc p) item h =
      ap (λ (xs : List (QueueItem T)). queue ++ xs) (concat-set queues p item (omega arith))
      ∙ sym
          (append_assoc queue (concat (take (suc p) queues)) (item ∷ concat (drop (suc p) queues)))

  -- On a scheduler with four queues, an item that `enqueue` takes goes behind all that waits at its
  -- priority or a higher one, and before the rest, with the next sequence number. One that it refuses changes nothing of what waits.
  pub enqueue_lem :
      (now : ℕ) (data_of : T) (priority : ℕ) (s : Scheduler T)
      → length s.queues ≡ 4
      → waiting (enqueue now data_of priority s).0 ≡ (
          if (enqueue now data_of priority s).1
          then (concat (take (suc (valid_priority priority)) s.queues)
              ++ record {
                data_of = data_of;
                priority = valid_priority priority;
                sequence = s.sequence;
                enqueued_at = now;
              }
                ∷ concat (drop (suc (valid_priority priority)) s.queues))
          else waiting s)
  unfolding enqueue
  enqueue_lem now data_of priority s four =
      elim (Bool-cases (
        ltb 0 s.max_queue_size
        && leb s.max_queue_size (length (get_or s.queues (valid_priority priority) [])))) [
          | inl full ↦ rw full refl
          | inr room ↦ rw room (concat-set s.queues (valid_priority priority) _ (ground arith))
        ]
