-- ===== src/ReorderBuffer/Sequences.antt =====
-- Sequences of calls on a PresentationReorderBuffer.
use mathlib.Core.List.Perm
use mathlib.Core.List.{Perm, append-nil, append_assoc}
use moq_web.Base.{subst, ◌≡◌, refl, List, [], ◌∷◌, ◌++◌, some, All, arith}
use moq_web.Base.Int.{ℤ}
use moq_web.ReorderBuffer.{
  Event, Reorder, flush, reset, set_buffer_depth, Call, push_call, depth_call, flush_call,
  reset_call, step, run,
}
use moq_web.ReorderBuffer.Release.{
  IsRising, last_of, IsRising-append, last_of-append, times, times-append,
}
use moq_web.ReorderBuffer.Frames.{
  waiting, handled, handled-append, Accounts, push_in_order-Accounts, flush-frames, reset-frames,
}
use moq_web.ReorderBuffer.Order.{
  IsValid, Rises, push_in_order, push-in_order, push_in_order-IsValid,
}

module _ {Frame : Type 0} (timestamp_of : Frame → ℤ) where
  -- The frames that calls push.
  abbrev pub pushed : List (Call Frame) → List Frame
  pushed [] = []
  pushed (push_call frame now ∷ cs) = frame ∷ pushed cs
  pushed (depth_call depth ∷ cs) = pushed cs
  pushed (flush_call ∷ cs) = pushed cs
  pushed (reset_call ∷ cs) = pushed cs

  all_at_once :
      (s : Reorder Frame) (events : List (Event Frame))
      → handled events ≡ waiting s.buffer
      → Perm (handled events ++ []) (waiting s.buffer ++ [])
  all_at_once s events e = subst (λ w. Perm (handled events ++ []) (w ++ [])) e Perm.rfl

  step-keeps :
      (c : Call Frame) (s : Reorder Frame)
      → IsValid timestamp_of s
      → (next : Reorder Frame × List (Event Frame)) × (step timestamp_of c s ≡ some next)
        × IsValid timestamp_of next.0
        × Accounts timestamp_of (pushed (c ∷ [])) s next
  unfolding step set_buffer_depth flush reset
  step-keeps (push_call frame now) s h = (
    push_in_order timestamp_of frame now s,
    push-in_order timestamp_of frame now s h.0,
    (push_in_order-IsValid timestamp_of frame now s h).0,
    push_in_order-Accounts timestamp_of frame now s,
  )
  step-keeps (depth_call depth) s (sorted, stamped, few) =
      (_, refl, (sorted, stamped, few), rw (append-nil (waiting s.buffer)) Perm.rfl)
  step-keeps flush_call s h =
      (flush s, refl, (tt, tt, omega arith), all_at_once s (flush s).1 (flush-frames s.buffer))
  step-keeps reset_call s h =
      (reset s, refl, (tt, tt, omega arith), all_at_once s (reset s).1 (reset-frames s.buffer))

  pushed-cons :
      (c : Call Frame) (cs : List (Call Frame)) → pushed (c ∷ cs) ≡ pushed (c ∷ []) ++ pushed cs
  pushed-cons (push_call frame now) cs = refl
  pushed-cons (depth_call depth) cs = refl
  pushed-cons flush_call cs = refl
  pushed-cons reset_call cs = refl

  -- Any calls on a valid buffer, such as a new one, come to an end and leave it valid, that is sorted by
  -- the timestamps of its frames and within the hard cap. The frames presented or closed, with those
  -- that wait afterwards, are those that waited before with those that were pushed: each as often.
  pub run-keeps :
      (cs : List (Call Frame)) (s : Reorder Frame)
      → IsValid timestamp_of s
      → (s' : Reorder Frame) × (events : List (Event Frame)) × (run timestamp_of cs s
          ≡ some (s', events))
        × IsValid timestamp_of s'
        × Perm (handled events ++ waiting s'.buffer) (waiting s.buffer ++ pushed cs)
  unfolding run
  run-keeps [] s h = (s, [], refl, h, rw (append-nil (waiting s.buffer)) Perm.rfl)
  run-keeps (c ∷ cs) s h =
      let ((s1, first), does, h1, now) = step-keeps c s h in
      let (s2, rest, does', h2, later) = run-keeps cs s1 h1 in
      (
        s2,
        first ++ rest,
        rw (run, does, does') refl,
        h2,
        rw
            (
              handled-append first rest,
              append_assoc (handled first) (handled rest) (waiting s2.buffer),
              pushed-cons c cs,
              ← append_assoc (waiting s.buffer) (pushed (c ∷ [])) (pushed cs),
            )
            (Perm.trans (Perm.append_left (handled first) later) (
              rw (append_assoc (handled first) (waiting s1.buffer) (pushed cs)) at
                (Perm.append_right (pushed cs) now))),
      )

  -- A call that neither flushes nor resets.
  abbrev pub IsOngoing : Call Frame → Type 0
  IsOngoing (push_call frame now) = Unit
  IsOngoing (depth_call depth) = Unit
  IsOngoing flush_call = ⊥
  IsOngoing reset_call = ⊥

  step-Rises :
      (c : Call Frame) (s : Reorder Frame)
      → IsValid timestamp_of s
      → IsOngoing c
      → (next : Reorder Frame × List (Event Frame)) × (step timestamp_of c s ≡ some next)
        × IsValid timestamp_of next.0
        × Rises timestamp_of s next
  unfolding step set_buffer_depth
  step-Rises (push_call frame now) s h o =
      let (valid, rises, few) = push_in_order-IsValid timestamp_of frame now s h in
      (
        push_in_order timestamp_of frame now s,
        push-in_order timestamp_of frame now s h.0,
        valid,
        rises,
      )
  step-Rises (depth_call depth) s (sorted, stamped, few) o =
      (_, refl, (sorted, stamped, few), (tt, refl))
  step-Rises flush_call s h o = absurd o
  step-Rises reset_call s h o = absurd o

  -- Over calls of push and setBufferDepth on a valid buffer, the timestamps of the frames presented
  -- never fall, from the one that was released last before, and the last of them is recorded.
  pub run-rises :
      (cs : List (Call Frame)) (s : Reorder Frame)
      → IsValid timestamp_of s
      → All IsOngoing cs
      → (s' : Reorder Frame) × (events : List (Event Frame)) × (run timestamp_of cs s
          ≡ some (s', events))
        × IsRising s.last_released_timestamp (times timestamp_of events)
        × (last_of s.last_released_timestamp (times timestamp_of events)
            ≡ s'.last_released_timestamp)
  unfolding run
  run-rises [] s h os = (s, [], refl, tt, refl)
  run-rises (c ∷ cs) s h (o, os) =
      let ((s1, first), does, h1, (rising, latest)) = step-Rises c s h o in
      let (s2, rest, does', rising', latest') = run-rises cs s1 h1 os in
      let last = s.last_released_timestamp in
      (
        s2,
        first ++ rest,
        rw (run, does, does') refl,
        rw (times-append timestamp_of first rest) (
            IsRising-append last (times timestamp_of first) (times timestamp_of rest) rising
              (rw latest rising')),
        rw
            (
              times-append timestamp_of first rest,
              last_of-append last (times timestamp_of first) (times timestamp_of rest),
              latest,
            )
            latest',
      )
