-- ===== src/ReorderBuffer/Order.antt =====
-- PresentationReorderBuffer.push on sorted frames.
use moq_web.Base.{ℕ, ◌≤◌, ◌≡◌, refl, List, ◌++◌, length, some, All, arith}
use moq_web.Base.Int.{ℤ}
use moq_web.ReorderBuffer.{Entry, Event, Reorder, drop_excess, release, release_ready_frames, push}
use moq_web.ReorderBuffer.Search.{
  IsSorted, insert_sorted, find_insertion_index-rank, insert_at-rank, insert_sorted-All,
  insert_sorted-IsSorted,
}
use moq_web.ReorderBuffer.Release.{
  drop_excess-All, drop_excess-IsSorted, drop_excess-counts, IsRising, last_of, times, times-append,
  times-drop_excess, IsStamped, release-Releases, length-release,
}

module _ {Frame : Type 0} (timestamp_of : Frame → ℤ) where
  -- The waiting frames are sorted by their own timestamps, and within the hard cap.
  abbrev pub IsValid : Reorder Frame → Type 0
  IsValid s =
      IsSorted s.buffer
      × All (IsStamped timestamp_of) s.buffer
      × (length s.buffer ≤ s.config.max_buffered_frames)

  abbrev pub entry_of : Frame → ℕ → Entry Frame
  entry_of frame now = record { frame = frame; timestamp = timestamp_of frame; received_at = now }

  -- `push` without the search: the frame goes behind all that are not later.
  abbrev pub push_in_order : Frame → ℕ → Reorder Frame → Reorder Frame × List (Event Frame)
  push_in_order frame now s =
      let (kept, dropped) =
        drop_excess s.config.max_buffered_frames (insert_sorted (entry_of frame now) s.buffer) in
      let (s', events) = release_ready_frames now (record s { buffer = kept }) in
      (s', dropped ++ events)

  -- On sorted frames the binary search of push ends, and push does what it would without the search:
  -- the frame goes behind all that are not later than it, and before the others.
  pub push-in_order :
      (frame : Frame) (now : ℕ) (s : Reorder Frame)
      → IsSorted s.buffer
      → push timestamp_of frame now s ≡ some (push_in_order frame now s)
  unfolding push
  push-in_order frame now s h =
      rw
        (
          push,
          find_insertion_index-rank (timestamp_of frame) s.buffer h,
          insert_at-rank (entry_of frame now) s.buffer,
        )
        refl

  abbrev pub Rises : Reorder Frame → Reorder Frame × List (Event Frame) → Type 0
  Rises s (s', events) =
      IsRising s.last_released_timestamp (times timestamp_of events)
      × (last_of s.last_released_timestamp (times timestamp_of events) ≡ s'.last_released_timestamp)

  pub push_in_order-IsValid :
      (frame : Frame) (now : ℕ) (s : Reorder Frame)
      → IsValid s
      → IsValid (push_in_order frame now s).0
        × Rises s (push_in_order frame now s)
        × (length (push_in_order frame now s).0.buffer ≤ s.config.buffer_depth)
  unfolding release_ready_frames
  push_in_order-IsValid frame now s (sorted, stamped, few) =
      let entry = entry_of frame now in
      let cap = s.config.max_buffered_frames in
      let waiting = insert_sorted entry s.buffer in
      let (under, all) = drop_excess-counts cap waiting in
      let kept = (drop_excess cap waiting).0 in
      let dropped = (drop_excess cap waiting).1 in
      let (stamped', sorted', count, rising, latest) =
        release-Releases timestamp_of s.config now s.last_released_timestamp kept
          (drop_excess-All (IsStamped timestamp_of) cap waiting
            (insert_sorted-All (IsStamped timestamp_of) entry s.buffer refl stamped))
          (drop_excess-IsSorted cap waiting (insert_sorted-IsSorted entry s.buffer sorted)) in
      let events = (release s.config now s.last_released_timestamp kept).1.1 in
      let none_presented = times-drop_excess timestamp_of cap waiting in
      (
        (sorted', stamped', omega (arith, count, under)),
        rw (times-append timestamp_of dropped events, none_presented) (rising, latest),
        length-release timestamp_of s.config now s.last_released_timestamp kept,
      )

  -- After a push on a valid buffer no more frames wait than the buffer depth, nor than the hard cap.
  pub push_waiting :
      (frame : Frame) (now : ℕ) (s : Reorder Frame)
      → IsValid s
      → (s' : Reorder Frame) × (events : List (Event Frame)) × (push timestamp_of frame now s
          ≡ some (s', events))
        × (length s'.buffer ≤ s.config.buffer_depth)
        × (length s'.buffer ≤ s'.config.max_buffered_frames)
  push_waiting frame now s h =
      let (valid, rises, few) = push_in_order-IsValid frame now s h in
      let (s', events) = push_in_order frame now s in
      (s', events, push-in_order frame now s h.0, few, valid.2)
