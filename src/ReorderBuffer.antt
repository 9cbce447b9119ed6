-- ===== src/ReorderBuffer.antt =====
-- class PresentationReorderBuffer of packages/media/src/pipeline/presentation-reorder-buffer.ts: decoded
-- frames wait in the order of their timestamps, and the oldest is released when too many wait or it
-- waits too long. The calls of onFrame and of close are the events that an operation gives back.
pub mod Search
pub mod Release
pub mod Order
pub mod Frames
pub mod Sequences
mod Runs
use moq_web.Base.{
  ℕ, zero, suc, ◌+◌, ◌-◌, ◌/◌, List, [], ◌∷◌, ◌++◌, length, take, drop, map, Bool, true, false,
  ◌||◌, Option, none, some, ltb, if◌then◌else◌,
}
use moq_web.Base.Int.{ℤ, pos, negsuc, leb_int, ltb_int}

pub record Config : Type 0 where
  pub buffer_depth : ℕ
  pub max_hold_time_ms : ℕ
  pub max_buffered_frames : ℕ

-- interface BufferedFrame
pub record Entry (Frame : Type 0) : Type 0 where
  pub frame : Frame
  pub timestamp : ℤ
  pub received_at : ℕ

pub data Event (Frame : Type 0) : Type 0 where
  presented : Frame → Event Frame
  closed : Frame → Event Frame

pub record Reorder (Frame : Type 0) : Type 0 where
  pub config : Config
  pub buffer : List (Entry Frame)
  pub last_released_timestamp : ℤ

module _ {Frame : Type 0} where
  -- The constructor.
  unfoldable pub new : Config → Reorder Frame
  new config = record { config = config; buffer = []; last_released_timestamp = negsuc 0 }

  unfoldable pub set_buffer_depth : ℕ → Reorder Frame → Reorder Frame
  set_buffer_depth depth s = record s { config = record s.config { buffer_depth = depth } }

  -- `this.buffer[i].timestamp <= timestamp`
  abbrev pub is_at_most : List (Entry Frame) → ℕ → ℤ → Bool
  is_at_most [] i t = false
  is_at_most (e ∷ es) zero t = leb_int e.timestamp t
  is_at_most (e ∷ es) (suc i) t = is_at_most es i t

  -- The binary search, for as many rounds as the fuel allows.
  unfoldable pub search : ℕ → List (Entry Frame) → ℤ → ℕ → ℕ → Option ℕ
  search zero buffer t lo hi = none
  search (suc fuel) buffer t lo hi = elim (ltb lo hi) [
    | false ↦ some lo
    | true ↦
        (let mid = (lo + hi) / 2 in
          elim (is_at_most buffer mid t) [
            | true ↦ search fuel buffer t (mid + 1) hi
            | false ↦ search fuel buffer t lo mid
          ])
  ]

  unfoldable pub find_insertion_index : ℤ → List (Entry Frame) → Option ℕ
  unfolding search
  find_insertion_index t buffer = search (suc (length buffer)) buffer t 0 (length buffer)

  -- The `while` loop over the frames above the hard cap.
  unfoldable pub drop_excess : ℕ → List (Entry Frame) → List (Entry Frame) × List (Event Frame)
  drop_excess cap [] = ([], [])
  drop_excess cap (e ∷ es) = elim (ltb cap (suc (length es))) [
    | false ↦ (e ∷ es, [])
    | true ↦ (let (kept, events) = drop_excess cap es in (kept, closed e.frame ∷ events))
  ]

  -- The loop of `releaseReadyFrames`: the frames that still wait, the timestamp last released, and the
  -- events.
  unfoldable pub release :
      Config → ℕ → ℤ → List (Entry Frame) → List (Entry Frame) × (ℤ × List (Event Frame))
  release config now last [] = ([], (last, []))
  release config now last (e ∷ es) =
      elim (ltb config.buffer_depth (suc (length es))
        || ltb config.max_hold_time_ms (now - e.received_at)) [
          | false ↦ (e ∷ es, (last, []))
          | true ↦ elim (ltb_int e.timestamp last) [
            | true ↦
                (let (kept, (last', events)) = release config now last es in
                  (kept, (last', closed e.frame ∷ events)))
            | false ↦
                (let (kept, (last', events)) = release config now e.timestamp es in
                  (kept, (last', presented e.frame ∷ events)))
          ]
        ]

  unfoldable pub release_ready_frames : ℕ → Reorder Frame → Reorder Frame × List (Event Frame)
  unfolding release
  release_ready_frames now s =
      let (kept, (last, events)) = release s.config now s.last_released_timestamp s.buffer in
      (record s { buffer = kept; last_released_timestamp = last }, events)

  -- `splice(i, 0, entry)`, and `push(entry)` at the end.
  unfoldable pub insert_at : ℕ → Entry Frame → List (Entry Frame) → List (Entry Frame)
  insert_at i entry buffer = take i buffer ++ (entry ∷ drop i buffer)

  -- `push` at the time `now`; `timestamp_of` is the frame's `timestamp`.
  unfoldable pub push :
      (timestamp_of : Frame → ℤ)
      → Frame
      → ℕ
      → Reorder Frame
      → Option (Reorder Frame × List (Event Frame))
  push timestamp_of frame now s = elim (find_insertion_index (timestamp_of frame) s.buffer) [
    | none ↦ none
    | some i ↦
        (let entry : Entry Frame = record {
          frame = frame;
          timestamp = timestamp_of frame;
          received_at = now;
        } in
          let (kept, dropped) =
            drop_excess s.config.max_buffered_frames (insert_at i entry s.buffer) in
          let (s', events) = release_ready_frames now (record s { buffer = kept }) in
          some (s', dropped ++ events))
  ]

  unfoldable pub flush : Reorder Frame → Reorder Frame × List (Event Frame)
  flush s = (record s { buffer = [] }, map (λ (e : Entry Frame). presented e.frame) s.buffer)

  unfoldable pub reset : Reorder Frame → Reorder Frame × List (Event Frame)
  reset s = (
    record s { buffer = []; last_released_timestamp = negsuc 0 },
    map (λ (e : Entry Frame). closed e.frame) s.buffer,
  )

  unfoldable pub size : Reorder Frame → ℕ
  size s = length s.buffer

-- A call on the buffer.
pub data Call (Frame : Type 0) : Type 0 where
  push_call : Frame → ℕ → Call Frame
  depth_call : ℕ → Call Frame
  flush_call reset_call : Call Frame

module _ {Frame : Type 0} (timestamp_of : Frame → ℤ) where
  unfoldable pub step : Call Frame → Reorder Frame → Option (Reorder Frame × List (Event Frame))
  step (push_call frame now) s = push timestamp_of frame now s
  step (depth_call depth) s = some (set_buffer_depth depth s, [])
  step flush_call s = some (flush s)
  step reset_call s = some (reset s)

  -- The calls one after the other, and the events of all.
  unfoldable pub run :
      List (Call Frame) → Reorder Frame → Option (Reorder Frame × List (Event Frame))
  run [] s = some (s, [])
  run (c ∷ cs) s = elim (step c s) [
    | none ↦ none
    | some (s', events) ↦ elim (run cs s') [
      | none ↦ none
      | some (s'', later) ↦ some (s'', events ++ later)
    ]
  ]
