-- ===== src/ReorderBuffer/Frames.antt =====
-- The frames that wait and those of the events, of which none is lost and none is made.
use mathlib.Core.List.Perm
use mathlib.Core.List.{Perm, perm_middle, append-nil, append_assoc}
use moq_web.Base.{
  ℕ, suc, ◌-◌, ◌≡◌, refl, ap, List, [], ◌∷◌, ◌++◌, length, map, Bool-cases, inl, inr, ltb, ◌||◌,
}
use moq_web.Base.Int.{ℤ, leb_int, ltb_int}
use moq_web.ReorderBuffer.{
  Config, Entry, Event, Reorder, presented, closed, drop_excess, release, release_ready_frames,
}
use moq_web.ReorderBuffer.Search.{insert_sorted}
use moq_web.ReorderBuffer.Order.{entry_of, push_in_order}

module _ {Frame : Type 0} where
  abbrev pub waiting : List (Entry Frame) → List Frame
  waiting [] = []
  waiting (e ∷ es) = e.frame ∷ waiting es

  -- The frames presented or closed.
  abbrev pub handled : List (Event Frame) → List Frame
  handled [] = []
  handled (presented frame ∷ events) = frame ∷ handled events
  handled (closed frame ∷ events) = frame ∷ handled events

  pub handled-append : (xs ys : List (Event Frame)) → handled (xs ++ ys) ≡ handled xs ++ handled ys
  handled-append [] ys = refl
  handled-append (presented frame ∷ xs) ys =
      ap (λ (t : List Frame). frame ∷ t) (handled-append xs ys)
  handled-append (closed frame ∷ xs) ys = ap (λ (t : List Frame). frame ∷ t) (handled-append xs ys)

  drop_excess-frames :
      (cap : ℕ) (es : List (Entry Frame))
      → handled (drop_excess cap es).1 ++ waiting (drop_excess cap es).0 ≡ waiting es
  unfolding drop_excess
  drop_excess-frames cap [] = refl
  drop_excess-frames cap (e ∷ es) = elim (Bool-cases (ltb cap (suc (length es)))) [
    | inl over ↦
        rw (drop_excess, over) (ap (λ (t : List Frame). e.frame ∷ t) (drop_excess-frames cap es))
    | inr under ↦ rw (drop_excess, under) refl
  ]

  release-frames :
      (config : Config) (now : ℕ) (last : ℤ) (es : List (Entry Frame))
      → handled (release config now last es).1.1 ++ waiting (release config now last es).0
        ≡ waiting es
  unfolding release
  release-frames config now last [] = refl
  release-frames config now last (e ∷ es) =
      elim (Bool-cases (
        ltb config.buffer_depth (suc (length es))
        || ltb config.max_hold_time_ms (now - e.received_at))) [
          | inr stays ↦ rw (release, stays) refl
          | inl goes ↦ elim (Bool-cases (ltb_int e.timestamp last)) [
            | inl late ↦
                rw (release, goes, late)
                  (ap (λ (t : List Frame). e.frame ∷ t) (release-frames config now last es))
            | inr due ↦
                rw (release, goes, due)
                  (ap (λ (t : List Frame). e.frame ∷ t) (release-frames config now e.timestamp es))
          ]
        ]

  -- Whatever is presented at once is the list of the frames.
  pub flush-frames :
      (es : List (Entry Frame))
      → handled (map (λ (e : Entry Frame). presented e.frame) es) ≡ waiting es
  flush-frames [] = refl
  flush-frames (e ∷ es) = ap (λ (t : List Frame). e.frame ∷ t) (flush-frames es)

  pub reset-frames :
      (es : List (Entry Frame))
      → handled (map (λ (e : Entry Frame). closed e.frame) es) ≡ waiting es
  reset-frames [] = refl
  reset-frames (e ∷ es) = ap (λ (t : List Frame). e.frame ∷ t) (reset-frames es)

  insert_sorted-Perm :
      (entry : Entry Frame) (es : List (Entry Frame))
      → Perm (waiting (insert_sorted entry es)) (entry.frame ∷ waiting es)
  insert_sorted-Perm entry [] = Perm.rfl
  insert_sorted-Perm entry (e ∷ es) = elim (Bool-cases (leb_int e.timestamp entry.timestamp)) [
    | inl before ↦ rw before (
        Perm.trans (Perm.cons e.frame (insert_sorted-Perm entry es))
          (Perm.swap entry.frame e.frame (waiting es)))
    | inr behind ↦ rw behind Perm.rfl
  ]

module _ {Frame : Type 0} (timestamp_of : Frame → ℤ) where
  -- What a call that pushes `pushed` makes of a buffer.
  abbrev pub Accounts : List Frame → Reorder Frame → Reorder Frame × List (Event Frame) → Type 0
  Accounts pushed s (s', events) =
      Perm (handled events ++ waiting s'.buffer) (waiting s.buffer ++ pushed)

  pub push_in_order-Accounts :
      (frame : Frame) (now : ℕ) (s : Reorder Frame)
      → Accounts (frame ∷ []) s (push_in_order timestamp_of frame now s)
  unfolding release_ready_frames
  push_in_order-Accounts frame now s =
      let entry = entry_of timestamp_of frame now in
      let cap = s.config.max_buffered_frames in
      let sorted = insert_sorted entry s.buffer in
      let kept = (drop_excess cap sorted).0 in
      let dropped = (drop_excess cap sorted).1 in
      let released = release s.config now s.last_released_timestamp kept in
      let same : handled (dropped ++ released.1.1) ++ waiting released.0 ≡ waiting sorted =
        rw
          (
            handled-append dropped released.1.1,
            append_assoc (handled dropped) (handled released.1.1) (waiting released.0),
            release-frames s.config now s.last_released_timestamp kept,
          )
          (drop_excess-frames cap sorted) in
      let last : Perm (frame ∷ waiting s.buffer) (waiting s.buffer ++ frame ∷ []) =
        Perm.symm
          (rw (append-nil (waiting s.buffer)) at (perm_middle {a = frame} (waiting s.buffer) [])) in
      rw same (Perm.trans (insert_sorted-Perm entry s.buffer) last)
