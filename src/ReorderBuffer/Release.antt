-- ===== src/ReorderBuffer/Release.antt =====
-- What the hard cap and the release do to sorted frames.
use moq_web.Base.{
  ℕ, suc, ◌+◌, ◌-◌, ◌≤◌, ◌≡◌, refl, ap, List, [], ◌∷◌, ◌++◌, length, true, Bool-cases, inl, inr,
  All, ltb, ◌||◌, arith,
}
use moq_web.Base.Int.{ℤ, leb_int, ltb_int}
use moq_web.ReorderBuffer.{Config, Entry, Event, presented, closed, drop_excess, release}
use moq_web.ReorderBuffer.Search.{IsSorted}

module _ {Frame : Type 0} where
  -- Whatever holds of each entry holds of each that is kept.
  pub drop_excess-All :
      (P : Entry Frame → Type 0) (cap : ℕ) (es : List (Entry Frame))
      → All P es
      → All P (drop_excess cap es).0
  unfolding drop_excess
  drop_excess-All P cap [] h = tt
  drop_excess-All P cap (e ∷ es) (h, hs) = elim (Bool-cases (ltb cap (suc (length es)))) [
    | inl over ↦ rw (drop_excess, over) (drop_excess-All P cap es hs)
    | inr under ↦ rw (drop_excess, under) (h, hs)
  ]

  pub drop_excess-IsSorted :
      (cap : ℕ) (es : List (Entry Frame)) → IsSorted es → IsSorted (drop_excess cap es).0
  unfolding drop_excess
  drop_excess-IsSorted cap [] h = tt
  drop_excess-IsSorted cap (e ∷ es) (low, h) = elim (Bool-cases (ltb cap (suc (length es)))) [
    | inl over ↦ rw (drop_excess, over) (drop_excess-IsSorted cap es h)
    | inr under ↦ rw (drop_excess, under) (low, h)
  ]

  -- The cap holds, and each frame is kept or closed.
  pub drop_excess-counts :
      (cap : ℕ) (es : List (Entry Frame))
      → (length (drop_excess cap es).0 ≤ cap)
        × (length (drop_excess cap es).0 + length (drop_excess cap es).1 ≡ length es)
  unfolding drop_excess
  drop_excess-counts cap [] = (omega arith, refl)
  drop_excess-counts cap (e ∷ es) = elim (Bool-cases (ltb cap (suc (length es)))) [
    | inl over ↦ rw (drop_excess, over) (ground (arith, drop_excess-counts cap es))
    | inr under ↦ rw (drop_excess, under) (ground arith)
  ]

-- Timestamps that do not fall, from `last` on, and the last of them.
abbrev pub IsRising : ℤ → List ℤ → Type 0
IsRising last [] = Unit
IsRising last (t ∷ ts) = (leb_int last t ≡ true) × IsRising t ts

abbrev pub last_of : ℤ → List ℤ → ℤ
last_of last [] = last
last_of last (t ∷ ts) = last_of t ts

pub IsRising-append :
    (last : ℤ) (xs ys : List ℤ)
    → IsRising last xs
    → IsRising (last_of last xs) ys
    → IsRising last (xs ++ ys)
IsRising-append last [] ys h k = k
IsRising-append last (x ∷ xs) ys (h, hs) k = (h, IsRising-append x xs ys hs k)

pub last_of-append :
    (last : ℤ) (xs ys : List ℤ) → last_of last (xs ++ ys) ≡ last_of (last_of last xs) ys
last_of-append last [] ys = refl
last_of-append last (x ∷ xs) ys = last_of-append x xs ys

module _ {Frame : Type 0} (timestamp_of : Frame → ℤ) where
  -- The timestamps of the frames presented.
  abbrev pub times : List (Event Frame) → List ℤ
  times [] = []
  times (presented frame ∷ events) = timestamp_of frame ∷ times events
  times (closed frame ∷ events) = times events

  pub times-append : (xs ys : List (Event Frame)) → times (xs ++ ys) ≡ times xs ++ times ys
  times-append [] ys = refl
  times-append (presented frame ∷ xs) ys =
      ap (λ (t : List ℤ). timestamp_of frame ∷ t) (times-append xs ys)
  times-append (closed frame ∷ xs) ys = times-append xs ys

  abbrev pub IsStamped : Entry Frame → Type 0
  IsStamped e = e.timestamp ≡ timestamp_of e.frame

  -- The cap presents nothing.
  pub times-drop_excess : (cap : ℕ) (es : List (Entry Frame)) → times (drop_excess cap es).1 ≡ []
  unfolding drop_excess
  times-drop_excess cap [] = refl
  times-drop_excess cap (e ∷ es) = elim (Bool-cases (ltb cap (suc (length es)))) [
    | inl over ↦ rw (drop_excess, over) (times-drop_excess cap es)
    | inr under ↦ rw (drop_excess, under) refl
  ]

  -- What releasing leaves, and what it presents.
  abbrev Releases : ℤ → List (Entry Frame) → List (Entry Frame) × (ℤ × List (Event Frame)) → Type 0
  Releases last es (kept, (last', events)) =
      (All IsStamped kept)
      × (IsSorted kept)
      × (length kept + length events ≡ length es)
      × (IsRising last (times events))
      × (last_of last (times events) ≡ last')

  pub release-Releases :
      (config : Config) (now : ℕ) (last : ℤ) (es : List (Entry Frame))
      → All IsStamped es
      → IsSorted es
      → Releases last es (release config now last es)
  unfolding release
  release-Releases config now last [] ps h = (tt, tt, refl, tt, refl)
  release-Releases config now last (e ∷ es) (p, ps) (low, h) =
      elim (Bool-cases (
        ltb config.buffer_depth (suc (length es))
        || ltb config.max_hold_time_ms (now - e.received_at))) [
          | inr stays ↦ rw (release, stays) ((p, ps), (low, h), omega arith, tt, refl)
          | inl goes ↦ elim (Bool-cases (ltb_int e.timestamp last)) [
            | inl late ↦
                (let (stamped, sorted, count, rising, latest) =
                    release-Releases config now last es ps h in
                  rw (release, goes, late) (stamped, sorted, omega (arith, count), rising, latest))
            | inr due ↦
                (let (stamped, sorted, count, rising, latest) =
                    release-Releases config now e.timestamp es ps h in
                  rw (release, goes, due)
                    (
                      stamped,
                      sorted,
                      omega (arith, count),
                      rw (← p) (ground arith, rising),
                      rw (← p) latest,
                    ))
          ]
        ]

  -- No more wait afterwards than the depth, or than before.
  pub length-release :
      (config : Config) (now : ℕ) (last : ℤ) (es : List (Entry Frame))
      → length (release config now last es).0 ≤ config.buffer_depth
  unfolding release
  length-release config now last [] = omega arith
  length-release config now last (e ∷ es) =
      elim (Bool-cases (
        ltb config.buffer_depth (suc (length es))
        || ltb config.max_hold_time_ms (now - e.received_at))) [
          | inr stays ↦ rw (release, stays) (ground arith)
          | inl goes ↦ elim (Bool-cases (ltb_int e.timestamp last)) [
            | inl late ↦ rw (release, goes, late) (length-release config now last es)
            | inr due ↦ rw (release, goes, due) (length-release config now e.timestamp es)
          ]
        ]
