-- ===== src/ReorderBuffer/Search.antt =====
-- The binary search of PresentationReorderBuffer against the place in the order.
use moq_web.Base.{
  ℕ, zero, suc, ◌+◌, ◌-◌, ◌/◌, ◌≤◌, ◌<◌, ◌≡◌, refl, ap, ◌∙◌, List, [], ◌∷◌, length, true, false,
  Bool-cases, inl, inr, some, All, All-imp, ltb, arith, if◌then◌else◌,
}
use moq_web.Base.Int.{ℤ, leb_int, leb_int_trans, leb_int_total}
use moq_web.ReorderBuffer.{Entry, is_at_most, search, find_insertion_index, insert_at}

module _ {Frame : Type 0} where
  -- In the order of the timestamps.
  abbrev pub IsSorted : List (Entry Frame) → Type 0
  IsSorted [] = Unit
  IsSorted (e ∷ es) =
      All (λ (x : Entry Frame). leb_int e.timestamp x.timestamp ≡ true) es × IsSorted es

  -- How many entries at the front are not later than `t`.
  abbrev pub rank : ℤ → List (Entry Frame) → ℕ
  rank t [] = 0
  rank t (e ∷ es) = if leb_int e.timestamp t then suc (rank t es) else 0

  -- An entry among sorted ones: behind all that are not later.
  abbrev pub insert_sorted : Entry Frame → List (Entry Frame) → List (Entry Frame)
  insert_sorted entry [] = entry ∷ []
  insert_sorted entry (e ∷ es) =
      if leb_int e.timestamp entry.timestamp then e ∷ insert_sorted entry es else entry ∷ (e ∷ es)

  rank-le : (t : ℤ) (es : List (Entry Frame)) → rank t es ≤ length es
  rank-le t [] = omega arith
  rank-le t (e ∷ es) = ground (arith, rank-le t es)

  none_at_most :
      (t low : ℤ) (es : List (Entry Frame)) (i : ℕ)
      → leb_int low t ≡ false
      → All (λ (x : Entry Frame). leb_int low x.timestamp ≡ true) es
      → is_at_most es i t ≡ false
  none_at_most t low [] i h hs = refl
  none_at_most t low (e ∷ es) zero h (k, hs) = ground (arith, leb_int_trans low e.timestamp t k)
  none_at_most t low (e ∷ es) (suc i) h (k, hs) = none_at_most t low es i h hs

  is_at_most-rank :
      (t : ℤ) (es : List (Entry Frame)) (i : ℕ)
      → IsSorted es
      → is_at_most es i t ≡ ltb i (rank t es)
  is_at_most-rank t [] i h = ground arith
  is_at_most-rank t (e ∷ es) zero (low, h) = ground arith
  is_at_most-rank t (e ∷ es) (suc i) (low, h) = elim (Bool-cases (leb_int e.timestamp t)) [
    | inr late ↦ rw late (none_at_most t e.timestamp es i late low ∙ ground arith)
    | inl early ↦ rw early (is_at_most-rank t es i h ∙ ground arith)
  ]

  search-rank :
      (fuel : ℕ) (es : List (Entry Frame)) (t : ℤ) (lo hi : ℕ)
      → IsSorted es
      → lo ≤ rank t es
      → rank t es ≤ hi
      → hi - lo < fuel
      → search fuel es t lo hi ≡ some (rank t es)
  unfolding search
  search-rank zero es t lo hi h below above enough = absurd (omega arith)
  search-rank (suc fuel) es t lo hi h below above enough =
      let mid = (lo + hi) / 2 in
      let test = is_at_most-rank t es mid h in
      elim (Bool-cases (ltb lo hi)) [
        | inr met ↦ rw (search, met) (ap some (ground arith))
        | inl apart ↦ elim (Bool-cases (ltb mid (rank t es))) [
          | inl up ↦
              rw (search, apart, test, up)
                (search-rank fuel es t (mid + 1) hi h (ground arith) above (ground arith))
          | inr down ↦
              rw (search, apart, test, down)
                (search-rank fuel es t lo mid h below (ground arith) (ground arith))
        ]
      ]

  pub find_insertion_index-rank :
      (t : ℤ) (es : List (Entry Frame)) → IsSorted es → find_insertion_index t es ≡ some (rank t es)
  unfolding find_insertion_index
  find_insertion_index-rank t es h =
      search-rank (suc (length es)) es t 0 (length es) h (omega arith) (rank-le t es) (omega arith)

  pub insert_at-rank :
      (entry : Entry Frame) (es : List (Entry Frame))
      → insert_at (rank entry.timestamp es) entry es ≡ insert_sorted entry es
  unfolding insert_at
  insert_at-rank entry [] = refl
  insert_at-rank entry (e ∷ es) = elim (Bool-cases (leb_int e.timestamp entry.timestamp)) [
    | inr late ↦ rw late refl
    | inl early ↦ rw early (ap (λ (t : List (Entry Frame)). e ∷ t) (insert_at-rank entry es))
  ]

  pub insert_sorted-All :
      (P : Entry Frame → Type 0) (entry : Entry Frame) (es : List (Entry Frame))
      → P entry
      → All P es
      → All P (insert_sorted entry es)
  insert_sorted-All P entry [] p ps = (p, tt)
  insert_sorted-All P entry (e ∷ es) p (q, ps) =
      elim (Bool-cases (leb_int e.timestamp entry.timestamp)) [
        | inr late ↦ rw late (p, (q, ps))
        | inl early ↦ rw early (q, insert_sorted-All P entry es p ps)
      ]

  pub insert_sorted-IsSorted :
      (entry : Entry Frame) (es : List (Entry Frame))
      → IsSorted es
      → IsSorted (insert_sorted entry es)
  insert_sorted-IsSorted entry [] h = (tt, tt)
  insert_sorted-IsSorted entry (e ∷ es) (low, h) =
      elim (Bool-cases (leb_int e.timestamp entry.timestamp)) [
        | inl early ↦
            rw early (insert_sorted-All _ entry es early low, insert_sorted-IsSorted entry es h)
        | inr late ↦
            (let first = leb_int_total e.timestamp entry.timestamp late in
              rw late (
                (
                  first,
                  All-imp es (λ x k. leb_int_trans entry.timestamp e.timestamp x.timestamp first k)
                      low,
                ),
                (low, h),
              ))
      ]
