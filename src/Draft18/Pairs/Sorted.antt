-- ===== src/Draft18/Pairs/Sorted.antt =====
-- The order in which encodeKeyValuePairs writes the pairs.
use moq_web.Base.{ℕ, suc, ◌≤◌, ◌≢◌, inl, inr, List, [], ◌∷◌, Bool-cases, leb, All, arith}
use moq_web.Draft18.Pairs.{Pairs, insert_pair, sort_pairs}

-- No key twice, as in a `Map`.
abbrev pub IsMap : Pairs → Type 0
IsMap [] = Unit
IsMap ((key, value) ∷ pairs) = All (λ (e : ℕ × List ℕ). e.0 ≢ key) pairs × IsMap pairs

-- Each key above the one before it, and none below the bound.
abbrev pub Ascends : ℕ → Pairs → Type 0
Ascends lower [] = Unit
Ascends lower ((key, value) ∷ pairs) = (lower ≤ key) × Ascends (suc key) pairs

insert_pair-All :
    (P : ℕ × List ℕ → Type 0) (key : ℕ) (value : List ℕ) (pairs : Pairs)
    → P (key, value)
    → All P pairs
    → All P (insert_pair key value pairs)
unfolding insert_pair
insert_pair-All P key value [] p ps = (p, tt)
insert_pair-All P key value ((k, v) ∷ pairs) p (q, qs) = elim (Bool-cases (leb key k)) [
  | inl e ↦ rw e (p, (q, qs))
  | inr e ↦ rw e (q, insert_pair-All P key value pairs p qs)
]

pub sort_pairs-All :
    (P : ℕ × List ℕ → Type 0) (pairs : Pairs) → All P pairs → All P (sort_pairs pairs)
unfolding sort_pairs
sort_pairs-All P [] ps = tt
sort_pairs-All P ((key, value) ∷ pairs) (p, ps) =
    insert_pair-All P key value (sort_pairs pairs) p (sort_pairs-All P pairs ps)

insert_pair-Ascends :
    (lower key : ℕ) (value : List ℕ) (pairs : Pairs)
    → lower ≤ key
    → All (λ (e : ℕ × List ℕ). e.0 ≢ key) pairs
    → Ascends lower pairs
    → Ascends lower (insert_pair key value pairs)
unfolding insert_pair
insert_pair-Ascends lower key value [] h ne a = (h, tt)
insert_pair-Ascends lower key value ((k, v) ∷ pairs) h (ne, nes) (b, a) =
    elim (Bool-cases (leb key k)) [
      | inl e ↦ rw e (h, (ground arith, a))
      | inr e ↦ rw e (b, insert_pair-Ascends (suc k) key value pairs (ground arith) nes a)
    ]

pub sort_pairs-Ascends : (pairs : Pairs) → IsMap pairs → Ascends 0 (sort_pairs pairs)
unfolding sort_pairs
sort_pairs-Ascends [] h = tt
sort_pairs-Ascends ((key, value) ∷ pairs) (ne, h) =
    insert_pair-Ascends 0 key value (sort_pairs pairs) (omega arith) (sort_pairs-All _ pairs ne)
      (sort_pairs-Ascends pairs h)
