-- ===== src/ReplayStore/Runs.antt =====
-- A store of two entries.
use moq_web.Base.{◌≤◌, ◌≡◌, refl, List, [], ◌∷◌, length, true, false, some, ok, All, arith}
use moq_web.Base.Int.{ℤ, pos, leb_int}
use moq_web.Base.Maps.{has, set, delete, keep}
use moq_web.Base.Texts.{Text, by_text}
use moq_web.ReplayStore.{MemoryReplayStore, evict_one, check_and_store}
use moq_web.ReplayStore.Laws.{after, check_and_store-refuses}
use moq_web.ReplayStore.Evicted.{IsIn, evict_one-first, check_and_store-bounded}

abbrev empty : MemoryReplayStore
empty = record { entries = []; max_entries = 2 }

abbrev one : MemoryReplayStore
one = record { entries = (0 ∷ 7 ∷ [], pos 50) ∷ []; max_entries = 2 }

stored_one : check_and_store (7 ∷ []) (some (pos 50)) (pos 10) empty ≡ ok (true, one)
unfolding check_and_store has keep set
stored_one = refl

check_and_store-refuses_example :
    (s : MemoryReplayStore) × (check_and_store
        (7 ∷ [])
        (some (pos 90))
        (pos 40)
        (after ((8 ∷ [], some (pos 60), pos 20) ∷ []) one)
      ≡ ok (false, s))
check_and_store-refuses_example =
    check_and_store-refuses (7 ∷ []) (pos 50) (pos 10) empty one
      ((8 ∷ [], some (pos 60), pos 20) ∷ []) (pos 90) (pos 40) stored_one (omega arith) (refl, tt)
      refl

check_and_store-bounded_example :
    (length one.entries ≤ one.max_entries) × (one.max_entries ≡ empty.max_entries)
check_and_store-bounded_example =
    check_and_store-bounded (7 ∷ []) (some (pos 50)) (pos 10) empty one true (omega arith)
      (omega arith) stored_one

evict_one-first_example :
    let entries : List (Text × ℤ) = (0 ∷ 7 ∷ [], pos 50) ∷ (0 ∷ 8 ∷ [], pos 20) ∷ [] in
    (victim_key : Text) × (v : ℤ) × (evict_one entries ≡ delete by_text victim_key entries)
    × IsIn (victim_key, v) entries
    × All (λ (e : Text × ℤ). leb_int v e.1 ≡ true) entries
evict_one-first_example = evict_one-first (0 ∷ 7 ∷ []) (pos 50) ((0 ∷ 8 ∷ [], pos 20) ∷ [])
