-- ===== src/GroupNumbering/Laws.antt =====
-- From a full catalog on no location is given twice.
use moq_web.Base.{ℕ, ◌<◌, ◌≡◌, refl, ◌⊎◌, inl, inr, true, List, [], ◌∷◌, arith}
use moq_web.GroupNumbering.Epoch
use moq_web.GroupNumbering.Epoch.{EpochGroupNumbering}
use moq_web.GroupNumbering.Sequential
use moq_web.GroupNumbering.Sequential.{SequentialGroupNumbering}

-- A call, with the time of a full catalog.
pub data Call : Type 0 where
  full : ℕ → Call
  delta : Call

unfoldable pub epoch_step : Call → EpochGroupNumbering → EpochGroupNumbering × (ℕ × ℕ)
unfolding Epoch.next_full Epoch.next_delta
epoch_step (full now) n = Epoch.next_full now n
epoch_step delta n = Epoch.next_delta n

unfoldable pub sequential_step :
    Call → SequentialGroupNumbering → SequentialGroupNumbering × (ℕ × ℕ)
unfolding Sequential.next_full Sequential.next_delta
sequential_step (full now) n = Sequential.next_full n
sequential_step delta n = Sequential.next_delta n

-- What a sequence of calls gives, in their order.
module _ {N : Type 0} (step : Call → N → N × (ℕ × ℕ)) where
  unfoldable pub given : List Call → N → List (ℕ × ℕ)
  given [] n = []
  given (call ∷ calls) n = let (n', location) = step call n in location ∷ given calls n'

-- By group, and then by object.
abbrev pub IsEarlier : ℕ × ℕ → ℕ × ℕ → Type 0
IsEarlier a b = (a.0 < b.0) ⊎ ((a.0 ≡ b.0) × (a.1 < b.1))

-- Each location is later than the one before it, the first than the given one.
abbrev pub IsAscending : ℕ × ℕ → List (ℕ × ℕ) → Type 0
IsAscending last [] = Unit {0}
IsAscending last (a ∷ locations) = IsEarlier last a × IsAscending a locations

epoch_step-IsEarlier :
    (call : Call) (n : EpochGroupNumbering)
    → n.has_full_catalog ≡ true
    → IsEarlier (n.current_group, n.current_object) (epoch_step call n).1
      × ((epoch_step call n).0.has_full_catalog ≡ true)
      × ((epoch_step call n).1
          ≡ ((epoch_step call n).0.current_group, (epoch_step call n).0.current_object))
unfolding epoch_step
epoch_step-IsEarlier (full now) n h = rw h (inl (omega arith), refl, refl)
epoch_step-IsEarlier delta n h = (inr (refl, omega arith), h, refl)

numbered-IsAscending :
    (calls : List Call) (n : EpochGroupNumbering)
    → n.has_full_catalog ≡ true
    → IsAscending (n.current_group, n.current_object) (given epoch_step calls n)
unfolding given
numbered-IsAscending [] n h = tt
numbered-IsAscending (call ∷ calls) n h =
    let (later, still, same) = epoch_step-IsEarlier call n h in
    (later, rw same (numbered-IsAscending calls (epoch_step call n).0 still))

-- From a full catalog on, at whatever time it and the later ones come, every location that a numbering
-- gives comes after the one that it gave before, the first of them after that of the catalog, which has
-- the object 0.
pub given_epoch-IsAscending :
    (now : ℕ) (calls : List Call) (n : EpochGroupNumbering)
    → (group : ℕ) × (later : List (ℕ × ℕ)) × (given epoch_step (full now ∷ calls) n
        ≡ (group, 0) ∷ later)
      × IsAscending (group, 0) later
unfolding given epoch_step Epoch.next_full
given_epoch-IsAscending now calls n =
    let numbered = (Epoch.next_full now n).0 in
    (
      numbered.current_group,
      given epoch_step calls numbered,
      refl,
      numbered-IsAscending calls numbered refl,
    )

sequential_step-IsEarlier :
    (call : Call) (n : SequentialGroupNumbering)
    → IsEarlier (n.current_group, n.current_object) (sequential_step call n).1
      × ((sequential_step call n).1
          ≡ ((sequential_step call n).0.current_group, (sequential_step call n).0.current_object))
unfolding sequential_step
sequential_step-IsEarlier (full now) n = (inl (omega arith), refl)
sequential_step-IsEarlier delta n = (inr (refl, omega arith), refl)

-- Every location that a sequential numbering gives is later than those given before.
pub given_sequential-IsAscending :
    (calls : List Call) (n : SequentialGroupNumbering)
    → IsAscending (n.current_group, n.current_object) (given sequential_step calls n)
unfolding given
given_sequential-IsAscending [] n = tt
given_sequential-IsAscending (call ∷ calls) n =
    let (later, same) = sequential_step-IsEarlier call n in
    (later, rw same (given_sequential-IsAscending calls (sequential_step call n).0))
