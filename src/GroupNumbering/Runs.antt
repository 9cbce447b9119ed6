-- ===== src/GroupNumbering/Runs.antt =====
-- Numberings over a clock that goes back.
use moq_web.Base.{ℕ, ◌≡◌, refl, true, none, List, [], ◌∷◌}
use moq_web.GroupNumbering.Epoch
use moq_web.GroupNumbering.Epoch.{EpochGroupNumbering}
use moq_web.GroupNumbering.Laws.{
  Call, full, delta, epoch_step, given, IsAscending, given_epoch-IsAscending,
}

abbrev calls : List Call
calls = delta ∷ full 90 ∷ full 90 ∷ delta ∷ full 120 ∷ []

abbrev started : EpochGroupNumbering
started = record { current_group = 100; current_object = 0; has_full_catalog = true }

given_epoch :
    given epoch_step calls started ≡ (100, 1) ∷ (101, 0) ∷ (102, 0) ∷ (102, 1) ∷ (120, 0) ∷ []
unfolding given epoch_step
given_epoch = refl

given_epoch-IsAscending_example :
    (group : ℕ) × (later : List (ℕ × ℕ)) × (given epoch_step (full 100 ∷ calls) (Epoch.new none 100)
      ≡ (group, 0) ∷ later)
    × IsAscending (group, 0) later
given_epoch-IsAscending_example = given_epoch-IsAscending 100 calls (Epoch.new none 100)

-- A delta before the first full catalog and one behind it, in the same second, get the same location.
repeated_location :
    given epoch_step (delta ∷ full 100 ∷ delta ∷ []) (Epoch.new none 100)
    ≡ (100, 1) ∷ (100, 0) ∷ (100, 1) ∷ []
unfolding given epoch_step Epoch.new Epoch.next_full Epoch.next_delta
repeated_location = refl
