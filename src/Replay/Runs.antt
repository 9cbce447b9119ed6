-- ===== src/Replay/Runs.antt =====
-- A cache of three entries, and tokens by numbers.
use moq_web.Base.{ℕ, ◌≡◌, refl, List, [], ◌∷◌, Option, none, some, arith}
use moq_web.Base.Maps.{by_number, get}
use moq_web.Replay.{Cache, fresh, duplicate, check, after_checks}
use moq_web.Replay.Refused.{check-duplicate}

abbrev cache : Cache ℕ
cache = record { max_entries = 3; ttl_ms = 100; entries = (4, 10) ∷ (6, 20) ∷ (7, 150) ∷ [] }

-- A new token, one without a value, and one whose time is over.
abbrev between : List (Option ℕ × ℕ)
between = (some 8, 165) ∷ (none, 170) ∷ []

first_fresh : (check by_number (some 5) 160 cache).0 ≡ fresh
unfolding check get
first_fresh = refl

check-duplicate_example :
    (check by_number
      (some 5)
      200
      (after_checks by_number between (check by_number (some 5) 160 cache).1)).0
    ≡ duplicate
check-duplicate_example =
    check-duplicate by_number 5 160 200 between cache first_fresh (omega arith, (omega arith, tt))
      (omega arith) (omega arith)
