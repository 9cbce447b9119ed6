-- ===== src/GroupNumbering/Epoch.antt =====
-- class EpochGroupNumbering. `now` is `Math.floor(Date.now() / 1000)`.
use moq_web.Base.{ℕ, ◌+◌, max, Bool, true, false, Option, none, some, if◌then◌else◌}

pub record EpochGroupNumbering : Type 0 where
  pub current_group : ℕ
  pub current_object : ℕ
  pub has_full_catalog : Bool

unfoldable pub new : Option ℕ → ℕ → EpochGroupNumbering
new none now = record { current_group = now; current_object = 0; has_full_catalog = false }
new (some start_epoch) now = record {
  current_group = start_epoch;
  current_object = 0;
  has_full_catalog = false;
}

unfoldable pub next_full : ℕ → EpochGroupNumbering → EpochGroupNumbering × (ℕ × ℕ)
next_full now n =
    let group = if n.has_full_catalog then max now (n.current_group + 1) else now in
    (record { current_group = group; current_object = 0; has_full_catalog = true }, (group, 0))

unfoldable pub next_delta : EpochGroupNumbering → EpochGroupNumbering × (ℕ × ℕ)
next_delta n =
    let object = n.current_object + 1 in
    (record n { current_object = object }, (n.current_group, object))
