-- ===== src/GroupNumbering/Sequential.antt =====
-- class SequentialGroupNumbering.
use moq_web.Base.{ℕ, ◌+◌}

pub record SequentialGroupNumbering : Type 0 where
  pub current_group : ℕ
  pub current_object : ℕ

unfoldable pub new : ℕ → SequentialGroupNumbering
new start_group = record { current_group = start_group; current_object = 0 }

unfoldable pub next_full : SequentialGroupNumbering → SequentialGroupNumbering × (ℕ × ℕ)
next_full n =
    let group = n.current_group + 1 in
    (record { current_group = group; current_object = 0 }, (group, 0))

unfoldable pub next_delta : SequentialGroupNumbering → SequentialGroupNumbering × (ℕ × ℕ)
next_delta n =
    let object = n.current_object + 1 in
    (record n { current_object = object }, (n.current_group, object))
