-- ===== src/GroupNumbering.antt =====
-- packages/msf/src/session/group-numbering.ts: a class to a child module. The locations that a call
-- gives are pairs of a group and an object.
mod Runs
pub mod Epoch
pub mod Sequential
pub mod Laws
use moq_web.Base.{ℕ, Bool, ◌==◌}

-- `isFullCatalog`, the same for both classes.
unfoldable pub is_full_catalog : ℕ → Bool
is_full_catalog object_id = object_id == 0
