-- ===== src/Replay.antt =====
-- class AuthTokenReplayCache of packages/core/src/security/auth-token-replay.ts. The key, which is the
-- fingerprint of a token, is any type with an equality.
pub mod Recent
pub mod Refused
mod Runs
use moq_web.Base.{ℕ, ◌-◌, List, [], ◌∷◌, length, Bool, Option, none, some, leb, ltb, if◌then◌else◌}
use moq_web.Base.Maps.{Keys, get, set, delete}

pub data ReplayCheckResult : Type 0 where
  fresh duplicate expired : ReplayCheckResult

-- The entries hold the time at which each key was seen, in the order of insertion.
pub record Cache (Key : Type 0) : Type 0 where
  pub max_entries : ℕ
  pub ttl_ms : ℕ
  pub entries : List (Key × ℕ)

module _ {Key : Type 0} (keys : Keys Key) where
  -- The deletion of the first key, where there are too many.
  unfoldable pub evict : ℕ → List (Key × ℕ) → List (Key × ℕ)
  evict max_entries [] = []
  evict max_entries ((key, seen) ∷ entries) =
      if ltb max_entries (length ((key, seen) ∷ entries))
      then delete keys key ((key, seen) ∷ entries)
      else (key, seen) ∷ entries

  -- A key recorded as seen now; one that was there is deleted first, to go to the end.
  unfoldable pub record_seen : Bool → Key → ℕ → Cache Key → Cache Key
  record_seen existing key now s = record s {
    entries =
        evict s.max_entries
          (set keys key now (if existing then delete keys key s.entries else s.entries));
  }

  -- `check` at the time `now` of a token with the fingerprint, or of one that has none to go by.
  unfoldable pub check : Option Key → ℕ → Cache Key → ReplayCheckResult × Cache Key
  check none now s = (fresh, s)
  check (some key) now s = elim (get keys key s.entries) [
    | none ↦ (fresh, record_seen Bool.false key now s)
    | some seen ↦
        if leb (now - seen) s.ttl_ms
        then (duplicate, s)
        else (fresh, record_seen Bool.true key now s)
  ]

  -- The cache after a sequence of checks.
  unfoldable pub after_checks : List (Option Key × ℕ) → Cache Key → Cache Key
  after_checks [] s = s
  after_checks ((key, now) ∷ calls) s = after_checks calls (check key now s).1

  unfoldable pub clear : Cache Key → Cache Key
  clear s = record s { entries = [] }

  unfoldable pub size : Cache Key → ℕ
  size s = length s.entries
