-- ===== src/ReplayStore.antt =====
-- class MemoryReplayStore of packages/cat/src/replay.ts, with acceptCatReplay and acceptDpopReplay over
-- it. Times are integers, in the seconds of the clock, which is an argument; one that is not a finite
-- number is none, as is a window below 0.
pub mod Laws
pub mod Evicted
mod Runs
use moq_web.Base.{
  ℕ, ◌+◌, ◌/◌, ◌%◌, ◌==◌, ◌||◌, List, [], ◌∷◌, length, Bool, true, false, not, Option, none, some,
  Result, ok, err, leb, ltb, ◌-◌, if◌then◌else◌,
}
use moq_web.Base.Int.{ℤ, pos, negsuc, leb_int, ltb_int}
use moq_web.Base.Maps.{has, set, delete, keep}
use moq_web.Base.Texts.{Text, by_text}
use moq_web.Varint.{max_safe_integer}

pub data ReplayError : Type 0 where
  bad_max_entries invalid_entry invalid_window : ReplayError

-- The entries hold the time at which each key expires.
pub record MemoryReplayStore : Type 0 where
  pub entries : List (Text × ℤ)
  pub max_entries : ℕ

unfoldable pub new : Option ℕ → Result ReplayError MemoryReplayStore
new none = ok (record { entries = []; max_entries = 100000 })
new (some max_entries) =
    if max_entries == 0 || ltb max_safe_integer max_entries
    then err bad_max_entries
    else ok (record { entries = []; max_entries = max_entries })

-- `bytesToHex`, of which each digit is its value.
unfoldable pub bytes_to_hex : List ℕ → Text
bytes_to_hex [] = []
bytes_to_hex (byte ∷ bytes) = byte / 16 ∷ byte % 16 ∷ bytes_to_hex bytes

unfoldable pub remove_expired : ℤ → List (Text × ℤ) → List (Text × ℤ)
remove_expired now entries = keep (λ (expires_at : ℤ). not (leb_int expires_at now)) entries

-- The loop of `evictOne`: the first of the entries that expire first; none compares as infinity.
abbrev pub earlier : ℤ → Option (Text × ℤ) → Bool
earlier expires_at none = true
earlier expires_at (some (key, best)) = ltb_int expires_at best

unfoldable pub victim : Option (Text × ℤ) → List (Text × ℤ) → Option (Text × ℤ)
victim best [] = best
victim best ((key, expires_at) ∷ entries) =
    victim (if earlier expires_at best then some (key, expires_at) else best) entries

unfoldable pub evict_one : List (Text × ℤ) → List (Text × ℤ)
unfolding victim
evict_one entries = elim (victim none entries) [
  | none ↦ entries
  | some (key, expires_at) ↦ delete by_text key entries
]

-- Room for one more entry.
unfoldable pub make_room : ℕ → List (Text × ℤ) → List (Text × ℤ)
unfolding evict_one
make_room max_entries entries =
    if leb max_entries (length entries) then evict_one entries else entries

abbrev pub is_empty : List ℕ → Bool
is_empty [] = true
is_empty (b ∷ bytes) = false

unfoldable pub store_fresh : Text → ℤ → ℤ → MemoryReplayStore → Bool × MemoryReplayStore
unfolding remove_expired make_room
store_fresh key expires_at now s =
    let entries = remove_expired now s.entries in
    if has by_text key entries
    then (false, record s { entries = entries })
    else (true, record s { entries = set by_text key expires_at (make_room s.max_entries entries) })

unfoldable pub check_and_store :
    List ℕ → Option ℤ → ℤ → MemoryReplayStore → Result ReplayError (Bool × MemoryReplayStore)
unfolding store_fresh bytes_to_hex
check_and_store id none now s = err invalid_entry
check_and_store id (some expires_at) now s =
    if is_empty id then err invalid_entry else ok (store_fresh (bytes_to_hex id) expires_at now s)

unfoldable pub size : ℤ → MemoryReplayStore → ℕ × MemoryReplayStore
unfolding remove_expired
size now s =
    let entries = remove_expired now s.entries in (length entries, record s { entries = entries })

-- `a ?? b`
abbrev pub first_of : Option ℤ → ℤ → ℤ
first_of none fallback = fallback
first_of (some a) fallback = a

abbrev pub plus : ℤ → ℕ → ℤ
plus (pos a) n = pos (a + n)
plus (negsuc a) n = if ltb a n then pos (n - (a + 1)) else negsuc (a - n)

-- A claim without an ID is accepted. `now` is that of the options, or the clock's.
unfoldable pub accept_cat_replay :
    Option (List ℕ)
    → Option ℤ
    → Option ℤ
    → ℤ
    → ℤ
    → MemoryReplayStore
    → Result ReplayError (Bool × MemoryReplayStore)
unfolding check_and_store
accept_cat_replay none expires_at exp now clock s = ok (true, s)
accept_cat_replay (some cti) expires_at exp now clock s =
    if is_empty cti
    then ok (true, s)
    else check_and_store cti (some (first_of expires_at (first_of exp (plus now 300)))) clock s

unfoldable pub accept_dpop_replay :
    List ℕ
    → Option ℤ
    → Option ℕ
    → ℤ
    → ℤ
    → MemoryReplayStore
    → Result ReplayError (Bool × MemoryReplayStore)
unfolding check_and_store
accept_dpop_replay id none window now clock s = err invalid_window
accept_dpop_replay id (some issued_at) none now clock s = err invalid_window
accept_dpop_replay id (some issued_at) (some window) now clock s =
    check_and_store id
      (some
        (if ltb_int now (plus issued_at window) then plus issued_at window else plus now window))
      clock s
