-- ===== src/Replay/Refused.antt =====
-- AuthTokenReplayCache over sequences of checks.
use moq_web.Base.{
  ℕ, suc, ◌+◌, ◌-◌, ◌≤◌, ◌<◌, ◌≡◌, refl, ◌∙◌, List, [], ◌∷◌, length, true, false, Bool-cases, inl,
  inr, Option, none, some, Option-cases, All, leb, arith,
}
use moq_web.Base.Maps.{Keys, get}
use moq_web.Replay.Recent.{IsRecent, get-behind, own-IsRecent, recorded-IsRecent}
use moq_web.Replay.{Cache, fresh, duplicate, record_seen, check, after_checks}

module _ {Key : Type 0} (keys : Keys Key) where
  -- One more check, of whatever token.
  check-IsRecent :
      (key : Key) (token : Option Key) (now since n : ℕ) (s : Cache Key)
      → since ≤ now
      → suc n < s.max_entries
      → IsRecent keys key since n s.entries
      → IsRecent keys key since (suc n) (check keys token now s).1.entries
        × ((check keys token now s).1.max_entries ≡ s.max_entries)
        × ((check keys token now s).1.ttl_ms ≡ s.ttl_ms)
  unfolding check record_seen
  check-IsRecent key none now since n s later room (front, seen, back, whole, before, few, after) =
      ((front, seen, back, whole, before, omega arith, after), refl, refl)
  check-IsRecent key (some j) now since n s later room recent =
      elim (Option-cases (get keys j s.entries)) [
        | inl absent ↦
            rw (check, absent)
              (
                recorded-IsRecent keys false key j now since n s (λ e. absent) later room recent,
                refl,
                refl,
              )
        | inr (seen, present) ↦ elim (Bool-cases (leb (now - seen) s.ttl_ms)) [
          | inl soon ↦
              (let (front, at, back, whole, before, few, after) = recent in
                rw (check, present, soon)
                  ((front, at, back, whole, before, omega arith, after), refl, refl))
          | inr late ↦
              rw (check, present, late)
                (
                  recorded-IsRecent keys true key j now since n s (λ e. absurd (ground arith)) later
                      room recent,
                  refl,
                  refl,
                )
        ]
      ]

  again :
      (key : Key) (seen later : ℕ) (s : Cache Key)
      → get keys key s.entries ≡ some seen
      → later - seen ≤ s.ttl_ms
      → (check keys (some key) later s).0 ≡ duplicate
  unfolding check
  again key seen later s present soon =
      let within : leb (later - seen) s.ttl_ms ≡ true = ground arith in
      rw (check, present, within) refl

  -- The first check of a key, taken as fresh.
  first_check :
      (key : Key) (since : ℕ) (s : Cache Key)
      → (check keys (some key) since s).0 ≡ fresh
      → 0 < s.max_entries
      → IsRecent keys key since 0 (check keys (some key) since s).1.entries
        × ((check keys (some key) since s).1.max_entries ≡ s.max_entries)
        × ((check keys (some key) since s).1.ttl_ms ≡ s.ttl_ms)
  unfolding check record_seen
  first_check key since s taken room = elim (Option-cases (get keys key s.entries)) [
    | inl absent ↦
        rw (check, absent)
          (own-IsRecent keys false key since since 0 s (λ e. absent) (omega arith) room, refl, refl)
    | inr (seen, present) ↦ elim (Bool-cases (leb (since - seen) s.ttl_ms)) [
      | inl soon ↦
          (let refused = again key seen since s present (ground arith) in
            absurd (ground (arith, taken)))
      | inr late ↦
          rw (check, present, late)
            (
              own-IsRecent keys true key since since 0 s (λ e. absurd (ground arith)) (omega arith)
                  room,
              refl,
              refl,
            )
    ]
  ]

  after_checks-IsRecent :
      (key : Key) (calls : List (Option Key × ℕ)) (since n : ℕ) (s : Cache Key)
      → All (λ (c : Option Key × ℕ). since ≤ c.1) calls
      → n + length calls < s.max_entries
      → IsRecent keys key since n s.entries
      → IsRecent keys key since (n + length calls) (after_checks keys calls s).entries
        × ((after_checks keys calls s).ttl_ms ≡ s.ttl_ms)
  unfolding after_checks
  after_checks-IsRecent key [] since n s times room recent =
      let same_n : n + 0 ≡ n = omega arith in (rw same_n recent, refl)
  after_checks-IsRecent key ((token, now) ∷ calls) since n s (time, times) room recent =
      let (recent', max_same, ttl_same) =
        check-IsRecent key token now since n s time (omega arith) recent in
      let (recent'', ttl_same') =
        after_checks-IsRecent key calls since (suc n) (check keys token now s).1 times
          (omega (arith, max_same)) recent' in
      let count : n + suc (length calls) ≡ suc n + length calls = omega arith in
      (rw count recent'', ttl_same' ∙ ttl_same)

  -- A token that check took as fresh is refused as a duplicate when it comes again within the time to
  -- live, if between the two there were fewer checks than the cache holds entries, of whatever tokens,
  -- and none of them at a time before the first.
  pub check-duplicate :
      (key : Key) (since later : ℕ) (calls : List (Option Key × ℕ)) (s : Cache Key)
      → (check keys (some key) since s).0 ≡ fresh
      → All (λ (c : Option Key × ℕ). since ≤ c.1) calls
      → length calls < s.max_entries
      → later - since ≤ s.ttl_ms
      → (check keys (some key) later (after_checks keys calls (check keys (some key) since s).1)).0
        ≡ duplicate
  check-duplicate key since later calls s taken times room soon =
      let (recent, max_same, ttl_same) = first_check key since s taken (omega arith) in
      let ((front, seen, back, whole, before, few, after), ttl_same') =
        after_checks-IsRecent key calls since 0 (check keys (some key) since s).1 times
          (omega (arith, max_same)) recent in
      let found = get-behind keys key seen front back before in
      again key seen later (after_checks keys calls (check keys (some key) since s).1)
        (rw whole found) (omega (arith, ttl_same, ttl_same'))
