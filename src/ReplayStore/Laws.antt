-- ===== src/ReplayStore/Laws.antt =====
-- What MemoryReplayStore refuses, and what it evicts.
use moq_web.Base.{
  ℕ, suc, ◌+◌, ◌/◌, ◌%◌, ◌≤◌, ◌<◌, ◌≡◌, refl, sym, ap, ◌∙◌, inl, inr, List, [], ◌∷◌, length, Bool,
  true, false, not, Bool-cases, Option, none, some, Result, ok, err, All, leb, arith, cons_eq,
  ok-injective,
}
use moq_web.Base.Int.{ℤ, leb_int}
use moq_web.Base.Maps.{get, has, set, keep, get-set}
use moq_web.Base.Texts.{Text, same_text, same_text_iff, by_text}
use moq_web.ReplayStore.{
  MemoryReplayStore, bytes_to_hex, remove_expired, make_room, store_fresh, check_and_store,
  ReplayError,
}

-- Different IDs have different keys.
bytes_to_hex-injective : (a b : List ℕ) → bytes_to_hex a ≡ bytes_to_hex b → a ≡ b
unfolding bytes_to_hex
bytes_to_hex-injective [] [] e = refl
bytes_to_hex-injective [] (y ∷ b) e = absurd (ground arith)
bytes_to_hex-injective (x ∷ a) [] e = absurd (ground arith)
bytes_to_hex-injective (x ∷ a) (y ∷ b) e =
    let high : x / 16 ≡ y / 16 = ground arith in
    let low : x % 16 ≡ y % 16 = ground arith in
    let rest : bytes_to_hex a ≡ bytes_to_hex b = ground arith in
    cons_eq (omega arith) (bytes_to_hex-injective a b rest)

get-keep :
    (test : ℤ → Bool) (k : Text) (v : ℤ) (entries : List (Text × ℤ))
    → get by_text k entries ≡ some v
    → test v ≡ true
    → get by_text k (keep test entries) ≡ some v
unfolding get keep
get-keep test k v [] e h = absurd (ground arith)
get-keep test k v ((key, value) ∷ entries) e h = elim (Bool-cases (same_text key k)) [
  | inl here ↦
      (let found : value ≡ v = ground arith in
        let passes : test value ≡ true = ap test found ∙ h in rw (passes, here) (ap some found))
  | inr other ↦
      (let rest = get-keep test k v entries (rw other at e) h in
        elim (Bool-cases (test value)) [
          | inl kept ↦ rw (kept, other) rest
          | inr dropped ↦ rw dropped rest
        ])
]

get-has :
    (k : Text) (v : ℤ) (entries : List (Text × ℤ))
    → get by_text k entries ≡ some v
    → has by_text k entries ≡ true
unfolding get has
get-has k v [] e = absurd (ground arith)
get-has k v ((key, value) ∷ entries) e = ground (arith, get-has k v entries)

pub length-keep :
    (test : ℤ → Bool) (entries : List (Text × ℤ)) → length (keep test entries) ≤ length entries
unfolding keep
length-keep test [] = omega arith
length-keep test ((key, value) ∷ entries) = ground (arith, length-keep test entries)

pub length-set :
    (k : Text) (v : ℤ) (entries : List (Text × ℤ))
    → length (set by_text k v entries) ≤ suc (length entries)
unfolding set
length-set k v [] = omega arith
length-set k v ((key, value) ∷ entries) = ground (arith, length-set k v entries)

-- What the store does with an ID that has an entry, before the entry expires.
refused :
    (key : Text) (v expires_at now : ℤ) (s : MemoryReplayStore)
    → get by_text key s.entries ≡ some v
    → leb_int v now ≡ false
    → ((store_fresh key expires_at now s).0 ≡ false)
      × (get by_text key (store_fresh key expires_at now s).1.entries ≡ some v)
unfolding store_fresh remove_expired
refused key v expires_at now s found fresh =
    let live : not (leb_int v now) ≡ true = ground arith in
    let still = get-keep (λ t. not (leb_int t now)) key v s.entries found live in
    let there = get-has key v (keep (λ t. not (leb_int t now)) s.entries) still in
    (rw (store_fresh, there) refl, rw (store_fresh, there) still)

not_seen :
    (key other : Text) (v : ℤ) (entries : List (Text × ℤ))
    → get by_text key entries ≡ some v
    → has by_text other entries ≡ false
    → same_text other key ≡ false
not_seen key other v entries found unused = elim (Bool-cases (same_text other key)) [
  | inr apart ↦ apart
  | inl same ↦
      (let there = get-has key v entries found in
        let both = ap (λ (t : Text). has by_text t entries) ((same_text_iff other key).0 same) in
        absurd (ground arith))
]

-- An entry stays over a check of any ID at a time before it expires, while there is room.
kept_entry :
    (key other : Text) (v expires_at now : ℤ) (s : MemoryReplayStore)
    → get by_text key s.entries ≡ some v
    → leb_int v now ≡ false
    → length s.entries < s.max_entries
    → let s' = (store_fresh other expires_at now s).1 in
      (get by_text key s'.entries ≡ some v)
      × (length s'.entries ≤ suc (length s.entries))
      × (s'.max_entries ≡ s.max_entries)
unfolding store_fresh remove_expired make_room
kept_entry key other v expires_at now s found fresh room =
    let entries = keep (λ t. not (leb_int t now)) s.entries in
    let live : not (leb_int v now) ≡ true = ground arith in
    let still = get-keep (λ t. not (leb_int t now)) key v s.entries found live in
    let fewer = length-keep (λ t. not (leb_int t now)) s.entries in
    elim (Bool-cases (has by_text other entries)) [
      | inl there ↦ (
        rw (store_fresh, there) still,
        rw (store_fresh, there) (omega arith),
        rw (store_fresh, there) refl,
      )
      | inr unused ↦
          (let no_eviction : leb s.max_entries (length entries) ≡ false = ground arith in
            let apart = not_seen key other v entries still unused in
            (
              rw (store_fresh, unused, no_eviction)
                  (get-set by_text other key expires_at entries ∙ rw apart still),
              rw (store_fresh, unused, no_eviction)
                  (omega (arith, length-set other expires_at entries)),
              rw (store_fresh, unused) refl,
            ))
    ]

-- Checks of IDs with the times they expire and the times of the checks, one after the other; one that
-- throws leaves the store as it was.
abbrev pub Check : Type 0
Check = List ℕ × Option ℤ × ℤ

abbrev pub left :
    Result ReplayError (Bool × MemoryReplayStore) → MemoryReplayStore → MemoryReplayStore
left (ok (fresh, s')) s = s'
left (err e) s = s

unfoldable pub after : List Check → MemoryReplayStore → MemoryReplayStore
after [] s = s
after ((id, expires_at, now) ∷ checks) s =
    after checks (left (check_and_store id expires_at now s) s)

kept_step :
    (key id : Text) (v : ℤ) (expires_at : Option ℤ) (now : ℤ) (s : MemoryReplayStore)
    → get by_text key s.entries ≡ some v
    → leb_int v now ≡ false
    → length s.entries < s.max_entries
    → let s' = left (check_and_store id expires_at now s) s in
      (get by_text key s'.entries ≡ some v)
      × (length s'.entries ≤ suc (length s.entries))
      × (s'.max_entries ≡ s.max_entries)
unfolding check_and_store
kept_step key id v none now s found fresh room = (found, omega arith, refl)
kept_step key [] v (some t) now s found fresh room = (found, omega arith, refl)
kept_step key (b ∷ id) v (some t) now s found fresh room =
    kept_entry key (bytes_to_hex (b ∷ id)) v t now s found fresh room

kept_over :
    (key : Text) (v : ℤ) (checks : List Check) (s : MemoryReplayStore)
    → get by_text key s.entries ≡ some v
    → All (λ (c : Check). leb_int v c.2 ≡ false) checks
    → length s.entries + length checks ≤ s.max_entries
    → get by_text key (after checks s).entries ≡ some v
unfolding after
kept_over key v [] s found fresh room = found
kept_over key v ((id, expires_at, now) ∷ checks) s found (fresh, later) room =
    let (still, longer, same) = kept_step key id v expires_at now s found fresh (omega arith) in
    kept_over key v checks (left (check_and_store id expires_at now s) s) still later
      (omega (arith, same))

stored :
    (key : Text) (v now : ℤ) (s s' : MemoryReplayStore)
    → store_fresh key v now s ≡ (true, s')
    → get by_text key s'.entries ≡ some v
unfolding store_fresh
stored key v now s s' e = elim (Bool-cases (has by_text key (remove_expired now s.entries))) [
  | inl there ↦ absurd (let e' = rw (store_fresh, there) at e in ground arith)
  | inr unused ↦
      (let e' = rw (store_fresh, unused) at e in
        let entries = make_room s.max_entries (remove_expired now s.entries) in
        let same : s'.entries ≡ set by_text key v entries =
          ap (λ (t : Bool × MemoryReplayStore). t.1.entries) (sym e') in
        rw same (get-set by_text key key v entries ∙ rw ((same_text_iff key key).1 refl) refl))
]

-- An ID that checkAndStore took as fresh is refused before it expires: behind any other checks, at times
-- before it expires and no more of them than the store then had room for, another check of it, at such a
-- time, returns false.
pub check_and_store-refuses :
    (id : List ℕ) (v now : ℤ) (s s' : MemoryReplayStore) (checks : List Check) (expires_at now' : ℤ)
    → check_and_store id (some v) now s ≡ ok (true, s')
    → length s'.entries + length checks ≤ s'.max_entries
    → All (λ (c : Check). leb_int v c.2 ≡ false) checks
    → leb_int v now' ≡ false
    → (s'' : MemoryReplayStore) × (check_and_store id (some expires_at) now' (after checks s')
        ≡ ok (false, s''))
unfolding check_and_store
check_and_store-refuses [] v now s s' checks expires_at now' e room before live =
    absurd (ground arith)
check_and_store-refuses (b ∷ bytes) v now s s' checks expires_at now' e room before live =
    let key = bytes_to_hex (b ∷ bytes) in
    let took : store_fresh key v now s ≡ (true, s') = ok-injective e in
    let found = kept_over key v checks s' (stored key v now s s' took) before room in
    let (refusal, still) = refused key v expires_at now' (after checks s') found live in
    let result = store_fresh key expires_at now' (after checks s') in
    (result.1, ap ok (λ i. (refusal i, result.1)))
