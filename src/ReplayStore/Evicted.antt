-- ===== src/ReplayStore/Evicted.antt =====
-- Which entry MemoryReplayStore evicts, and how many it holds.
use moq_web.Base.{
  ℕ, ◌≤◌, ◌<◌, ◌≡◌, refl, sym, ap, ◌∙◌, ◌⊎◌, inl, inr, List, [], ◌∷◌, length, Bool, true, false,
  not, Bool-cases, Option, none, some, ok, All, leb, arith, ok-injective,
}
use moq_web.Base.Int.{ℤ, leb_int, leb_int_refl, leb_int_trans, leb_int_total}
use moq_web.Base.Maps.{has, delete}
use moq_web.Base.Texts.{Text, same_text, same_text_iff, by_text}
use moq_web.ReplayStore.{
  MemoryReplayStore, bytes_to_hex, remove_expired, earlier, victim, evict_one, make_room,
  store_fresh, check_and_store,
}
use moq_web.ReplayStore.Laws.{length-keep, length-set}

-- No later than the best so far.
abbrev pub IsLeast : ℤ → Option (Text × ℤ) → Type 0
IsLeast v none = Unit
IsLeast v (some (key, best)) = leb_int v best ≡ true

abbrev pub IsIn : Text × ℤ → List (Text × ℤ) → Type 0
IsIn e [] = ⊥
IsIn e (entry ∷ entries) = (entry ≡ e) ⊎ IsIn e entries

later :
    (v e : ℤ) (best : Option (Text × ℤ))
    → leb_int v e ≡ true
    → earlier e best ≡ true
    → IsLeast v best
later v e none low h = tt
later v e (some (key, b)) low h = leb_int_trans v e b low (leb_int_total b e (ground arith))

sooner :
    (v e : ℤ) (best : Option (Text × ℤ))
    → IsLeast v best
    → earlier e best ≡ false
    → leb_int v e ≡ true
sooner v e none low h = absurd (ground arith)
sooner v e (some (key, b)) low h = leb_int_trans v b e low (ground arith)

victim-least :
    (entries : List (Text × ℤ)) (best : Option (Text × ℤ)) (key : Text) (v : ℤ)
    → victim best entries ≡ some (key, v)
    → All (λ (e : Text × ℤ). leb_int v e.1 ≡ true) entries × IsLeast v best
unfolding victim
victim-least [] none key v e = absurd (ground arith)
victim-least [] (some (k, b)) key v e =
    let same : b ≡ v = ground arith in (tt, ap (λ (t : ℤ). leb_int v t) same ∙ leb_int_refl v)
victim-least ((k, t) ∷ entries) best key v e = elim (Bool-cases (earlier t best)) [
  | inl first ↦
      (let (all, low) = victim-least entries (some (k, t)) key v (rw first at e) in
        ((low, all), later v t best low first))
  | inr not_first ↦
      (let (all, low) = victim-least entries best key v (rw not_first at e) in
        ((sooner v t best low not_first, all), low))
]

some_eq : {a b : Text × ℤ} → ◌≡◌ {A = Option (Text × ℤ)} (some a) (some b) → a ≡ b
some_eq e = cc

victim-IsIn :
    (entries : List (Text × ℤ)) (best : Option (Text × ℤ)) (e : Text × ℤ)
    → victim best entries ≡ some e
    → (best ≡ some e) ⊎ IsIn e entries
unfolding victim
victim-IsIn [] best e h = inl h
victim-IsIn ((k, t) ∷ entries) best e h = elim (Bool-cases (earlier t best)) [
  | inl first ↦ elim (victim-IsIn entries (some (k, t)) e (rw first at h)) [
    | inl here ↦ inr (inl (some_eq here))
    | inr there ↦ inr (inr there)
  ]
  | inr not_first ↦ elim (victim-IsIn entries best e (rw not_first at h)) [
    | inl before ↦ inl before
    | inr there ↦ inr (inr there)
  ]
]

from_first :
    (first : Text × ℤ) (others : List (Text × ℤ)) (e : Text × ℤ)
    → (◌≡◌ {A = Option (Text × ℤ)} (some first) (some e)) ⊎ IsIn e others
    → IsIn e (first ∷ others)
from_first first others e (inl here) = inl (some_eq here)
from_first first others e (inr there) = inr there

victim-some :
    (entries : List (Text × ℤ)) (e : Text × ℤ)
    → (e' : Text × ℤ) × (victim (some e) entries ≡ some e')
unfolding victim
victim-some [] e = (e, refl)
victim-some ((k, t) ∷ entries) (key, b) = elim (Bool-cases (earlier t (some (key, b)))) [
  | inl first ↦ rw first (victim-some entries (k, t))
  | inr not_first ↦ rw not_first (victim-some entries (key, b))
]

-- evictOne of a store that holds entries deletes the key of an entry that expires no later than any.
pub evict_one-first :
    (key : Text) (t : ℤ) (others : List (Text × ℤ))
    → let entries = (key, t) ∷ others in
      (victim_key : Text) × (v : ℤ) × (evict_one entries ≡ delete by_text victim_key entries)
      × IsIn (victim_key, v) entries
      × All (λ (e : Text × ℤ). leb_int v e.1 ≡ true) entries
unfolding evict_one victim
evict_one-first key t others =
    let ((k, v), found) = victim-some others (key, t) in
    let (all, low) = victim-least others (some (key, t)) k v found in
    (
      k,
      v,
      rw (evict_one, found) refl,
      from_first (key, t) others (k, v) (victim-IsIn others (some (key, t)) (k, v) found),
      (low, all),
    )

length-delete : (k : Text) (m : List (Text × ℤ)) → length (delete by_text k m) ≤ length m
unfolding delete
length-delete k [] = omega arith
length-delete k ((key, v) ∷ m) = ground (arith, length-delete k m)

length-delete_in :
    (k : Text) (v : ℤ) (m : List (Text × ℤ))
    → IsIn (k, v) m
    → length (delete by_text k m) < length m
unfolding delete
length-delete_in k v [] h = absurd h
length-delete_in k v ((key, t) ∷ m) (inl here) =
    let same : same_text key k ≡ true = (same_text_iff key k).1 (ap (λ (e : Text × ℤ). e.0) here) in
    rw same (omega (arith, length-delete k m))
length-delete_in k v ((key, t) ∷ m) (inr there) = elim (Bool-cases (same_text key k)) [
  | inl same ↦ rw same (omega (arith, length-delete k m))
  | inr other ↦ rw other (omega (arith, length-delete_in k v m there))
]

make_room-length :
    (max_entries : ℕ) (entries : List (Text × ℤ))
    → 1 ≤ max_entries
    → length entries ≤ max_entries
    → length (make_room max_entries entries) < max_entries
unfolding make_room
make_room-length max_entries [] some_room h =
    let few : leb max_entries 0 ≡ false = ground arith in rw few (omega arith)
make_room-length max_entries ((key, t) ∷ others) some_room h =
    elim (Bool-cases (leb max_entries (length ((key, t) ∷ others)))) [
      | inr few ↦ rw few (ground arith)
      | inl full ↦
          (let (k, v, evicted, there, all) = evict_one-first key t others in
            let shorter = length-delete_in k v ((key, t) ∷ others) there in
            rw full (omega (arith, ap length evicted)))
    ]

-- checkAndStore of a store that holds at most maxEntries entries, at least one, leaves at most as many.
pub check_and_store-bounded :
    (id : List ℕ) (expires_at : Option ℤ) (now : ℤ) (s s' : MemoryReplayStore) (fresh : Bool)
    → 1 ≤ s.max_entries
    → length s.entries ≤ s.max_entries
    → check_and_store id expires_at now s ≡ ok (fresh, s')
    → (length s'.entries ≤ s'.max_entries) × (s'.max_entries ≡ s.max_entries)
unfolding check_and_store store_fresh
check_and_store-bounded id none now s s' fresh some_room h e = absurd (ground arith)
check_and_store-bounded [] (some t) now s s' fresh some_room h e = absurd (ground arith)
check_and_store-bounded (b ∷ id) (some t) now s s' fresh some_room h e =
    let key = bytes_to_hex (b ∷ id) in
    let entries = remove_expired now s.entries in
    let fewer : length entries ≤ length s.entries =
      length-keep (λ u. not (leb_int u now)) s.entries in
    let room = make_room-length s.max_entries entries some_room (omega arith) in
    let longer = length-set key t (make_room s.max_entries entries) in
    let took : store_fresh key t now s ≡ (fresh, s') = ok-injective e in
    elim (Bool-cases (has by_text key entries)) [
      | inl there ↦
          (let both =
              ap (λ (u : Bool × MemoryReplayStore). u.1) (rw (store_fresh, there) at took) in
            let same = ap (λ (u : MemoryReplayStore). length u.entries) both in
            let max_same = ap (λ (u : MemoryReplayStore). u.max_entries) both in
            (omega arith, sym max_same))
      | inr unused ↦
          (let both =
              ap (λ (u : Bool × MemoryReplayStore). u.1) (rw (store_fresh, unused) at took) in
            let same = ap (λ (u : MemoryReplayStore). length u.entries) both in
            let max_same = ap (λ (u : MemoryReplayStore). u.max_entries) both in
            (omega arith, sym max_same))
    ]
