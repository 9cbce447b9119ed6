-- ===== src/Replay/Recent.antt =====
-- A token that was seen a short time and few tokens ago is refused.
use moq_web.Base.{
  ℕ, suc, ◌≤◌, ◌<◌, ◌≡◌, refl, sym, ap, ◌∙◌, List, [], ◌∷◌, ◌++◌, length, length-append, Bool, true,
  false, Bool-cases, inl, inr, none, some, All, All-imp, ltb, arith,
}
use mathlib.Core.List.{append_assoc}
use moq_web.Base.Maps.{Keys, get, set, delete, set_fresh, All-delete, same_refl}
use moq_web.Replay.{Cache, evict, record_seen}

module _ {Key : Type 0} (keys : Keys Key) where
  open keys use {same, same_iff}

  apart_sym : (a b : Key) → same a b ≡ false → same b a ≡ false
  apart_sym a b h = elim (Bool-cases (same b a)) [
    | inr e ↦ e
    | inl e ↦
        (let equal : same a b ≡ true = (same_iff a b).1 (sym ((same_iff b a).0 e)) in
          absurd (ground arith))
  ]

  delete-append :
      (j : Key) (xs ys : List (Key × ℕ))
      → delete keys j (xs ++ ys) ≡ delete keys j xs ++ delete keys j ys
  unfolding delete
  delete-append j [] ys = refl
  delete-append j ((k, t) ∷ xs) ys = elim (Bool-cases (same k j)) [
    | inl e ↦ rw e (delete-append j xs ys)
    | inr e ↦ rw e (ap (λ (l : List (Key × ℕ)). (k, t) ∷ l) (delete-append j xs ys))
  ]

  length-delete : (j : Key) (xs : List (Key × ℕ)) → length (delete keys j xs) ≤ length xs
  unfolding delete
  length-delete j [] = omega arith
  length-delete j ((k, t) ∷ xs) = ground (arith, length-delete j xs)

  get-none-All :
      (j : Key) (xs : List (Key × ℕ))
      → get keys j xs ≡ none
      → All (λ (e : Key × ℕ). same e.0 j ≡ false) xs
  unfolding get
  get-none-All j [] e = tt
  get-none-All j ((k, t) ∷ xs) e = elim (Bool-cases (same k j)) [
    | inl here ↦ absurd (ground arith)
    | inr other ↦ (other, get-none-All j xs (rw other at e))
  ]

  pub get-behind :
      (j : Key) (seen : ℕ) (front back : List (Key × ℕ))
      → All (λ (e : Key × ℕ). same e.0 j ≡ false) front
      → get keys j (front ++ ((j, seen) ∷ back)) ≡ some seen
  unfolding get
  get-behind j seen [] back h = rw (same_refl keys j) refl
  get-behind j seen ((k, t) ∷ front) back (h, hs) = rw h (get-behind j seen front back hs)

  -- The key was seen at `since` or later, and at most `n` others after it.
  abbrev pub IsRecent : Key → ℕ → ℕ → List (Key × ℕ) → Type 0
  IsRecent key since n entries =
      (front : List (Key × ℕ)) × (seen : ℕ) × (back : List (Key × ℕ)) × (entries
        ≡ front ++ ((key, seen) ∷ back))
      × All (λ (e : Key × ℕ). same e.0 key ≡ false) front
      × (length back ≤ n)
      × (since ≤ seen)

  delete-IsRecent :
      (key j : Key) (since n : ℕ) (entries : List (Key × ℕ))
      → same key j ≡ false
      → IsRecent key since n entries
      → IsRecent key since n (delete keys j entries)
  unfolding delete
  delete-IsRecent key j since n entries apart (front, seen, back, whole, before, few, later) = (
    delete keys j front,
    seen,
    delete keys j back,
    rw (whole, delete-append j front ((key, seen) ∷ back), apart) refl,
    All-imp _ (λ e h. h.0) (All-delete keys (λ (e : Key × ℕ). same e.0 key ≡ false) j front before),
    omega (arith, length-delete j back),
    later,
  )

  evict-IsRecent :
      (key : Key) (since n max_entries : ℕ) (entries : List (Key × ℕ))
      → n < max_entries
      → IsRecent key since n entries
      → IsRecent key since n (evict keys max_entries entries)
  unfolding evict
  evict-IsRecent key since n max_entries entries room ([], seen, back, whole, before, few, later) =
      let kept : ltb max_entries (suc (length back)) ≡ false = ground arith in
      rw (whole, evict, kept) ([], seen, back, refl, before, few, later)
  evict-IsRecent key since n max_entries entries room
        ((k, t) ∷ front, seen, back, whole, (apart, before), few, later) =
      let list = (k, t) ∷ (front ++ ((key, seen) ∷ back)) in
      elim (Bool-cases (ltb max_entries (length list))) [
        | inr under ↦
            rw (whole, evict, under) ((k, t) ∷ front, seen, back, refl, (apart, before), few, later)
        | inl over ↦
            rw (whole, evict, over)
              (delete-IsRecent key k since n list (apart_sym k key apart)
                ((k, t) ∷ front, seen, back, refl, (apart, before), few, later))
      ]

  -- A key that is not there goes to the end.
  append-IsRecent :
      (key j : Key) (since n now : ℕ) (entries : List (Key × ℕ))
      → All (λ (e : Key × ℕ). same e.0 j ≡ false) entries
      → IsRecent key since n entries
      → IsRecent key since (suc n) (set keys j now entries)
  append-IsRecent key j since n now entries none_there
        (front, seen, back, whole, before, few, later) =
      (
        front,
        seen,
        back ++ (j, now) ∷ [],
        set_fresh keys j now entries none_there
            ∙ ap (λ (l : List (Key × ℕ)). l ++ (j, now) ∷ []) whole
            ∙ append_assoc front ((key, seen) ∷ back) ((j, now) ∷ []),
        before,
        omega (arith, length-append back ((j, now) ∷ [])),
        later,
      )

  everywhere : (entries : List (Key × ℕ)) → All (λ (e : Key × ℕ). Unit {0}) entries
  everywhere [] = tt
  everywhere (e ∷ entries) = (tt, everywhere entries)

  after_delete :
      (key : Key) (entries : List (Key × ℕ))
      → All (λ (e : Key × ℕ). same e.0 key ≡ false) (delete keys key entries)
  after_delete key entries =
      All-imp _ (λ e h. h.1)
        (All-delete keys (λ (e : Key × ℕ). Unit {0}) key entries (everywhere entries))

  -- The key itself, recorded anew.
  pub own-IsRecent :
      (existing : Bool) (key : Key) (now since n : ℕ) (s : Cache Key)
      → (existing ≡ false → get keys key s.entries ≡ none)
      → since ≤ now
      → n < s.max_entries
      → IsRecent key since n (record_seen keys existing key now s).entries
  unfolding record_seen
  own-IsRecent true key now since n s absent later room =
      evict-IsRecent key since n s.max_entries _ room (
        delete keys key s.entries,
        now,
        [],
        set_fresh keys key now (delete keys key s.entries) (after_delete key s.entries),
        after_delete key s.entries,
        omega arith,
        later,
      )
  own-IsRecent false key now since n s absent later room =
      let none_there = get-none-All key s.entries (absent refl) in
      evict-IsRecent key since n s.max_entries _ room (
        s.entries,
        now,
        [],
        set_fresh keys key now s.entries none_there,
        none_there,
        omega arith,
        later,
      )

  -- Another key, recorded.
  other-IsRecent :
      (existing : Bool) (key j : Key) (now since n : ℕ) (s : Cache Key)
      → (existing ≡ false → get keys j s.entries ≡ none)
      → same key j ≡ false
      → suc n < s.max_entries
      → IsRecent key since n s.entries
      → IsRecent key since (suc n) (record_seen keys existing j now s).entries
  unfolding record_seen
  other-IsRecent true key j now since n s absent apart room recent =
      evict-IsRecent key since (suc n) s.max_entries _ room (
        append-IsRecent key j since n now (delete keys j s.entries) (after_delete j s.entries)
          (delete-IsRecent key j since n s.entries apart recent))
  other-IsRecent false key j now since n s absent apart room recent =
      evict-IsRecent key since (suc n) s.max_entries _ room (
        append-IsRecent key j since n now s.entries (get-none-All j s.entries (absent refl)) recent)

  pub recorded-IsRecent :
      (existing : Bool) (key j : Key) (now since n : ℕ) (s : Cache Key)
      → (existing ≡ false → get keys j s.entries ≡ none)
      → since ≤ now
      → suc n < s.max_entries
      → IsRecent key since n s.entries
      → IsRecent key since (suc n) (record_seen keys existing j now s).entries
  recorded-IsRecent existing key j now since n s absent later room recent =
      elim (Bool-cases (same key j)) [
        | inr apart ↦ other-IsRecent existing key j now since n s absent apart room recent
        | inl equal ↦
            (let one : key ≡ j = (same_iff key j).0 equal in
              rw one (own-IsRecent existing j now since (suc n) s absent later room))
      ]
