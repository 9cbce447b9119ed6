-- ===== src/NamespaceSubscriptions/Sequence.antt =====
-- What the notices of a sequence of changes come to, for each request.
use moq_web.Base.{
  ℕ, ◌==◌, ◌≡◌, refl, ap, List, [], ◌∷◌, ◌++◌, Bool-cases, inl, inr, none, some, if◌then◌else◌,
  arith,
}
use moq_web.Base.Maps.{get, by_number}
use moq_web.NamespaceSubscriptions.{
  NamespaceChange, NamespaceNotice, Subscription, Subscriptions, Names, includes, tell,
  record_change,
}
use moq_web.NamespaceSubscriptions.Notices.{Alternates, told_of, told_of-Alternates}

-- The changes in the notices to a request.
unfoldable pub changes_to : {Name : Type 0} → ℕ → List (NamespaceNotice Name) → List NamespaceChange
changes_to id [] = []
changes_to id (notice ∷ notices) =
    if notice.request_id == id then notice.change ∷ changes_to id notices else changes_to id notices

module _ {Name : Type 0} (names : Names Name) where
  -- No request ID twice, as in a `Map`.
  abbrev pub IsDistinct : Subscriptions Name → Type 0
  IsDistinct [] = Unit
  IsDistinct ((id, s) ∷ subs) = (get by_number id subs ≡ none) × IsDistinct subs

  -- The changes to the namespace `n` in the notices to a request, over a sequence of changes to any.
  unfoldable pub notified :
      ℕ → List Name → List (List Name × NamespaceChange) → Subscriptions Name → List NamespaceChange
  notified id n [] subs = []
  notified id n ((namespace, change) ∷ changes) subs =
      let (notices, subs') = record_change names namespace change subs in
      let rest = notified id n changes subs' in
      if names.namespaces.same namespace n then changes_to id notices ++ rest else rest

  record_change-absent :
      (id : ℕ) (namespace : List Name) (change : NamespaceChange) (subs : Subscriptions Name)
      → get by_number id subs ≡ none
      → (changes_to id (record_change names namespace change subs).0 ≡ [])
        × (get by_number id (record_change names namespace change subs).1 ≡ none)
  unfolding record_change changes_to get
  record_change-absent id namespace change [] e = (refl, refl)
  record_change-absent id namespace change ((i, s) ∷ subs) e = elim (Bool-cases (i == id)) [
    | inl here ↦ absurd (ground arith)
    | inr other ↦
        (let (none_sent, absent) = record_change-absent id namespace change subs (rw other at e) in
          elim (Bool-cases (tell names namespace change s).0) [
            | inl tells ↦ rw (record_change, tells, other) (none_sent, absent)
            | inr silent ↦ rw (record_change, silent, other) (none_sent, absent)
          ])
  ]

  record_change-present :
      (id : ℕ) (namespace : List Name) (change : NamespaceChange) (s : Subscription Name)
      (subs : Subscriptions Name)
      → IsDistinct subs
      → get by_number id subs ≡ some s
      → (changes_to id (record_change names namespace change subs).0
          ≡ (if (tell names namespace change s).0 then change ∷ [] else []))
        × (get by_number id (record_change names namespace change subs).1
            ≡ some (tell names namespace change s).1)
  unfolding record_change changes_to get
  record_change-present id namespace change s [] h e = absurd (ground arith)
  record_change-present id namespace change s ((i, t) ∷ subs) (once, h) e =
      elim (Bool-cases (i == id)) [
        | inl here ↦
            (let found : some t ≡ some s = rw here at e in
              let one : t ≡ s = ground arith in
              let same : i ≡ id = ground arith in
              let (none_sent, absent) =
                record_change-absent id namespace change subs (rw (← same) once) in
              elim (Bool-cases (tell names namespace change t).0) [
                | inl tells ↦ rw (record_change, ← one, tells, here, none_sent) (refl, refl)
                | inr silent ↦ rw (record_change, ← one, silent, here, none_sent) (refl, refl)
              ])
        | inr other ↦
            (let (sent, present) =
                record_change-present id namespace change s subs h (rw other at e) in
              elim (Bool-cases (tell names namespace change t).0) [
                | inl tells ↦ rw (record_change, tells, other) (sent, present)
                | inr silent ↦ rw (record_change, silent, other) (sent, present)
              ])
      ]

  record_change-IsDistinct :
      (namespace : List Name) (change : NamespaceChange) (subs : Subscriptions Name)
      → IsDistinct subs
      → IsDistinct (record_change names namespace change subs).1
  unfolding record_change
  record_change-IsDistinct namespace change [] h = tt
  record_change-IsDistinct namespace change ((id, s) ∷ subs) (once, h) = (
    (record_change-absent id namespace change subs once).1,
    record_change-IsDistinct namespace change subs h,
  )

  notified-told_of :
      (id : ℕ) (n : List Name) (changes : List (List Name × NamespaceChange))
      (s : Subscription Name) (subs : Subscriptions Name)
      → IsDistinct subs
      → get by_number id subs ≡ some s
      → notified id n changes subs ≡ told_of names n changes s
  unfolding notified told_of
  notified-told_of id n [] s subs h e = refl
  notified-told_of id n ((namespace, change) ∷ changes) s subs h e =
      let (sent, present) = record_change-present id namespace change s subs h e in
      let subs' = (record_change names namespace change subs).1 in
      let s' = (tell names namespace change s).1 in
      let rest =
        notified-told_of id n changes s' subs' (record_change-IsDistinct namespace change subs h)
          present in
      elim (Bool-cases (tell names namespace change s).0) [
        | inl tells ↦ elim (Bool-cases (names.namespaces.same namespace n)) [
          | inr other ↦ rw (other, tells) rest
          | inl here ↦ rw (here, sent, tells) (ap (λ (t : List NamespaceChange). change ∷ t) rest)
        ]
        | inr silent ↦ elim (Bool-cases (names.namespaces.same namespace n)) [
          | inr other ↦ rw (other, silent) rest
          | inl here ↦ rw (here, sent, silent) rest
        ]
      ]

  -- Whatever the changes that record is given, to any namespaces, the notices to a request about one
  -- namespace take turns: an announcement comes only while the last it was told is not one, and a
  -- withdrawal only after an announcement.
  pub notified-Alternates :
      (id : ℕ) (n : List Name) (changes : List (List Name × NamespaceChange))
      (s : Subscription Name) (subs : Subscriptions Name)
      → IsDistinct subs
      → get by_number id subs ≡ some s
      → Alternates (includes names n s.told) (notified id n changes subs)
  notified-Alternates id n changes s subs h e =
      rw (notified-told_of id n changes s subs h e) (told_of-Alternates names n changes s)
