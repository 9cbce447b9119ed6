-- ===== src/NamespaceSubscriptions/Notices.antt =====
-- What a subscription is told over a sequence of changes.
use moq_web.Base.{
  ◌≡◌, sym, ap, ◌∙◌, List, [], ◌∷◌, ◌++◌, Bool, true, false, Bool-cases, inl, inr, if◌then◌else◌,
  arith,
}
use moq_web.Base.Maps.{same_left, same_right}
use moq_web.NamespaceSubscriptions.{
  NamespaceChange, announced, withdrawn, Subscription, Names, includes, without, tell,
  namespace_prefix_matches,
}

-- Changes to one namespace of which each can follow the one before; the first after it was told or not.
abbrev pub Alternates : Bool → List NamespaceChange → Type 0
Alternates told [] = Unit
Alternates told (announced ∷ changes) = (told ≡ false) × Alternates true changes
Alternates told (withdrawn ∷ changes) = (told ≡ true) × Alternates false changes

module _ {Name : Type 0} (names : Names Name) where
  open names.namespaces use {same, same_iff}

  includes-append :
      (n m : List Name) (told : List (List Name))
      → includes names n (told ++ m ∷ []) ≡ (if same m n then true else includes names n told)
  unfolding includes
  includes-append n m [] = ground arith
  includes-append n m (t ∷ told) = ground (arith, includes-append n m told)

  includes-without :
      (n m : List Name) (told : List (List Name))
      → includes names n (without names m told)
        ≡ (if same m n then false else includes names n told)
  unfolding includes without
  includes-without n m [] = ground arith
  includes-without n m (t ∷ told) = ground (
    arith,
    same_left names.namespaces t m n,
    same_right names.namespaces t m n,
    includes-without n m told,
  )

  -- The changes to a namespace that a subscription is told of, in a sequence of changes to any.
  unfoldable pub told_of :
      List Name → List (List Name × NamespaceChange) → Subscription Name → List NamespaceChange
  told_of n [] s = []
  told_of n ((namespace, change) ∷ changes) s =
      let (tells, s') = tell names namespace change s in
      let rest = told_of n changes s' in
      if tells then (if same namespace n then change ∷ rest else rest) else rest

  same_told :
      (m n : List Name) (told : List (List Name))
      → same m n ≡ true
      → includes names n told ≡ includes names m told
  same_told m n told e = ap (λ (t : List Name). includes names t told) (sym ((same_iff m n).0 e))

  -- Over any changes that record is given, to any namespaces, a subscription whose prefix stays is told
  -- of those to one namespace in turn: of an announcement only while the last it was told is not one,
  -- and of a withdrawal only after an announcement.
  pub told_of-Alternates :
      (n : List Name) (changes : List (List Name × NamespaceChange)) (s : Subscription Name)
      → Alternates (includes names n s.told) (told_of n changes s)
  unfolding told_of tell
  told_of-Alternates n [] s = tt
  told_of-Alternates n ((namespace, announced) ∷ changes) s =
      elim (Bool-cases (namespace_prefix_matches names s.prefix namespace)) [
        | inr apart ↦ rw (told_of, apart) (told_of-Alternates n changes s)
        | inl matched ↦ elim (Bool-cases (includes names namespace s.told)) [
          | inl before ↦ rw (told_of, matched, before) (told_of-Alternates n changes s)
          | inr absent ↦
              (let s' : Subscription Name = record s { told = s.told ++ namespace ∷ [] } in
                let later = told_of-Alternates n changes s' in
                let told_now = includes-append n namespace s.told in
                elim (Bool-cases (same namespace n)) [
                  | inr other ↦
                      rw (told_of, matched, absent, other)
                        (let changed : includes names n s'.told ≡ includes names n s.told =
                            ground (arith, told_now) in
                          rw (← changed) later)
                  | inl here ↦
                      rw (told_of, matched, absent, here)
                        (
                          same_told namespace n s.told here ∙ absent,
                          (let changed : includes names n s'.told ≡ true =
                                ground (arith, told_now) in
                              rw (← changed) later),
                        )
                ])
        ]
      ]
  told_of-Alternates n ((namespace, withdrawn) ∷ changes) s =
      elim (Bool-cases (namespace_prefix_matches names s.prefix namespace)) [
        | inr apart ↦ rw (told_of, apart) (told_of-Alternates n changes s)
        | inl matched ↦ elim (Bool-cases (includes names namespace s.told)) [
          | inr absent ↦ rw (told_of, matched, absent) (told_of-Alternates n changes s)
          | inl before ↦
              (let s' : Subscription Name = record s { told = without names namespace s.told } in
                let later = told_of-Alternates n changes s' in
                let told_now = includes-without n namespace s.told in
                elim (Bool-cases (same namespace n)) [
                  | inr other ↦
                      rw (told_of, matched, before, other)
                        (let changed : includes names n s'.told ≡ includes names n s.told =
                            ground (arith, told_now) in
                          rw (← changed) later)
                  | inl here ↦
                      rw (told_of, matched, before, here)
                        (
                          same_told namespace n s.told here ∙ before,
                          (let changed : includes names n s'.told ≡ false =
                                ground (arith, told_now) in
                              rw (← changed) later),
                        )
                ])
        ]
      ]
