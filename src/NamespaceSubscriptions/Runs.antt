-- ===== src/NamespaceSubscriptions/Runs.antt =====
-- Two requests; the fields of namespaces are numbers.
use moq_web.Base.{
  ℕ, ◌≡◌, ◌==◌, refl, subst, List, [], ◌∷◌, Bool, true, false, Bool-cases, inl, inr, some, arith,
  cons_eq, if◌then◌else◌, none,
}
use moq_web.Base.Maps.{Keys, by_number, get}
use moq_web.NamespaceSubscriptions.{
  NamespaceChange, announced, withdrawn, Names, Subscription, Subscriptions, includes,
}
use moq_web.NamespaceSubscriptions.Notices.{Alternates}
use moq_web.NamespaceSubscriptions.Sequence.{notified, notified-Alternates}

abbrev same_list : List ℕ → List ℕ → Bool
same_list [] [] = true
same_list [] (y ∷ ys) = false
same_list (x ∷ xs) [] = false
same_list (x ∷ xs) (y ∷ ys) = if x == y then same_list xs ys else false

same_list_refl : (xs : List ℕ) → same_list xs xs ≡ true
same_list_refl [] = refl
same_list_refl (x ∷ xs) = ground (arith, same_list_refl xs)

same_list_eq : (xs ys : List ℕ) → same_list xs ys ≡ true → xs ≡ ys
same_list_eq [] [] e = refl
same_list_eq [] (y ∷ ys) e = absurd (ground arith)
same_list_eq (x ∷ xs) [] e = absurd (ground arith)
same_list_eq (x ∷ xs) (y ∷ ys) e = elim (Bool-cases (x == y)) [
  | inl h ↦ cons_eq (ground arith) (same_list_eq xs ys (rw h at e))
  | inr h ↦ absurd (ground arith)
]

by_tuple : Keys (List ℕ)
by_tuple = record {
  same = same_list;
  same_iff = λ xs ys. (
    same_list_eq xs ys,
    λ e. subst (λ (zs : List ℕ). same_list xs zs ≡ true) e (same_list_refl xs),
  );
}

abbrev numbers : Names ℕ
numbers = record { fields = by_number; namespaces = by_tuple }

-- The first request has been told of one namespace.
abbrev first : Subscription ℕ
first = record { prefix = 1 ∷ []; told = (1 ∷ 2 ∷ []) ∷ [] }

abbrev second : Subscription ℕ
second = record { prefix = 1 ∷ 5 ∷ []; told = [] }

abbrev subscriptions : Subscriptions ℕ
subscriptions = (6, first) ∷ (8, second) ∷ []

abbrev changes : List (List ℕ × NamespaceChange)
changes =
    ((1 ∷ 2 ∷ []), announced)
    ∷ ((1 ∷ 2 ∷ []), withdrawn)
    ∷ ((1 ∷ 5 ∷ []), announced)
    ∷ ((1 ∷ 2 ∷ []), withdrawn)
    ∷ ((1 ∷ 2 ∷ []), announced)
    ∷ []

alone : get by_number 6 ((8, second) ∷ []) ≡ none
unfolding get
alone = refl

second_alone : get {V = Subscription ℕ} by_number 8 [] ≡ none
unfolding get
second_alone = refl

first_there : get by_number 6 subscriptions ≡ some first
unfolding get
first_there = refl

notified-Alternates_example :
    Alternates
      (includes numbers (1 ∷ 2 ∷ []) first.told)
      (notified numbers 6 (1 ∷ 2 ∷ []) changes subscriptions)
notified-Alternates_example =
    notified-Alternates numbers 6 (1 ∷ 2 ∷ []) changes first subscriptions
      (alone, (second_alone, tt)) first_there
