-- ===== src/Base/Maps.antt =====
-- A JavaScript `Map`, by its entries in the order of insertion.
use Prim.Native.Nat.{ℕ}
use mathlib.Core.Path.{◌≡◌, refl, sym, ap, subst}
use mathlib.Core.Logic.{◌≢◌, ◌↔◌, inl, inr}
use mathlib.Core.Bool.{Bool, true, false}
use mathlib.Core.Option.{Option, none, some}
use mathlib.Core.List.{List, [], ◌∷◌, ◌++◌}
use native.Mathlib.Omega.{arith}
use moq_web.Base.Tests.{if◌then◌else◌, Bool-cases, ◌==◌, ==_iff}
use moq_web.Base.Lists.{All}

-- Equality of keys, as a Boolean.
pub record Keys (K : Type 0) : Type 0 where
  pub same : K → K → Bool
  pub same_iff : (a b : K) → (same a b ≡ true) ↔ (a ≡ b)

module _ {K : Type 0} (keys : Keys K) where
  open keys use {same, same_iff}

  pub same_refl : (k : K) → same k k ≡ true
  same_refl k = (same_iff k k).1 refl

  pub same_ne : (a b : K) → a ≢ b → same a b ≡ false
  same_ne a b ne = elim (Bool-cases (same a b)) [
    | inl e ↦ absurd (ne ((same_iff a b).0 e))
    | inr e ↦ e
  ]

  -- Equal keys compare alike.
  pub same_left : (a b c : K) → same a b ≡ true → same a c ≡ same b c
  same_left a b c e = ap (λ (t : K). same t c) ((same_iff a b).0 e)

  pub same_right : (a b c : K) → same b c ≡ true → same a b ≡ same a c
  same_right a b c e = ap (λ (t : K). same a t) ((same_iff b c).0 e)

module _ {K V : Type 0} (keys : Keys K) where
  open keys use {same, same_iff}

  unfoldable pub get : K → List (K × V) → Option V
  get k [] = none
  get k ((key, value) ∷ m) = if same key k then some value else get k m

  unfoldable pub has : K → List (K × V) → Bool
  has k [] = false
  has k ((key, value) ∷ m) = if same key k then true else has k m

  -- `set` replaces the value of a key that is there, in its place, and adds a new key at the end.
  unfoldable pub set : K → V → List (K × V) → List (K × V)
  set k v [] = (k, v) ∷ []
  set k v ((key, value) ∷ m) = if same key k then (key, v) ∷ m else (key, value) ∷ set k v m

  unfoldable pub delete : K → List (K × V) → List (K × V)
  delete k [] = []
  delete k ((key, value) ∷ m) = if same key k then delete k m else (key, value) ∷ delete k m

  pub get-set :
      (k j : K) (v : V) (m : List (K × V))
      → get j (set k v m) ≡ (if same k j then some v else get j m)
  unfolding get set
  get-set k j v [] = refl
  get-set k j v ((key, value) ∷ m) = elim (Bool-cases (same key k)) [
    | inl e ↦ rw e (ground (arith, same_left keys key k j e))
    | inr e ↦ rw e (ground (arith, e, same_right keys key k j, get-set k j v m))
  ]

  pub get-delete :
      (k j : K) (m : List (K × V)) → get j (delete k m) ≡ (if same k j then none else get j m)
  unfolding get delete
  get-delete k j [] = ground arith
  get-delete k j ((key, value) ∷ m) =
      ground (arith, same_left keys key k j, same_right keys key k j, get-delete k j m)

  -- A key after all those of a map is added at the end.
  pub set_fresh :
      (k : K) (v : V) (m : List (K × V))
      → All (λ (e : K × V). same e.0 k ≡ false) m
      → set k v m ≡ m ++ (k, v) ∷ []
  unfolding set
  set_fresh k v [] h = refl
  set_fresh k v ((key, value) ∷ m) (h, hs) =
      rw h (ap (λ (t : List (K × V)). (key, value) ∷ t) (set_fresh k v m hs))

-- A predicate on the entries of a map.
module _ {K V : Type 0} (keys : Keys K) where
  open keys use {same, same_iff}

  pub All-set :
      (P : K × V → Type 0) (k : K) (v : V) (m : List (K × V))
      → P (k, v)
      → All P m
      → All P (set keys k v m)
  unfolding set
  All-set P k v [] p ps = (p, tt)
  All-set P k v ((key, value) ∷ m) p (q, ps) = elim (Bool-cases (same key k)) [
    | inl e ↦ rw e (subst (λ (t : K). P (t, v)) (sym ((same_iff key k).0 e)) p, ps)
    | inr e ↦ rw e (q, All-set P k v m p ps)
  ]

  -- What is left after a deletion holds of the other keys.
  pub All-delete :
      (P : K × V → Type 0) (k : K) (m : List (K × V))
      → All P m
      → All (λ (e : K × V). P e × (same e.0 k ≡ false)) (delete keys k m)
  unfolding delete
  All-delete P k [] ps = tt
  All-delete P k ((key, value) ∷ m) (p, ps) = elim (Bool-cases (same key k)) [
    | inl e ↦ rw e (All-delete P k m ps)
    | inr e ↦ rw e ((p, e), All-delete P k m ps)
  ]

  pub All-get :
      (P : K × V → Type 0) (k : K) (v : V) (m : List (K × V))
      → All P m
      → get keys k m ≡ some v
      → P (k, v)
  unfolding get
  All-get P k v [] ps e = absurd (ground arith)
  All-get P k v ((key, value) ∷ m) (p, ps) e = elim (Bool-cases (same key k)) [
    | inr other ↦ All-get P k v m ps (rw other at e)
    | inl here ↦
        (let found : some value ≡ some v = rw here at e in
          let value_same : value ≡ v = ground arith in
          subst (λ (t : K × V). P t) (λ i. ((same_iff key k).0 here i, value_same i)) p)
  ]

-- The entries whose value passes a test.
module _ {K V : Type 0} where
  unfoldable pub keep : (V → Bool) → List (K × V) → List (K × V)
  keep test [] = []
  keep test ((key, value) ∷ m) = if test value then (key, value) ∷ keep test m else keep test m

  pub All-keep :
      (P : K × V → Type 0) (test : V → Bool) (m : List (K × V))
      → All P m
      → All (λ (e : K × V). P e × (test e.1 ≡ true)) (keep test m)
  unfolding keep
  All-keep P test [] ps = tt
  All-keep P test ((key, value) ∷ m) (p, ps) = elim (Bool-cases (test value)) [
    | inl e ↦ rw e ((p, e), All-keep P test m ps)
    | inr e ↦ rw e (All-keep P test m ps)
  ]

-- Numbers as keys.
abbrev pub by_number : Keys ℕ
by_number = record { same = ◌==◌; same_iff = ==_iff }
