-- ===== src/RingBuffer/Index.antt =====
-- Indices that wrap round, and the walk over the slots of a ring.
use moq_web.Base.{
  ℕ, zero, suc, ◌+◌, ◌-◌, ◌%◌, ◌≤◌, ◌<◌, ◌≡◌, ◌≢◌, ◌∙◌, ◌⊎◌, inl, inr, refl, sym, ap, List, [],
  ◌++◌, get_or, set, get_or-set_ne, Option, none, some, arith,
}
use native.Mathlib.Decide.{dec_lt}
use native.Mathlib.Nat.{mod-add-mod, mod-eq_of_lt, mod-eq-sub-mod, mod-lt}
use moq_web.RingBuffer.{walk, keep_some}

-- An index less than twice the capacity wraps at most once.
pub wrap_cases : (a c : ℕ) → a < c + c → ((a < c) × (a % c ≡ a)) ⊎ ((c ≤ a) × (a % c ≡ a - c))
wrap_cases a c h = elim (dec_lt a c) [
  | yes p ↦ inl (p, mod-eq_of_lt p)
  | no p ↦
      (let le : c ≤ a = omega arith in
        inr (le, mod-eq-sub-mod le ∙ mod-eq_of_lt {n = a - c} (omega arith)))
]

pub step_mod : (i d c : ℕ) → ((i + 1) % c + d) % c ≡ (i + suc d) % c
step_mod i d c = mod-add-mod (i + 1) c d ∙ ap (λ (t : ℕ). t % c) (omega arith)

pub ahead_ne : (i d c : ℕ) → i < c → 0 < d → d < c → (i + d) % c ≢ i
ahead_ne i d c hi lo hd e = ground (arith, wrap_cases (i + d) c)

module _ {A : Type 0} where
  -- A write `d` slots ahead is not seen by a walk over `n` slots, for `n` up to `d`.
  pub walk-set :
      (items : List (Option A)) (v : Option A) (c n d i : ℕ)
      → i < c
      → n ≤ d
      → d < c
      → walk (set items ((i + d) % c) v) c i n ≡ walk items c i n
  unfolding walk
  walk-set items v c zero d i hi hn hd = refl
  walk-set items v c (suc n) zero i hi hn hd = absurd (omega arith)
  walk-set items v c (suc n) (suc d) i hi hn hd =
      let seen =
        get_or-set_ne items ((i + suc d) % c) i v none (ahead_ne i (suc d) c hi (omega arith) hd) in
      let next =
        walk-set items v c n d ((i + 1) % c) (mod-lt (i + 1) (omega arith)) (omega arith)
          (omega arith) in
      let tail =
        ap (λ (k : ℕ). walk (set items k v) c ((i + 1) % c) n) (sym (step_mod i d c)) ∙ next in
      rw (seen, tail)

  keep_some-append : (o : Option A) (xs ys : List A) → keep_some o (xs ++ ys) ≡ keep_some o xs ++ ys
  keep_some-append none xs ys = refl
  keep_some-append (some x) xs ys = refl

  -- A walk over one slot more ends with the item of that slot.
  pub walk_snoc :
      (items : List (Option A)) (c n i : ℕ)
      → i < c
      → walk items c i (suc n) ≡ walk items c i n ++ keep_some (get_or items ((i + n) % c) none) []
  unfolding walk
  walk_snoc items c zero i hi =
      ap (λ (k : ℕ). keep_some (get_or items k none) [])
        (sym (ap (λ (t : ℕ). t % c) add_zero ∙ mod-eq_of_lt hi))
    where
      add_zero : i + 0 ≡ i
      add_zero = omega arith
  walk_snoc items c (suc n) i hi =
      rw (← step_mod i n c, walk_snoc items c n ((i + 1) % c) (mod-lt (i + 1) (omega arith)))
        (keep_some-append (get_or items i none) (walk items c ((i + 1) % c) n) _)
