-- ===== src/Draft18/Subgroup/Flags.antt =====
-- The bits of the type of a subgroup header, on both sides.
use moq_web.Base.{
  ℕ, zero, suc, ◌==◌, ◌≤◌, ◌≡◌, refl, Bool, true, false, not, ◌&&◌, leb, arith, if◌then◌else◌,
}
use moq_web.Draft18.Subgroup.{
  subgroup_type, is_subgroup_header, mode_bits, has_flag, properties_flag, end_of_group_flag,
  default_priority_flag, first_object_flag,
}

unfoldable pub both : (Bool → Bool) → Bool
both test = test true && test false

pub both-at : (test : Bool → Bool) (b : Bool) → both test ≡ true → test b ≡ true
unfolding both
both-at test true h = ground arith
both-at test false h = ground arith

unfoldable pub same : Bool → Bool → Bool
same a b = if a then b else not b

pub same-eq : (a b : Bool) → same a b ≡ true → a ≡ b
unfolding same
same-eq a b h = ground arith

tells : ℕ → Bool → Bool → Bool → Bool → Bool
unfolding same subgroup_type is_subgroup_header mode_bits
tells mode p e d f =
    let type = subgroup_type p mode e d f in
    leb type 127
    && (is_subgroup_header type
        && ((mode_bits type == mode)
            && (same (has_flag type properties_flag) p
                && (same (has_flag type end_of_group_flag) e
                    && (same (has_flag type default_priority_flag) d
                        && same (has_flag type first_object_flag) f)))))

tells_always : ℕ → Bool
unfolding both tells
tells_always mode = both (λ p. both (λ e. both (λ d. both (λ f. tells mode p e d f))))

tells_all : (mode : ℕ) (p e d f : Bool) → tells_always mode ≡ true → tells mode p e d f ≡ true
unfolding tells_always
tells_all mode p e d f h = both-at (tells mode p e d) f (
    both-at (λ d. both (tells mode p e d)) d
      (both-at (λ e. both (λ d. both (tells mode p e d))) e
        (both-at (λ p. both (λ e. both (λ d. both (tells mode p e d)))) p h)))

modes_told : (mode : ℕ) → mode ≤ 2 → tells_always mode ≡ true
unfolding tells_always
modes_told zero h = refl
modes_told (suc zero) h = refl
modes_told (suc (suc zero)) h = refl
modes_told (suc (suc (suc mode))) h = absurd (omega arith)

-- The type tells the flags and the mode that it was made of.
pub flags_of_type :
    (mode : ℕ) (p e d f : Bool)
    → mode ≤ 2
    → let type = subgroup_type p mode e d f in
      (type ≤ 127)
      × (is_subgroup_header type ≡ true)
      × (mode_bits type ≡ mode)
      × (has_flag type properties_flag ≡ p)
      × (has_flag type end_of_group_flag ≡ e)
      × (has_flag type default_priority_flag ≡ d)
      × (has_flag type first_object_flag ≡ f)
unfolding tells
flags_of_type mode p e d f h =
    let type = subgroup_type p mode e d f in
    let told = tells_all mode p e d f (modes_told mode h) in
    ground (
      arith,
      told,
      same-eq (has_flag type properties_flag) p,
      same-eq (has_flag type end_of_group_flag) e,
      same-eq (has_flag type default_priority_flag) d,
      same-eq (has_flag type first_object_flag) f,
    )
