-- ===== src/Draft18/FetchObject/Flags.antt =====
-- The flags of a fetch object, on both sides.
use moq_web.Base.{ℕ, zero, suc, ◌==◌, ◌≤◌, ◌≡◌, refl, Bool, true, false, not, ◌&&◌, leb, arith}
use moq_web.Draft18.Subgroup.{has_flag}
use moq_web.Draft18.Subgroup.Flags.{both, both-at, same, same-eq}
use moq_web.Draft18.FetchObject.{
  fetch_flags, is_end_of_range, mode_of, object_id_delta_flag, group_id_delta_flag, priority_flag,
  properties_flag, datagram_mode_flag,
}

tells : ℕ → Bool → Bool → Bool → Bool → Bool → Bool
unfolding same fetch_flags is_end_of_range
tells mode o g p x d =
    let flags = fetch_flags mode o g p x d in
    leb flags 127
    && (not (is_end_of_range flags)
        && ((mode_of flags == mode)
            && (same (has_flag flags object_id_delta_flag) o
                && (same (has_flag flags group_id_delta_flag) g
                    && (same (has_flag flags priority_flag) p
                        && (same (has_flag flags properties_flag) x
                            && same (has_flag flags datagram_mode_flag) d))))))

tells_always : ℕ → Bool
unfolding both tells
tells_always mode = both (λ o. both (λ g. both (λ p. both (λ x. both (λ d. tells mode o g p x d)))))

tells_all : (mode : ℕ) (o g p x d : Bool) → tells_always mode ≡ true → tells mode o g p x d ≡ true
unfolding tells_always
tells_all mode o g p x d h =
    both-at (λ d. tells mode o g p x d) d
      (both-at (λ x. both (λ d. tells mode o g p x d)) x
        (both-at (λ p. both (λ x. both (λ d. tells mode o g p x d))) p
          (both-at (λ g. both (λ p. both (λ x. both (λ d. tells mode o g p x d)))) g
            (both-at (λ o. both (λ g. both (λ p. both (λ x. both (λ d. tells mode o g p x d))))) o
              h))))

modes_told : (mode : ℕ) → mode ≤ 3 → tells_always mode ≡ true
unfolding tells_always
modes_told zero h = refl
modes_told (suc zero) h = refl
modes_told (suc (suc zero)) h = refl
modes_told (suc (suc (suc zero))) h = refl
modes_told (suc (suc (suc (suc mode)))) h = absurd (omega arith)

-- The flags of an object tell what they were made of, and are none of the marks of an end of range.
pub flags_told :
    (mode : ℕ) (o g p x d : Bool)
    → mode ≤ 3
    → let flags = fetch_flags mode o g p x d in
      (flags ≤ 127)
      × (is_end_of_range flags ≡ false)
      × (mode_of flags ≡ mode)
      × (has_flag flags object_id_delta_flag ≡ o)
      × (has_flag flags group_id_delta_flag ≡ g)
      × (has_flag flags priority_flag ≡ p)
      × (has_flag flags properties_flag ≡ x)
      × (has_flag flags datagram_mode_flag ≡ d)
unfolding tells
flags_told mode o g p x d h =
    let flags = fetch_flags mode o g p x d in
    ground (
      arith,
      tells_all mode o g p x d (modes_told mode h),
      same-eq (has_flag flags object_id_delta_flag) o,
      same-eq (has_flag flags group_id_delta_flag) g,
      same-eq (has_flag flags priority_flag) p,
      same-eq (has_flag flags properties_flag) x,
      same-eq (has_flag flags datagram_mode_flag) d,
    )
