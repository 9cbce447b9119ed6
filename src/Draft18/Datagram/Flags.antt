-- ===== src/Draft18/Datagram/Flags.antt =====
-- The bits of the type of an object datagram, on both sides.
use moq_web.Base.{◌≤◌, ◌≡◌, refl, Bool, true, false, not, ◌&&◌, ◌||◌, leb, arith}
use moq_web.Draft18.Subgroup.{has_flag}
use moq_web.Draft18.Subgroup.Flags.{both, both-at, same, same-eq}
use moq_web.Draft18.Datagram.{
  datagram_type, is_datagram_type, properties_flag, end_of_group_flag, zero_object_id_flag,
  default_priority_flag, status_flag,
}

tells : Bool → Bool → Bool → Bool → Bool → Bool
unfolding same datagram_type is_datagram_type
tells p e z d s =
    let type = datagram_type p e z d s in
    (s && e)
    || (leb type 255
        && (is_datagram_type type
            && (not (has_flag type 0x10)
                && (same (has_flag type properties_flag) p
                    && (same (has_flag type end_of_group_flag) e
                        && (same (has_flag type zero_object_id_flag) z
                            && (same (has_flag type default_priority_flag) d
                                && same (has_flag type status_flag) s)))))))

tells_always : both (λ p. both (λ e. both (λ z. both (λ d. both (λ s. tells p e z d s))))) ≡ true
unfolding both tells
tells_always = refl

tells_all : (p e z d s : Bool) → tells p e z d s ≡ true
tells_all p e z d s =
    both-at (λ s. tells p e z d s) s
      (both-at (λ d. both (λ s. tells p e z d s)) d
        (both-at (λ z. both (λ d. both (λ s. tells p e z d s))) z
          (both-at (λ e. both (λ z. both (λ d. both (λ s. tells p e z d s)))) e
            (both-at (λ p. both (λ e. both (λ z. both (λ d. both (λ s. tells p e z d s))))) p
              tells_always))))

-- The type tells the flags that it was made of, unless they are those of a status and the end of the
-- group at once.
pub flags_of_type :
    (p e z d s : Bool)
    → (s && e) ≡ false
    → let type = datagram_type p e z d s in
      (type ≤ 255)
      × (is_datagram_type type ≡ true)
      × (has_flag type 0x10 ≡ false)
      × (has_flag type properties_flag ≡ p)
      × (has_flag type end_of_group_flag ≡ e)
      × (has_flag type zero_object_id_flag ≡ z)
      × (has_flag type default_priority_flag ≡ d)
      × (has_flag type status_flag ≡ s)
unfolding tells
flags_of_type p e z d s h =
    let type = datagram_type p e z d s in
    ground (
      arith,
      tells_all p e z d s,
      same-eq (has_flag type properties_flag) p,
      same-eq (has_flag type end_of_group_flag) e,
      same-eq (has_flag type zero_object_id_flag) z,
      same-eq (has_flag type default_priority_flag) d,
      same-eq (has_flag type status_flag) s,
    )
