-- ===== src/GroupGap/Decoded.antt =====
-- The decoder of the gap extension is VarInt's.
use moq_web.Base.{
  ℕ, zero, suc, ◌+◌, ◌-◌, ◌*◌, ◌^◌, ◌<◌, ◌≡◌, ◌↔◌, refl, sym, ap, ◌∙◌, bit_and, bit_or, List, [],
  ◌∷◌, length, get_or, ok, All, arith,
}
use moq_web.Base.Bits.{shl, shr, bit_or-shl, bit_and-mask}
use moq_web.Base.Bytes.{
  IsByte, of_be, bytes_from, join_be, join_be-of_be, bytes_from-IsByte, eight_more,
}
use moq_web.Varint.Quic.{length_from_first_byte, decode}
use moq_web.GroupGap.{gather, decode_prior_group_id_gap}

gather-of_be :
    (x : ℕ) (bs : List ℕ) → All IsByte bs → gather x bs ≡ x * 2 ^ (8 * length bs) + of_be bs
unfolding gather
gather-of_be x [] h = omega arith
gather-of_be x (b ∷ bs) (h, hs) =
    let step : bit_or (shl x 8) b ≡ x * 256 + b = bit_or-shl 8 x b h in
    rw (step, gather-of_be (x * 256 + b) bs hs, eight_more (length bs)) (grind arith)

gather-join_be : (x : ℕ) (bs : List ℕ) → All IsByte bs → gather x bs ≡ join_be x bs
gather-join_be x bs h = gather-of_be x bs h ∙ sym (join_be-of_be x bs h)

lengths : (p : ℕ) → p < 4 → get_or (1 ∷ 2 ∷ 4 ∷ 8 ∷ []) p 0 ≡ shl 1 p
lengths zero h = refl
lengths (suc zero) h = refl
lengths (suc (suc zero)) h = refl
lengths (suc (suc (suc zero))) h = refl
lengths (suc (suc (suc (suc p)))) h = absurd (omega arith)

same_length : (b : ℕ) → b < 256 → length_from_first_byte b ≡ shl 1 (shr b 6)
unfolding length_from_first_byte
same_length b h =
    let prefix : bit_and (shr b 6) 0b11 ≡ shr b 6 = omega (arith, bit_and-mask 2 (shr b 6)) in
    ap (λ (p : ℕ). get_or (1 ∷ 2 ∷ 4 ∷ 8 ∷ []) p 0) prefix ∙ lengths (shr b 6) (omega arith)

-- On bytes decodePriorGroupIdGap gives a value and a length just where VarInt.decode at the start gives
-- them.
pub decode_prior_group_id_gap_iff :
    (bytes : List ℕ) (v n : ℕ)
    → All IsByte bytes
    → (decode_prior_group_id_gap bytes ≡ ok (v, n)) ↔ (decode bytes 0 ≡ ok (v, n))
unfolding decode_prior_group_id_gap decode
decode_prior_group_id_gap_iff [] v n h = (λ e. absurd (ground arith), λ e. absurd (ground arith))
decode_prior_group_id_gap_iff (b ∷ bytes) v n (h, hs) =
    let size = same_length b h in
    let rest = bytes_from (b ∷ bytes) 1 (shl 1 (shr b 6) - 1) in
    let value : gather (bit_and b 0x3f) rest ≡ join_be (bit_and b 0x3f) rest =
      gather-join_be (bit_and b 0x3f) rest (bytes_from-IsByte (b ∷ bytes) 1 _ (h, hs)) in
    (λ e. rw size (ground (arith, value)), λ e. (let e' = rw size at e in ground (arith, value)))
