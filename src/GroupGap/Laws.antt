-- ===== src/GroupGap/Laws.antt =====
-- The gap extension is VarInt's encoding, and the groups after a restart are new.
use moq_web.Base.{
  All, All-imp, subst, sym, ◌∙◌, ◌⊎◌, some, not, if◌then◌else◌, ℕ, zero, suc, ◌+◌, ◌*◌, ◌/◌, ◌%◌,
  ◌^◌, ◌<◌, ◌≡◌, refl, bit_and, bit_or, true, List, [], ◌∷◌, Option, none, ok, leb, arith, cons_eq,
  Bool-cases, inl, inr,
}
use moq_web.Base.Int.{ℤ, pos, negsuc, leb_int, ltb_int, leb_int_refl, leb_int_trans, leb_int_total}
use moq_web.Base.Bits.{shl, shr, bit_or-shl, bit_and-mask, bit_and-byte}
use moq_web.Base.Bytes.{be_bytes, byte_at}
use moq_web.Varint.Quic.{encoded_length, encode_with, encode}
use moq_web.Varint.Quic.Shape.{encode_bytes_1, encode_bytes_2, encode_bytes_4, encode_bytes_8}
use moq_web.GroupGap.{
  encode_prior_group_id_gap, less, next, GroupIdGapTracker, record_group, restart,
  next_group_after_restart,
}

ruleset low_bytes = (bit_and-byte)

tagged : (p x : ℕ) → bit_or (shl p 6) (bit_and x 0x3f) ≡ shl p 6 + x % 64
tagged p x = rw (bit_and-mask 6 x) (bit_or-shl 6 p (x % 2 ^ 6) (omega arith))

two_bytes :
    (v : ℕ)
    → v < 2 ^ 14
    → bit_or 0x40 (bit_and (shr v 8) 0x3f) ∷ bit_and v 0xff ∷ [] ≡ (64 + v / 2 ^ 8) ∷ be_bytes 1 v
two_bytes v h =
    cons_eq (omega (arith, tagged 1 (v / 2 ^ 8))) (simp low_bytes (cons_eq (omega arith) refl))

four_bytes :
    (v : ℕ)
    → v < 2 ^ 30
    → bit_or 0x80 (bit_and (shr v 24) 0x3f) ∷ byte_at v 16 ∷ byte_at v 8 ∷ bit_and v 0xff ∷ []
      ≡ (2 * 64 + v / 2 ^ 24) ∷ be_bytes 3 v
four_bytes v h =
    cons_eq (omega (arith, tagged 2 (v / 2 ^ 24)))
      (simp low_bytes (cons_eq refl (cons_eq refl (cons_eq (omega arith) refl))))

eight_bytes :
    (v : ℕ)
    → v < 2 ^ 62
    → bit_or 0xc0 (bit_and (shr (shr v 32) 24) 0x3f)
        ∷ byte_at (shr v 32) 16
        ∷ byte_at (shr v 32) 8
        ∷ bit_and (shr v 32) 0xff
        ∷ byte_at (bit_and v 0xffffffff) 24
        ∷ byte_at (bit_and v 0xffffffff) 16
        ∷ byte_at (bit_and v 0xffffffff) 8
        ∷ bit_and (bit_and v 0xffffffff) 0xff
        ∷ []
      ≡ (3 * 64 + v / 2 ^ 56) ∷ be_bytes 7 v
eight_bytes v h = rw (bit_and-mask 32 v) (
    cons_eq (omega (arith, tagged 3 (v / 2 ^ 32 / 2 ^ 24))) (
      simp low_bytes (
        cons_eq (omega arith) (
          cons_eq (omega arith) (
            cons_eq (omega arith) (
              cons_eq (omega arith)
                (cons_eq (omega arith) (cons_eq (omega arith) (cons_eq (omega arith) refl)))))))))

-- For a value that VarInt.encode accepts, the encoder of the extension writes the same bytes.
pub encode_prior_group_id_gap-encode :
    (v : ℕ) (bytes : List ℕ)
    → encode (pos v) ≡ ok bytes
    → encode_prior_group_id_gap (pos v) ≡ ok bytes
unfolding encode encoded_length encode_with encode_prior_group_id_gap
encode_prior_group_id_gap-encode v bytes h = elim (Bool-cases (leb v 63)) [
  | inl small ↦ ground (arith, encode_bytes_1 v)
  | inr large ↦ elim (Bool-cases (leb v 16383)) [
    | inl small ↦ ground (arith, two_bytes v, encode_bytes_2 v)
    | inr larger ↦ elim (Bool-cases (leb v 1073741823)) [
      | inl small ↦ ground (arith, four_bytes v, encode_bytes_4 v)
      | inr largest ↦ ground (arith, eight_bytes v, encode_bytes_8 v)
    ]
  ]
]

less-next : (a : ℤ) → less a (next a) ≡ true
less-next (pos n) = ground arith
less-next (negsuc zero) = refl
less-next (negsuc (suc n)) = ground arith

given_group :
    (candidate : ℤ) (t t' : GroupIdGapTracker) (group_id : ℤ) (value : Option (List ℕ))
    → next_group_after_restart candidate t ≡ ok (t', (group_id, value))
    → (less t.last_group_id group_id ≡ true)
      × (t'.last_group_id ≡ group_id)
      × (t'.pending_restart_from ≡ none)
unfolding next_group_after_restart record_group
given_group candidate t t' group_id value h = ground (arith, less-next t.last_group_id)

-- The order of the tracker is that of the integers.
less-ltb_int : (a b : ℤ) → less a b ≡ ltb_int a b
less-ltb_int (pos a) (pos b) = ground arith
less-ltb_int (pos a) (negsuc b) = refl
less-ltb_int (negsuc a) (pos b) = refl
less-ltb_int (negsuc a) (negsuc b) = ground arith

-- The tracker after some groups were recorded.
unfoldable pub record_groups : List ℤ → GroupIdGapTracker → GroupIdGapTracker
unfolding record_group
record_groups [] t = t
record_groups (v ∷ vs) t = record_groups vs (record_group v t)

record_group-most :
    (v : ℤ) (t : GroupIdGapTracker)
    → (leb_int t.last_group_id (record_group v t).last_group_id ≡ true)
      × (leb_int v (record_group v t).last_group_id ≡ true)
unfolding record_group
record_group-most v t = elim (Bool-cases (leb_int v t.last_group_id)) [
  | inl low ↦
      rw (record_group, less-ltb_int t.last_group_id v, low) (leb_int_refl t.last_group_id, low)
  | inr high ↦
      rw (record_group, less-ltb_int t.last_group_id v, high)
        (leb_int_total v t.last_group_id high, leb_int_refl v)
]

-- The last group is one of those recorded, or that of before, and none of these is greater.
record_groups-most :
    (vs : List ℤ) (t : GroupIdGapTracker)
    → (leb_int t.last_group_id (record_groups vs t).last_group_id ≡ true)
      × All (λ v. leb_int v (record_groups vs t).last_group_id ≡ true) vs
unfolding record_groups
record_groups-most [] t = (leb_int_refl t.last_group_id, tt)
record_groups-most (v ∷ vs) t =
    let (kept, least) = record_group-most v t in
    let (later, rest) = record_groups-most vs (record_group v t) in
    let last = (record_groups vs (record_group v t)).last_group_id in
    (
      leb_int_trans t.last_group_id (record_group v t).last_group_id last kept later,
      (leb_int_trans v (record_group v t).last_group_id last least later, rest),
    )

-- An integer of a list.
abbrev pub IsAmong : ℤ → List ℤ → Type 0
IsAmong z [] = ⊥
IsAmong z (v ∷ vs) = (z ≡ v) ⊎ IsAmong z vs

record_group-either :
    (v : ℤ) (t : GroupIdGapTracker)
    → ((record_group v t).last_group_id ≡ t.last_group_id) ⊎ ((record_group v t).last_group_id ≡ v)
unfolding record_group
record_group-either v t = elim (Bool-cases (less t.last_group_id v)) [
  | inl above ↦ inr (rw (record_group, above) refl)
  | inr below ↦ inl (rw (record_group, below) refl)
]

record_groups-IsAmong :
    (vs : List ℤ) (t : GroupIdGapTracker)
    → IsAmong (record_groups vs t).last_group_id (t.last_group_id ∷ vs)
unfolding record_groups
record_groups-IsAmong [] t = inl refl
record_groups-IsAmong (v ∷ vs) t = elim (record_groups-IsAmong vs (record_group v t)) [
  | inr among ↦ inr (inr among)
  | inl e ↦ elim (record_group-either v t) [ inl e' ↦ inl (e ∙ e') | inr e' ↦ inr (inl (e ∙ e')) ]
]

restart_pending :
    (t : GroupIdGapTracker) (last : ℕ)
    → t.last_group_id ≡ pos last
    → (restart t).pending_restart_from ≡ some (pos last)
unfolding restart
restart_pending t last e = ground (arith, e)

restart_last : (t : GroupIdGapTracker) → (restart t).last_group_id ≡ t.last_group_id
unfolding restart
restart_last t = ground arith

group_from :
    (candidate last : ℤ)
    → leb_int candidate (if not (less last candidate) then next last else candidate) ≡ true
group_from (pos c) (pos l) = ground arith
group_from (pos c) (negsuc zero) = ground (arith, leb_int_refl (pos c))
group_from (pos c) (negsuc (suc l)) = ground arith
group_from (negsuc c) (pos l) = refl
group_from (negsuc c) (negsuc zero) = ground arith
group_from (negsuc c) (negsuc (suc l)) = ground arith

-- The call behind a restart, and the group that was the last.
after_restart :
    (candidate : ℤ) (t : GroupIdGapTracker) (last : ℕ) (bytes : List ℕ)
    → t.pending_restart_from ≡ some (pos last)
    → encode (pos last) ≡ ok bytes
    → (t' : GroupIdGapTracker) × (group_id : ℤ) × (next_group_after_restart candidate t
        ≡ ok (t', (group_id, some bytes)))
      × (less t.last_group_id group_id ≡ true)
      × (leb_int candidate group_id ≡ true)
      × (t'.last_group_id ≡ group_id)
      × (t'.pending_restart_from ≡ none)
unfolding next_group_after_restart
after_restart candidate t last bytes pending written =
    let value = encode_prior_group_id_gap-encode last bytes written in
    let group_id =
      if not (less t.last_group_id candidate) then next t.last_group_id else candidate in
    let t' = record_group group_id (record t { pending_restart_from = none }) in
    let e : next_group_after_restart candidate t ≡ ok (t', (group_id, some bytes)) =
      ground (arith, pending, value) in
    let (after, recorded, told) = given_group candidate t t' group_id (some bytes) e in
    (t', group_id, e, after, group_from candidate t.last_group_id, recorded, told)

before_later : (a b c : ℤ) → leb_int a b ≡ true → ltb_int b c ≡ true → ltb_int a c ≡ true
before_later a b c low high = elim (Bool-cases (leb_int c a)) [
  | inl back ↦ absurd (ground (arith, leb_int_trans c a b back low))
  | inr up ↦ rw up refl
]

-- After recordGroup of any groups, a restart, where VarInt can encode the last group, which is the
-- greatest of these and the last of before: the next call does not throw. It gives a group after the
-- recorded ones and the last of before, and not before the candidate, with the encoding of the last
-- group, records the new one as the last, and leaves no restart pending.
pub next_group_after_restart_lem :
    (vs : List ℤ) (candidate : ℤ) (t : GroupIdGapTracker) (last : ℕ) (bytes : List ℕ)
    → (record_groups vs t).last_group_id ≡ pos last
    → encode (pos last) ≡ ok bytes
    → (t' : GroupIdGapTracker) × (group_id : ℤ) × (next_group_after_restart candidate
          (restart (record_groups vs t))
        ≡ ok (t', (group_id, some bytes)))
      × All (λ v. ltb_int v group_id ≡ true) (t.last_group_id ∷ vs)
      × (leb_int candidate group_id ≡ true)
      × IsAmong (pos last) (t.last_group_id ∷ vs)
      × All (λ v. leb_int v (pos last) ≡ true) (t.last_group_id ∷ vs)
      × (t'.last_group_id ≡ group_id)
      × (t'.pending_restart_from ≡ none)
next_group_after_restart_lem vs candidate t last bytes e written =
    let recorded = record_groups vs t in
    let (t', group_id, does, after, from, kept, told) =
      after_restart candidate (restart recorded) last bytes (restart_pending recorded last e)
        written in
    let most : All (λ v. leb_int v (pos last) ≡ true) (t.last_group_id ∷ vs) =
      subst (λ z. All (λ v. leb_int v z ≡ true) (t.last_group_id ∷ vs)) e
        (record_groups-most vs t) in
    let above : ltb_int (pos last) group_id ≡ true =
      subst (λ z. ltb_int z group_id ≡ true) (restart_last recorded ∙ e)
        (sym (less-ltb_int (restart recorded).last_group_id group_id) ∙ after) in
    (
      t',
      group_id,
      does,
      All-imp (t.last_group_id ∷ vs) (λ v low. before_later v (pos last) group_id low above) most,
      from,
      subst (λ z. IsAmong z (t.last_group_id ∷ vs)) e (record_groups-IsAmong vs t),
      most,
      kept,
      told,
    )
