-- ===== src/GroupGap/Runs.antt =====
-- A tracker that restarts after groups out of order, of which 300 is the last.
use moq_web.Base.{arith, List, All, ◌↔◌, ◌≡◌, refl, true, [], ◌∷◌, none, some, ok}
use moq_web.Base.Int.{ℤ, pos, leb_int, ltb_int}
use moq_web.Varint.Quic.{encode, encoded_length, decode}
use moq_web.GroupGap.{GroupIdGapTracker, record_group, restart, next_group_after_restart}
use moq_web.GroupGap.{decode_prior_group_id_gap}
use moq_web.GroupGap.Decoded.{decode_prior_group_id_gap_iff}
use moq_web.GroupGap.Laws.{record_groups, IsAmong, next_group_after_restart_lem}

-- A tracker that had group 3 published.
abbrev restored : GroupIdGapTracker
restored = record { last_group_id = pos 3; pending_restart_from = none }

abbrev groups : List ℤ
groups = pos 7 ∷ pos 300 ∷ pos 20 ∷ []

next_group_after_restart_lem_example :
    (t' : GroupIdGapTracker) × (group_id : ℤ) × (next_group_after_restart
        (pos 5)
        (restart (record_groups groups restored))
      ≡ ok (t', (group_id, some (0x41 ∷ 0x2c ∷ []))))
    × All (λ v. ltb_int v group_id ≡ true) (pos 3 ∷ groups)
    × (leb_int (pos 5) group_id ≡ true)
    × IsAmong (pos 300) (pos 3 ∷ groups)
    × All (λ v. leb_int v (pos 300) ≡ true) (pos 3 ∷ groups)
    × (t'.last_group_id ≡ group_id)
    × (t'.pending_restart_from ≡ none)
unfolding encode encoded_length record_groups record_group
next_group_after_restart_lem_example =
    next_group_after_restart_lem groups (pos 5) restored 300 (0x41 ∷ 0x2c ∷ []) refl refl

decode_prior_group_id_gap_iff_example :
    (decode_prior_group_id_gap (0x41 ∷ 0x2c ∷ []) ≡ ok (300, 2))
    ↔ (decode (0x41 ∷ 0x2c ∷ []) 0 ≡ ok (300, 2))
decode_prior_group_id_gap_iff_example =
    decode_prior_group_id_gap_iff (0x41 ∷ 0x2c ∷ []) 300 2 (omega arith, (omega arith, tt))

gap_decoded : decode_prior_group_id_gap (0x41 ∷ 0x2c ∷ []) ≡ ok (300, 2)
unfolding decode_prior_group_id_gap moq_web.Base.Bytes.bytes_from
gap_decoded = refl
