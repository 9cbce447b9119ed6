-- ===== src/SendOrder/Runs.antt =====
-- Streams of fixed priorities.
use moq_web.Base.{ℕ, ◌<◌, ◌≡◌, ◌↔◌, ◌⊎◌, refl, inl, inr, arith}
use moq_web.Base.Int.{pos, negsuc}
use moq_web.SendOrder.{ascending, descending, Priority, not_finite, int, compute_send_order}
use moq_web.SendOrder.Laws.{compute_send_order_iff}

abbrev low : Priority
low = int (pos 400)

abbrev urgent : Priority
urgent = int (negsuc 2)

abbrev most_urgent : ℕ
most_urgent = 0

abbrev least_urgent : ℕ
least_urgent = 255

abbrev middle : ℕ
middle = 128

compute_send_order_iff_example :
    (compute_send_order low not_finite ascending (pos 7)
      < compute_send_order urgent not_finite descending (pos 9))
    ↔ ((most_urgent < least_urgent)
        ⊎ ((most_urgent ≡ least_urgent)
            × ((middle < middle) ⊎ ((middle ≡ middle) × (68719476726 < 7)))))
compute_send_order_iff_example =
    compute_send_order_iff low not_finite urgent not_finite ascending descending (pos 7) (pos 9) 255
      128 7 0 128 68719476726 (inr (omega arith, refl)) refl (inl (omega arith, refl)) refl refl
      (9, inl (omega arith, refl), refl)
