-- ===== src/RingBuffer/Runs.antt =====
-- Rings of three slots, whose items stand around the end of the array.
use moq_web.Base.{ℕ, ◌+◌, ◌≡◌, refl, true, List, [], ◌∷◌, Option, none, some, arith}
use moq_web.RingBuffer.{
  RingBuffer, OverflowMode, reject, overwrite, push, pop, pop_many, find, kept, remove_where,
}
use moq_web.RingBuffer.Invariant.{Represents}
use moq_web.RingBuffer.Queue.{push_overwrite}

abbrev ring : OverflowMode → List (Option ℕ) → ℕ → ℕ → RingBuffer ℕ
ring mode items tail size = record {
  items = items;
  head = 2;
  tail = tail;
  size = size;
  capacity = 3;
  overflow_mode = mode;
  total_pushed = 5;
  total_popped = 2;
  total_dropped = 0;
}

abbrev two_items : RingBuffer ℕ
two_items = ring overwrite (some 8 ∷ none ∷ some 7 ∷ []) 1 2

abbrev full : OverflowMode → RingBuffer ℕ
full mode = ring mode (some 8 ∷ some 9 ∷ some 7 ∷ []) 2 3

full-Represents : (mode : OverflowMode) → Represents (full mode) (7 ∷ 8 ∷ 9 ∷ [])
unfolding moq_web.RingBuffer.walk
full-Represents mode = record {
  some_room = omega arith;
  slots = refl;
  head_inside = omega arith;
  tail_behind = refl;
  size_fits = omega arith;
  in_order = refl;
  none_missing = refl;
}

push_overwrite_example :
    Represents (push 1 (full overwrite)).0 (8 ∷ 9 ∷ 1 ∷ [])
    × ((push 1 (full overwrite)).1 ≡ true)
    × ((push 1 (full overwrite)).2 ≡ some 7)
    × ((push 1 (full overwrite)).0.total_dropped ≡ 0 + 1)
push_overwrite_example =
    push_overwrite 1 7 (full overwrite) (8 ∷ 9 ∷ []) (full-Represents overwrite) refl refl
