-- ===== src/ReorderBuffer/Runs.antt =====
-- Three frames that arrive out of order, where two may wait. A frame is its timestamp.
use mathlib.Core.List.{Perm}
use moq_web.Base.{◌++◌, ◌≡◌, refl, List, [], ◌∷◌, some, arith}
use moq_web.Base.Int.{ℤ, pos}
use moq_web.ReorderBuffer.{
  Config, Reorder, Event, Call, push_call, depth_call, flush_call, reset_call, push, run,
}
use moq_web.ReorderBuffer.Release.{IsRising, last_of, times}
use moq_web.ReorderBuffer.Frames
use moq_web.ReorderBuffer.Frames.{handled}
use moq_web.ReorderBuffer.Order.{IsValid, push_in_order, push-in_order}
use moq_web.ReorderBuffer.Sequences.{run-keeps, run-rises}

abbrev config : Config
config = record { buffer_depth = 2; max_hold_time_ms = 200; max_buffered_frames = 128 }

abbrev own_time : ℤ → ℤ
own_time t = t

-- Two frames wait.
abbrev waiting : Reorder ℤ
waiting = record {
  config = config;
  buffer =
      record { frame = pos 40; timestamp = pos 40; received_at = 3 }
      ∷ record { frame = pos 80; timestamp = pos 80; received_at = 2 }
      ∷ [];
  last_released_timestamp = pos 0;
}

waiting-IsValid : IsValid own_time waiting
waiting-IsValid = (((refl, tt), (tt, tt)), (refl, (refl, tt)), omega arith)

push-in_order_example :
    push own_time (pos 40) 5 waiting ≡ some (push_in_order own_time (pos 40) 5 waiting)
push-in_order_example = push-in_order own_time (pos 40) 5 waiting waiting-IsValid.0

abbrev all_calls : List (Call ℤ)
all_calls =
    push_call (pos 60) 5
    ∷ depth_call 1
    ∷ push_call (pos 20) 6
    ∷ flush_call
    ∷ push_call (pos 10) 7
    ∷ reset_call
    ∷ []

run-keeps_example :
    (s' : Reorder ℤ) × (events : List (Event ℤ)) × (run own_time all_calls waiting
      ≡ some (s', events))
    × IsValid own_time s'
    × Perm
        (handled events ++ Frames.waiting s'.buffer)
        (pos 40 ∷ pos 80 ∷ pos 60 ∷ pos 20 ∷ pos 10 ∷ [])
run-keeps_example = run-keeps own_time all_calls waiting waiting-IsValid

abbrev some_calls : List (Call ℤ)
some_calls = push_call (pos 60) 5 ∷ depth_call 1 ∷ push_call (pos 20) 6 ∷ []

run-rises_example :
    (s' : Reorder ℤ) × (events : List (Event ℤ)) × (run own_time some_calls waiting
      ≡ some (s', events))
    × IsRising (pos 0) (times own_time events)
    × (last_of (pos 0) (times own_time events) ≡ s'.last_released_timestamp)
run-rises_example = run-rises own_time some_calls waiting waiting-IsValid (tt, (tt, (tt, tt)))
