-- ===== src/StateMachines/SubscriptionLaws.antt =====
-- What a subscription does over any sequence of the methods that SubscriptionStateMachine itself declares;
-- the inherited transition and forceState are not among the methods here.
use Prim.Native.String.{String}
use moq_web.Base.{
  ℕ, ◌≡◌, ◌≢◌, refl, inl, inr, true, false, List, [], ◌∷◌, Option, none, some, arith, ◌+◌, ◌≤◌, ◌<◌,
  ◌∙◌, ap, Bool-cases, if◌then◌else◌,
}
use moq_web.StateMachines.{StateMachine}
use moq_web.StateMachines.Subscription
use moq_web.StateMachines.Subscription.{
  SubscriptionState, pending, active, ended, error, SubscriptionStateMachine, Result, has_ended,
  is_active, new,
}

pub data Call : Type 0 where
  set_active : Option ℕ → Option ℕ → ℕ → Call
  set_ended : Option String → Call
  set_error : ℕ → String → Call

unfoldable pub step : Call → SubscriptionStateMachine → Result
unfolding Subscription.set_active Subscription.set_ended Subscription.set_error
step (set_active track_alias group_order now) s =
    Subscription.set_active track_alias group_order now s
step (set_ended reason) s = Subscription.set_ended reason s
step (set_error error_code reason) s = Subscription.set_error error_code reason s

-- The machine after some calls, and how many of them succeeded.
unfoldable pub run : List Call → SubscriptionStateMachine → SubscriptionStateMachine × ℕ
unfolding step
run [] s = (s, 0)
run (call ∷ calls) s =
    let (s', success, told) = step call s in
    let (end, count) = run calls s' in (end, if success then count + 1 else count)

-- What an activation records is there while active, and a subscription that never was active has none.
pub record IsActivated (s : SubscriptionStateMachine) : Type 0 where
  pub active_timed : s.base.state ≡ active → s.active_at ≢ none
  pub pending_untimed : s.base.state ≡ pending → s.active_at ≡ none
  pub untimed_unnamed : s.active_at ≡ none → (s.track_alias ≡ none) × (s.group_order ≡ none)

pub new-IsActivated : (id : ℕ) → IsActivated (new id)
unfolding new
new-IsActivated id = record {
  active_timed = λ e. cc;
  pending_untimed = λ e. refl;
  untimed_unnamed = λ e. (refl, refl);
}

step-IsActivated :
    (call : Call) (s : SubscriptionStateMachine) → IsActivated s → IsActivated (step call s).0
unfolding step
step-IsActivated (set_active track_alias group_order now) s h = ground arith
step-IsActivated call s h = ground arith

-- Any sequence of methods on a subscription whose record of the activation is in step with its state
-- keeps it so.
pub run-IsActivated :
    (calls : List Call) (s : SubscriptionStateMachine) → IsActivated s → IsActivated (run calls s).0
unfolding run
run-IsActivated [] s h = h
run-IsActivated (call ∷ calls) s h =
    run-IsActivated calls (step call s).0 (step-IsActivated call s h)

step_ended :
    (call : Call) (s : SubscriptionStateMachine)
    → has_ended s ≡ true
    → ((step call s).1 ≡ false)
      × ((step call s).0.base ≡ s.base)
      × ((step call s).0.track_alias ≡ s.track_alias)
      × ((step call s).0.active_at ≡ s.active_at)
      × (has_ended (step call s).0 ≡ true)
unfolding step has_ended
step_ended (set_active track_alias group_order now) s h = ground arith
step_ended call s h = ground arith

-- Once ended or in error, a subscription stays so: no later method succeeds, and the state, the
-- handlers, the alias and the time of activation stay.
pub run_ended :
    (calls : List Call) (s : SubscriptionStateMachine)
    → has_ended s ≡ true
    → ((run calls s).1 ≡ 0)
      × ((run calls s).0.base ≡ s.base)
      × ((run calls s).0.track_alias ≡ s.track_alias)
      × ((run calls s).0.active_at ≡ s.active_at)
unfolding run
run_ended [] s h = (refl, refl, refl, refl)
run_ended (call ∷ calls) s h =
    let (refused, base, alias, time, still) = step_ended call s h in
    let (count, base', alias', time') = run_ended calls (step call s).0 still in
    (rw refused count, base' ∙ base, alias' ∙ alias, time' ∙ time)

abbrev left : SubscriptionState → ℕ
left pending = 2
left active = 1
left ended = 0
left error = 0

step-left :
    (call : Call) (s : SubscriptionStateMachine)
    → (step call s).1 ≡ true
    → left (step call s).0.base.state < left s.base.state
unfolding step
step-left (set_active track_alias group_order now) s h = ground arith
step-left call s h = ground arith

step_refused :
    (call : Call) (s : SubscriptionStateMachine)
    → (step call s).1 ≡ false
    → (step call s).0.base ≡ s.base
unfolding step
step_refused (set_active track_alias group_order now) s h = ground arith
step_refused call s h = ground arith

run-left : (calls : List Call) (s : SubscriptionStateMachine) → (run calls s).1 ≤ left s.base.state
unfolding run
run-left [] s = omega arith
run-left (call ∷ calls) s = elim (Bool-cases (step call s).1) [
  | inl took ↦ rw took (omega (arith, step-left call s took, run-left calls (step call s).0))
  | inr refused ↦ rw refused (
      rw (ap (λ (m : StateMachine SubscriptionState). left m.state) (step_refused call s refused))
        at (run-left calls (step call s).0))
]

-- Of all the methods called on a new subscription two at most succeed.
pub run_twice : (calls : List Call) (id : ℕ) → (run calls (new id)).1 ≤ 2
unfolding new
run_twice calls id = run-left calls (new id)

-- A `setError` after the end is refused, and yet leaves its code and reason behind.
pub refused_error_recorded :
    (error_code : ℕ) (reason : String) (s : SubscriptionStateMachine)
    → has_ended s ≡ true
    → ((step (set_error error_code reason) s).1 ≡ false)
      × ((step (set_error error_code reason) s).0.base ≡ s.base)
      × ((step (set_error error_code reason) s).0.error_code ≡ some error_code)
      × ((step (set_error error_code reason) s).0.error_reason ≡ some reason)
unfolding step has_ended
refused_error_recorded error_code reason s h = ground arith
