-- ===== src/StateMachines/NamespaceSubscription.antt =====
-- class NamespaceSubscriptionStateMachine, over the states of a subscription.
use Prim.Native.String.{String}
use moq_web.Base.{ℕ, Bool, List, [], Option, none, some}
use moq_web.StateMachines.{StateMachine, Outcome, transition}
use moq_web.StateMachines.Subscription.{
  SubscriptionState, pending, active, ended, error, subscription_transitions, same_state,
}

pub record NamespaceSubscriptionStateMachine : Type 0 where
  pub base : StateMachine SubscriptionState
  pub namespace_prefix : List String
  pub error_code : Option ℕ
  pub error_reason : Option String

abbrev pub Result : Type 0
Result = Outcome NamespaceSubscriptionStateMachine SubscriptionState

unfoldable pub new : List String → NamespaceSubscriptionStateMachine
new namespace_prefix = record {
  base = record { state = pending; handlers = [] };
  namespace_prefix = namespace_prefix;
  error_code = none;
  error_reason = none;
}

unfoldable pub is_active : NamespaceSubscriptionStateMachine → Bool
is_active s = same_state s.base.state active

-- `this.transition(target, reason)`
unfoldable pub go : SubscriptionState → Option String → NamespaceSubscriptionStateMachine → Result
unfolding transition subscription_transitions
go target reason s =
    let (m, success, told) = transition same_state subscription_transitions target reason s.base in
    (record s { base = m }, success, told)

unfoldable pub set_active : NamespaceSubscriptionStateMachine → Result
unfolding go
set_active s = go active none s

unfoldable pub set_ended : Option String → NamespaceSubscriptionStateMachine → Result
unfolding go
set_ended reason s = go ended reason s

unfoldable pub set_error : ℕ → String → NamespaceSubscriptionStateMachine → Result
unfolding go
set_error error_code reason s =
    go error (some reason) (record s { error_code = some error_code; error_reason = some reason })
