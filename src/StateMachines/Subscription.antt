-- ===== src/StateMachines/Subscription.antt =====
-- class SubscriptionStateMachine. `Date.now()` is an argument.
use Prim.Native.String.{String}
use moq_web.Base.{ℕ, Bool, List, [], ◌∷◌, Option, none, some, ◌==◌, ◌||◌, if◌then◌else◌}
use moq_web.StateMachines.{StateMachine, Outcome, transition}

pub data SubscriptionState : Type 0 where
  pending active ended error : SubscriptionState

unfoldable pub subscription_transitions : SubscriptionState → List SubscriptionState
subscription_transitions pending = active ∷ error ∷ ended ∷ []
subscription_transitions active = ended ∷ error ∷ []
subscription_transitions ended = []
subscription_transitions error = []

abbrev rank : SubscriptionState → ℕ
rank pending = 0
rank active = 1
rank ended = 2
rank error = 3

abbrev pub same_state : SubscriptionState → SubscriptionState → Bool
same_state a b = rank a == rank b

pub record SubscriptionStateMachine : Type 0 where
  pub base : StateMachine SubscriptionState
  pub subscribe_id : ℕ
  pub track_alias : Option ℕ
  pub error_code : Option ℕ
  pub error_reason : Option String
  pub group_order : Option ℕ
  pub active_at : Option ℕ

abbrev pub Result : Type 0
Result = Outcome SubscriptionStateMachine SubscriptionState

unfoldable pub new : ℕ → SubscriptionStateMachine
new subscribe_id = record {
  base = record { state = pending; handlers = [] };
  subscribe_id = subscribe_id;
  track_alias = none;
  error_code = none;
  error_reason = none;
  group_order = none;
  active_at = none;
}

unfoldable pub is_active : SubscriptionStateMachine → Bool
is_active s = same_state s.base.state active

unfoldable pub has_ended : SubscriptionStateMachine → Bool
has_ended s = same_state s.base.state ended || same_state s.base.state error

-- `this.transition(target, reason)`
unfoldable pub go : SubscriptionState → Option String → SubscriptionStateMachine → Result
unfolding transition subscription_transitions
go target reason s =
    let (m, success, told) = transition same_state subscription_transitions target reason s.base in
    (record s { base = m }, success, told)

unfoldable pub set_active : Option ℕ → Option ℕ → ℕ → SubscriptionStateMachine → Result
unfolding go
set_active track_alias group_order now s =
    let (s', success, told) = go active none s in
    (
      if success
          then record s' {
            track_alias = track_alias;
            group_order = group_order;
            active_at = some now;
          }
          else s',
      success,
      told,
    )

unfoldable pub set_ended : Option String → SubscriptionStateMachine → Result
unfolding go
set_ended reason s = go ended reason s

unfoldable pub set_error : ℕ → String → SubscriptionStateMachine → Result
unfolding go
set_error error_code reason s =
    go error (some reason) (record s { error_code = some error_code; error_reason = some reason })
