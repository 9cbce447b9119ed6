-- ===== src/StateMachines/Runs.antt =====
-- The machines over fixed sequences of calls.
use moq_web.Base.{◌≡◌, refl, inl, List, [], ◌∷◌, none}
use moq_web.StateMachines.Connection
use moq_web.StateMachines.Connection.{ConnectionState, ConnectionStateMachine}
use moq_web.StateMachines.ConnectionLaws
use moq_web.StateMachines.ConnectionLaws.{IsTimed, new-IsTimed, run-IsTimed}
use moq_web.StateMachines.ConnectionEdges.{IsTold, ◌⟶◌, step-⟶}

-- The transition to error is that of the base class.
abbrev setup : List ConnectionLaws.Call
setup =
    ConnectionLaws.start_connecting
    ∷ ConnectionLaws.subscribe 4
    ∷ ConnectionLaws.send_setup
    ∷ ConnectionLaws.set_connected 17
    ∷ ConnectionLaws.transition ConnectionState.error none
    ∷ ConnectionLaws.force_state ConnectionState.closing none
    ∷ []

run-IsTimed_example : IsTimed (ConnectionLaws.run setup Connection.new)
run-IsTimed_example =
    run-IsTimed setup Connection.new
      (tt, (tt, (tt, (tt, (((λ e. cc), (λ e. cc)), (inl refl, tt)))))) new-IsTimed

-- A connection whose setup was sent, with two handlers.
abbrev offered : ConnectionStateMachine
offered = record {
  base = record { state = ConnectionState.setup_sent; handlers = 4 ∷ 9 ∷ [] };
  connected_at = none;
  last_error = none;
}

step-⟶_example :
    (ConnectionState.setup_sent ⟶ ConnectionState.connected)
    × IsTold
        (4 ∷ 9 ∷ [])
        ConnectionState.connected
        ConnectionState.setup_sent
        none
        (ConnectionLaws.step (ConnectionLaws.set_connected 17) offered).2
unfolding ConnectionLaws.step
step-⟶_example = step-⟶ (ConnectionLaws.set_connected 17) offered tt refl

-- The method `transition` of the base class connects without the time of connection.
abbrev passed : ConnectionStateMachine
unfolding ConnectionLaws.step
passed = (ConnectionLaws.step (ConnectionLaws.transition ConnectionState.connected none) offered).0

untimed : (passed.base.state ≡ ConnectionState.connected) × (passed.connected_at ≡ none)
unfolding ConnectionLaws.step
untimed = (refl, refl)
