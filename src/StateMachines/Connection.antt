-- ===== src/StateMachines/Connection.antt =====
-- class ConnectionStateMachine. `Date.now()` is an argument; an `Error` is its message.
use Prim.Native.String.{String}
use moq_web.Base.{ℕ, Bool, List, [], ◌∷◌, Option, none, some, ◌==◌, if◌then◌else◌}
use moq_web.StateMachines.{StateMachine, Notice, Outcome, transition, force_state}

pub data ConnectionState : Type 0 where
  disconnected connecting setup_sent connected closing error : ConnectionState

unfoldable pub connection_transitions : ConnectionState → List ConnectionState
connection_transitions disconnected = connecting ∷ []
connection_transitions connecting = setup_sent ∷ error ∷ disconnected ∷ []
connection_transitions setup_sent = connected ∷ error ∷ disconnected ∷ []
connection_transitions connected = closing ∷ error ∷ disconnected ∷ []
connection_transitions closing = disconnected ∷ error ∷ []
connection_transitions error = disconnected ∷ []

abbrev rank : ConnectionState → ℕ
rank disconnected = 0
rank connecting = 1
rank setup_sent = 2
rank connected = 3
rank closing = 4
rank error = 5

abbrev pub same_state : ConnectionState → ConnectionState → Bool
same_state a b = rank a == rank b

pub record ConnectionStateMachine : Type 0 where
  pub base : StateMachine ConnectionState
  pub connected_at : Option ℕ
  pub last_error : Option String

abbrev pub Result : Type 0
Result = Outcome ConnectionStateMachine ConnectionState

unfoldable pub new : ConnectionStateMachine
new = record {
  base = record { state = disconnected; handlers = [] };
  connected_at = none;
  last_error = none;
}

unfoldable pub is_usable : ConnectionStateMachine → Bool
is_usable c = same_state c.base.state connected

-- `this.transition(target, reason)`
unfoldable pub go : ConnectionState → Option String → ConnectionStateMachine → Result
unfolding transition connection_transitions
go target reason c =
    let (m, success, told) = transition same_state connection_transitions target reason c.base in
    (record c { base = m }, success, told)

unfoldable pub start_connecting : ConnectionStateMachine → Result
unfolding go
start_connecting c = go connecting none c

unfoldable pub set_setup_sent : ConnectionStateMachine → Result
unfolding go
set_setup_sent c = go setup_sent none c

unfoldable pub set_connected : ℕ → ConnectionStateMachine → Result
unfolding go
set_connected now c =
    let (c', success, told) = go connected none c in
    (if success then record c' { connected_at = some now } else c', success, told)

unfoldable pub start_closing : Option String → ConnectionStateMachine → Result
unfolding go
start_closing reason c = go closing reason c

unfoldable pub set_error : String → ConnectionStateMachine → Result
unfolding go
set_error message c = go error (some message) (record c { last_error = some message })

unfoldable pub set_disconnected : Option String → ConnectionStateMachine → Result
unfolding go
set_disconnected reason c =
    let (c', success, told) = go disconnected reason c in
    (if success then record c' { connected_at = none; last_error = none } else c', success, told)

unfoldable pub reset :
    ConnectionStateMachine → ConnectionStateMachine × List (Notice ConnectionState)
unfolding force_state
reset c =
    let (m, told) = force_state disconnected (some "reset") c.base in
    (record { base = m; connected_at = none; last_error = none }, told)
