-- ===== src/StateMachines/ConnectionLaws.antt =====
-- What a connection does over any sequence of the methods of ConnectionStateMachine.
use Prim.Native.String.{String}
use moq_web.Base.{
  ℕ, ◌≡◌, ◌≢◌, refl, ◌⊎◌, inl, inr, true, List, [], ◌∷◌, Option, none, arith, Bool-cases, All,
}
use moq_web.StateMachines
use moq_web.StateMachines.{Notice, notices}
use moq_web.StateMachines.Connection
use moq_web.StateMachines.Connection.{
  ConnectionState, disconnected, connecting, setup_sent, connected, closing, error,
  ConnectionStateMachine, Result, new, same_state, connection_transitions,
}

-- A call of one of the methods, the inherited ones with it, and the time at which it is made where that
-- is read.
pub data Call : Type 0 where
  start_connecting send_setup reset : Call
  set_connected : ℕ → Call
  start_closing set_disconnected : Option String → Call
  set_error : String → Call
  transition force_state : ConnectionState → Option String → Call
  subscribe unsubscribe : ℕ → Call
  remove_handlers : Call

-- `this.forceState(state, reason)`
abbrev forced :
    ConnectionState
    → Option String
    → ConnectionStateMachine
    → ConnectionStateMachine × List (Notice ConnectionState)
forced state reason c =
    let (m, told) = StateMachines.force_state state reason c.base in (record c { base = m }, told)

-- What a method that returns nothing leaves is paired with true.
unfoldable pub step : Call → ConnectionStateMachine → Result
unfolding Connection.start_connecting Connection.set_setup_sent Connection.reset
    Connection.set_connected Connection.start_closing Connection.set_disconnected
    Connection.set_error Connection.go StateMachines.force_state StateMachines.on
    StateMachines.unsubscribe StateMachines.remove_all_handlers
step start_connecting c = Connection.start_connecting c
step send_setup c = Connection.set_setup_sent c
step reset c = let (c', told) = Connection.reset c in (c', true, told)
step (set_connected now) c = Connection.set_connected now c
step (start_closing reason) c = Connection.start_closing reason c
step (set_disconnected reason) c = Connection.set_disconnected reason c
step (set_error message) c = Connection.set_error message c
step (transition target reason) c = Connection.go target reason c
step (force_state state reason) c = let (c', told) = forced state reason c in (c', true, told)
step (subscribe handler) c = (record c { base = StateMachines.on handler c.base }, true, [])
step (unsubscribe handler) c =
    (record c { base = StateMachines.unsubscribe handler c.base }, true, [])
step remove_handlers c = (record c { base = StateMachines.remove_all_handlers c.base }, true, [])

unfoldable pub run : List Call → ConnectionStateMachine → ConnectionStateMachine
unfolding step
run [] c = c
run (call ∷ calls) c = run calls (step call c).0

-- The states in which a connection has been established and not yet given up.
abbrev pub IsEstablished : ConnectionState → Type 0
IsEstablished s = (s ≡ connected) ⊎ ((s ≡ closing) ⊎ (s ≡ error))

-- A time of connection is there while connected, and is gone before and after.
pub record IsTimed (c : ConnectionStateMachine) : Type 0 where
  pub connected_timed : c.base.state ≡ connected → c.connected_at ≢ none
  pub timed_established : c.connected_at ≢ none → IsEstablished c.base.state

pub new-IsTimed : IsTimed new
unfolding new
new-IsTimed = record { connected_timed = λ e. cc; timed_established = λ h. absurd (h refl) }

-- A state whose entry leaves the time of connection to the inherited methods as it is.
abbrev pub IsTimeless : ConnectionState → Type 0
IsTimeless s = (s ≢ connected) × (s ≢ disconnected)

-- A call that leaves the entry of the states that set or drop the time to the methods that do so:
-- `transition` goes to neither of them, and `forceState` to closing or error.
abbrev pub IsOrderly : Call → Type 0
IsOrderly (transition target reason) = IsTimeless target
IsOrderly (force_state state reason) = (state ≡ closing) ⊎ (state ≡ error)
IsOrderly call = Unit

transition-IsTimed :
    (target : ConnectionState) (reason : Option String) (c : ConnectionStateMachine)
    → IsTimeless target
    → IsTimed c
    → IsTimed (step (transition target reason) c).0
unfolding step
transition-IsTimed disconnected reason c (a, b) h = absurd (b refl)
transition-IsTimed connected reason c (a, b) h = absurd (a refl)
transition-IsTimed target reason c o h = grind arith

force-IsTimed :
    (state : ConnectionState) (reason : Option String) (c : ConnectionStateMachine)
    → (state ≡ closing) ⊎ (state ≡ error)
    → IsTimed (step (force_state state reason) c).0
unfolding step
force-IsTimed state reason c (inl e) = record {
  connected_timed = λ e'. absurd (grind arith);
  timed_established = λ t. inr (inl e);
}
force-IsTimed state reason c (inr e) = record {
  connected_timed = λ e'. absurd (grind arith);
  timed_established = λ t. inr (inr e);
}

step-IsTimed :
    (call : Call) (c : ConnectionStateMachine)
    → IsOrderly call
    → IsTimed c
    → IsTimed (step call c).0
unfolding step
step-IsTimed start_connecting c o h = grind arith
step-IsTimed (transition target reason) c o h = transition-IsTimed target reason c o h
step-IsTimed (force_state state reason) c o h = force-IsTimed state reason c o
step-IsTimed (subscribe handler) c o h = record {
  connected_timed = h.connected_timed;
  timed_established = h.timed_established;
}
step-IsTimed (unsubscribe handler) c o h = record {
  connected_timed = h.connected_timed;
  timed_established = h.timed_established;
}
step-IsTimed remove_handlers c o h = record {
  connected_timed = h.connected_timed;
  timed_established = h.timed_established;
}
step-IsTimed call c o h = grind arith

-- Any sequence of methods, among which `transition` is not called for connected or disconnected and
-- `forceState` only for closing or error, keeps the time of connection in step with the state, where it
-- was so before: it is there while connected, and only while connected, closing or in error.
pub run-IsTimed :
    (calls : List Call) (c : ConnectionStateMachine)
    → All IsOrderly calls
    → IsTimed c
    → IsTimed (run calls c)
unfolding run
run-IsTimed [] c o h = h
run-IsTimed (call ∷ calls) c (o, os) h =
    run-IsTimed calls (step call c).0 os (step-IsTimed call c o h)

-- A connection becomes usable, under calls that leave this to `setConnected`, only by it after the setup
-- was sent.
pub connected_after_setup :
    (call : Call) (c : ConnectionStateMachine)
    → IsOrderly call
    → (step call c).0.base.state ≡ connected
    → (c.base.state ≡ connected)
      ⊎ ((c.base.state ≡ setup_sent) × (now : ℕ) × (call ≡ set_connected now))
unfolding step
connected_after_setup (set_connected now) c o h = elim (Bool-cases (step (set_connected now) c).1) [
  | inl took ↦ inr (ground arith, now, refl)
  | inr refused ↦ inl (ground arith)
]
connected_after_setup (transition connected reason) c (a, b) h = absurd (a refl)
connected_after_setup (force_state state reason) c o h = absurd (grind arith)
connected_after_setup (subscribe handler) c o h = inl h
connected_after_setup (unsubscribe handler) c o h = inl h
connected_after_setup remove_handlers c o h = inl h
connected_after_setup call c o h = ground arith
