-- ===== src/StateMachines/ConnectionEdges.antt =====
-- The edges that a connection follows, and whom its methods tell.
use Prim.Native.String.{String}
use moq_web.Base.{
  ℕ, ◌≡◌, refl, ◌⊎◌, true, false, List, [], ◌∷◌, Option, none, some, arith, All, map, ap, subst,
  sym,
}
use moq_web.StateMachines.{Notice, notices}
use moq_web.StateMachines.Connection.{
  ConnectionState, disconnected, connecting, setup_sent, connected, closing, error,
  ConnectionStateMachine, new,
}
use moq_web.StateMachines.ConnectionLaws.{
  Call, start_connecting, send_setup, reset, set_connected, start_closing, set_disconnected,
  set_error, transition, force_state, subscribe, unsubscribe, remove_handlers, step,
}

-- The transition table as a relation.
infix 40 ◌⟶◌
pub data ◌⟶◌ : ConnectionState → ConnectionState → Type 0 where
  connect : disconnected ⟶ connecting
  offer : connecting ⟶ setup_sent
  accept : setup_sent ⟶ connected
  drain : connected ⟶ closing
  fail_connecting : connecting ⟶ error
  fail_setup : setup_sent ⟶ error
  fail_connected : connected ⟶ error
  fail_closing : closing ⟶ error
  drop_connecting : connecting ⟶ disconnected
  drop_setup : setup_sent ⟶ disconnected
  drop_connected : connected ⟶ disconnected
  drop_closing : closing ⟶ disconnected
  drop_error : error ⟶ disconnected

ruleset edges = (
  connect, offer, accept, drain, fail_connecting, fail_setup, fail_connected, fail_closing,
  drop_connecting, drop_setup, drop_connected, drop_closing, drop_error,
)

-- A method that tries a transition by the table.
abbrev pub IsTried : Call → Type 0
IsTried reset = ⊥
IsTried (force_state state reason) = ⊥
IsTried (subscribe handler) = ⊥
IsTried (unsubscribe handler) = ⊥
IsTried remove_handlers = ⊥
IsTried call = Unit

-- The reason that a method gives.
abbrev pub reason_of : Call → Option String
reason_of start_connecting = none
reason_of send_setup = none
reason_of (set_connected now) = none
reason_of (start_closing reason) = reason
reason_of (set_disconnected reason) = reason
reason_of (set_error message) = some message
reason_of (transition target reason) = reason
reason_of (force_state state reason) = reason
reason_of call = none

-- The handlers told, one after the other, each the same.
abbrev pub IsTold :
    List ℕ
    → ConnectionState
    → ConnectionState
    → Option String
    → List (Notice ConnectionState)
    → Type 0
IsTold handlers new previous reason told =
    (map (λ n. n.handler) told ≡ handlers)
    × All (λ n. (n.new_state ≡ new) × (n.previous_state ≡ previous) × (n.reason ≡ reason)) told

notices-IsTold :
    (handlers : List ℕ) (new previous : ConnectionState) (reason : Option String)
    → IsTold handlers new previous reason (notices handlers new previous reason)
notices-IsTold [] target previous reason = (refl, tt)
notices-IsTold (h ∷ hs) target previous reason =
    let (same, each) = notices-IsTold hs target previous reason in
    (ap (λ (t : List ℕ). h ∷ t) same, ((refl, refl, refl), each))

step-notices :
    (call : Call) (c : ConnectionStateMachine)
    → IsTried call
    → (step call c).1 ≡ true
    → (c.base.state ⟶ (step call c).0.base.state)
      × ((step call c).2
          ≡ notices c.base.handlers (step call c).0.base.state c.base.state (reason_of call))
unfolding step
step-notices start_connecting c n h = (grind (arith, edges), ground arith)
step-notices send_setup c n h = (grind (arith, edges), ground arith)
step-notices (set_connected now) c n h = (grind (arith, edges), ground arith)
step-notices (start_closing reason) c n h = (grind (arith, edges), ground arith)
step-notices (set_disconnected reason) c n h = (grind (arith, edges), ground arith)
step-notices (set_error message) c n h = (grind (arith, edges), ground arith)
step-notices (transition target reason) c n h = (grind (arith, edges), ground arith)
step-notices reset c n h = absurd n
step-notices (force_state state reason) c n h = absurd n
step-notices (subscribe handler) c n h = absurd n
step-notices (unsubscribe handler) c n h = absurd n
step-notices remove_handlers c n h = absurd n

-- A method that tries a transition, `transition` itself among them, and returns true follows an edge of
-- the table; it tells the handlers of before, each once and in the order of subscription, the new and
-- the old state and the reason that it was given.
pub step-⟶ :
    (call : Call) (c : ConnectionStateMachine)
    → IsTried call
    → (step call c).1 ≡ true
    → (c.base.state ⟶ (step call c).0.base.state)
      × IsTold c.base.handlers
          (step call c).0.base.state
          c.base.state
          (reason_of call)
          (step call c).2
unfolding step
step-⟶ call c n h =
    let (moved, told) = step-notices call c n h in
    (
      moved,
      subst (IsTold c.base.handlers (step call c).0.base.state c.base.state (reason_of call))
          (sym told)
          (notices-IsTold c.base.handlers (step call c).0.base.state c.base.state (reason_of call)),
    )

-- A method that returns false leaves the state, the handlers and the time of connection as they were,
-- and tells nobody.
pub step_refused :
    (call : Call) (c : ConnectionStateMachine)
    → (step call c).1 ≡ false
    → ((step call c).0.base ≡ c.base)
      × ((step call c).0.connected_at ≡ c.connected_at)
      × ((step call c).2 ≡ [])
unfolding step
step_refused start_connecting c h = ground arith
step_refused call c h = ground arith

-- A `setError` that is refused, before the connection or after an error, replaces the last error all
-- the same.
pub refused_error_kept :
    (message : String) (c : ConnectionStateMachine)
    → (c.base.state ≡ disconnected) ⊎ (c.base.state ≡ error)
    → ((step (set_error message) c).1 ≡ false)
      × ((step (set_error message) c).0.last_error ≡ some message)
unfolding step
refused_error_kept message c h = ground arith
