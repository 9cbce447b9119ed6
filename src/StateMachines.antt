-- ===== src/StateMachines.antt =====
-- class StateMachine of packages/core/src/connection/state-machine.ts, over any type of states with its
-- table of transitions. A handler is a number; what a call tells the handlers is a list of notices, in
-- the order of the calls. A handler's own errors are caught and logged; handlers make no calls on the
-- machine that tells them.
mod Runs
pub mod Connection
pub mod Subscription
pub mod Announcement
pub mod NamespaceSubscription
pub mod ConnectionLaws
pub mod ConnectionEdges
pub mod SubscriptionLaws
pub mod HandlerLaws
use Prim.Native.String.{String}
use moq_web.Base.{
  ℕ, Bool, true, false, List, [], ◌∷◌, ◌++◌, map, Option, none, some, ◌==◌, ◌||◌, if◌then◌else◌,
}

pub record Notice (S : Type 0) : Type 0 where
  pub handler : ℕ
  pub new_state : S
  pub previous_state : S
  pub reason : Option String

pub record StateMachine (S : Type 0) : Type 0 where
  pub state : S
  pub handlers : List ℕ

-- What a call leaves: the machine, the result, and the handlers told.
abbrev pub Outcome : Type 0 → Type 0 → Type 0
Outcome M S = M × Bool × List (Notice S)

-- `handlers.splice(handlers.indexOf(handler), 1)`, where it is there.
unfoldable pub remove_first : ℕ → List ℕ → List ℕ
remove_first handler [] = []
remove_first handler (h ∷ hs) = if h == handler then hs else h ∷ remove_first handler hs

module _ {S : Type 0} where
  abbrev pub notices : List ℕ → S → S → Option String → List (Notice S)
  notices [] new previous reason = []
  notices (h ∷ hs) new previous reason =
      record { handler = h; new_state = new; previous_state = previous; reason = reason }
      ∷ notices hs new previous reason

  -- `on`
  unfoldable pub on : ℕ → StateMachine S → StateMachine S
  on handler m = record m { handlers = m.handlers ++ handler ∷ [] }

  -- The function that `on` returns.
  unfoldable pub unsubscribe : ℕ → StateMachine S → StateMachine S
  unfolding remove_first
  unsubscribe handler m = record m { handlers = remove_first handler m.handlers }

  unfoldable pub remove_all_handlers : StateMachine S → StateMachine S
  remove_all_handlers m = record m { handlers = [] }

  unfoldable pub force_state : S → Option String → StateMachine S → StateMachine S × List (Notice S)
  force_state state reason m = (record m { state = state }, notices m.handlers state m.state reason)

module _ {S : Type 0} (same : S → S → Bool) where
  unfoldable pub includes : List S → S → Bool
  includes [] s = false
  includes (t ∷ ts) s = same t s || includes ts s

module _ {S : Type 0} (same : S → S → Bool) (transitions : S → List S) where
  unfoldable pub can_transition : S → StateMachine S → Bool
  unfolding includes
  can_transition target m = includes same (transitions m.state) target

  unfoldable pub transition : S → Option String → StateMachine S → Outcome (StateMachine S) S
  unfolding can_transition
  transition target reason m =
      if can_transition target m
      then (record m { state = target }, true, notices m.handlers target m.state reason)
      else (m, false, [])
