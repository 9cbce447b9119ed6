-- ===== src/Subscriptions/Reachable.antt =====
-- SubscriptionManager over any sequence of its operations.
use moq_web.Base.{arith, ℕ, ◌≡◌, [], none}
use moq_web.Base.Maps.{Keys, get}
use moq_web.Subscriptions.{
  Subscription, Manager, get_subscription, update_track_alias, add, remove, clear,
}
use moq_web.Subscriptions.Consistent.{IsConsistent}
use moq_web.Subscriptions.Operations.{update_track_alias-IsConsistent, add-IsConsistent}
use moq_web.Subscriptions.Removed.{remove-IsConsistent}

-- What a new manager comes to by its operations; a subscription is added under an ID that is not in
-- use, as the session numbers them.
pub data Reachable {TrackName : Type 0} (track_names : Keys TrackName)
    : Manager TrackName → Type 0 where
  starts :
      (object : ℕ → Subscription TrackName)
      → Reachable track_names (record {
        object = object;
        subscriptions = [];
        by_alias = [];
        by_request_id = [];
        by_track_name = [];
      })
  adds :
      (s : Manager TrackName) (ref : ℕ)
      → Reachable track_names s
      → get_subscription (s.object ref).subscription_id s ≡ none
      → Reachable track_names (add track_names ref s)
  updates :
      (s : Manager TrackName) (id alias : ℕ)
      → Reachable track_names s
      → Reachable track_names (update_track_alias id alias s)
  removes :
      (s : Manager TrackName) (id : ℕ)
      → Reachable track_names s
      → Reachable track_names (remove track_names id s).0
  clears : (s : Manager TrackName) → Reachable track_names s → Reachable track_names (clear s)

-- Whatever the operations on a new manager, when subscriptions are added under IDs that are not in
-- use, the four maps agree: each entry leads to a subscription that is listed under its own ID, and
-- the entries by ID, request ID and track name to one with that ID, request ID and name.
pub Reachable-IsConsistent :
    {TrackName : Type 0} (track_names : Keys TrackName) (s : Manager TrackName)
    → Reachable track_names s
    → IsConsistent s
unfolding clear get
Reachable-IsConsistent track_names s (starts object) = (tt, tt, λ q r e. absurd (ground arith), tt)
Reachable-IsConsistent track_names s (adds s' ref before fresh) =
    add-IsConsistent track_names ref s' fresh (Reachable-IsConsistent track_names s' before)
Reachable-IsConsistent track_names s (updates s' id alias before) =
    update_track_alias-IsConsistent id alias s' (Reachable-IsConsistent track_names s' before)
Reachable-IsConsistent track_names s (removes s' id before) =
    remove-IsConsistent track_names id s' (Reachable-IsConsistent track_names s' before)
Reachable-IsConsistent track_names s (clears s' before) =
    (tt, tt, λ q r e. absurd (ground arith), tt)
