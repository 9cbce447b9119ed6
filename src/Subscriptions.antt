-- ===== src/Subscriptions.antt =====
-- class SubscriptionManager of packages/session/src/subscription-manager.ts: four maps to the same
-- subscription objects, one of them from the track aliases, which change.
pub mod Consistent
pub mod Operations
pub mod Removed
pub mod Reachable
mod Runs
use moq_web.Base.{
  ℕ, ◌==◌, List, [], ◌∷◌, ◌++◌, map, length, Bool, true, false, not, Option, none, some,
  if◌then◌else◌,
}
use moq_web.Base.Maps.{Keys, get, set, delete, keep, by_number}

-- What the manager reads and writes of an InternalSubscription; the full track name (namespace and
-- name, whose JSON text is the key) is any type with an equality.
pub record Subscription (TrackName : Type 0) : Type 0 where
  pub subscription_id : ℕ
  pub request_id : ℕ
  pub track_name : TrackName
  pub track_alias : Option ℕ

-- The subscription objects by their references, and the maps to the references.
pub record Manager (TrackName : Type 0) : Type 0 where
  pub object : ℕ → Subscription TrackName
  pub subscriptions : List (ℕ × ℕ)
  pub by_alias : List (ℕ × ℕ)
  pub by_request_id : List (ℕ × ℕ)
  pub by_track_name : List (TrackName × ℕ)

module _ {TrackName : Type 0} where
  -- The object after `sub.trackAlias = alias`.
  unfoldable pub with_alias : ℕ → ℕ → (ℕ → Subscription TrackName) → ℕ → Subscription TrackName
  with_alias ref alias object r =
      if r == ref then record (object r) { track_alias = some alias } else object r

  unfoldable pub get_subscription : ℕ → Manager TrackName → Option ℕ
  get_subscription id s = get by_number id s.subscriptions

  unfoldable pub get_by_alias : ℕ → Manager TrackName → Option ℕ
  get_by_alias alias s = get by_number alias s.by_alias

  unfoldable pub find_by_request_id : ℕ → Manager TrackName → Option ℕ
  find_by_request_id request_id s = get by_number request_id s.by_request_id

  unfoldable pub size : Manager TrackName → ℕ
  size s = length s.subscriptions

  unfoldable pub get_all : Manager TrackName → List ℕ
  get_all s = map (λ (e : ℕ × ℕ). e.1) s.subscriptions

  unfoldable pub get_known_aliases : Manager TrackName → List ℕ
  get_known_aliases s = map (λ (e : ℕ × ℕ). e.0) s.by_alias

  unfoldable pub clear : Manager TrackName → Manager TrackName
  clear s = record s { subscriptions = []; by_alias = []; by_request_id = []; by_track_name = [] }

  -- Whether an alias is taken by another subscription.
  unfoldable pub collides : ℕ → ℕ → Manager TrackName → Bool
  collides alias ref s = elim (get by_number alias s.by_alias) [
    | none ↦ false
    | some r ↦ not ((s.object r).subscription_id == (s.object ref).subscription_id)
  ]

  unfoldable pub safe_register_alias : ℕ → ℕ → Manager TrackName → Manager TrackName × Bool
  safe_register_alias alias ref s =
      if collides alias ref s
      then (s, false)
      else (record s { by_alias = set by_number alias ref s.by_alias }, true)

  -- `safeRegisterAlias`, where there is an alias.
  unfoldable pub register_optional : Option ℕ → ℕ → Manager TrackName → Manager TrackName
  register_optional none ref s = s
  register_optional (some alias) ref s = (safe_register_alias alias ref s).0

  unfoldable pub update_track_alias : ℕ → ℕ → Manager TrackName → Manager TrackName
  update_track_alias id server_alias s = elim (get by_number id s.subscriptions) [
    | none ↦ s
    | some ref ↦
        (let original = (s.object ref).track_alias in
          let s' : Manager TrackName = record s {
            object = with_alias ref server_alias s.object;
            by_alias = set by_number server_alias ref s.by_alias;
          } in
          elim original [
            | none ↦ s'
            | some alias ↦
                if alias == server_alias then s' else (safe_register_alias alias ref s').0
          ])
  ]

  -- `getAllByAlias`: the subscriptions whose own alias it is.
  unfoldable pub has_alias : ℕ → Manager TrackName → ℕ → Bool
  has_alias alias s ref = elim (s.object ref).track_alias [ none ↦ false | some a ↦ a == alias ]

  unfoldable pub get_all_by_alias : ℕ → Manager TrackName → List ℕ
  get_all_by_alias alias s = map (λ (e : ℕ × ℕ). e.1) (keep (has_alias alias s) s.subscriptions)

  -- `delete` of the request's entry, where it is that of this subscription.
  unfoldable pub delete_request : ℕ → ℕ → Manager TrackName → List (ℕ × ℕ)
  delete_request id request_id s = elim (get by_number request_id s.by_request_id) [
    | none ↦ s.by_request_id
    | some r ↦
        if (s.object r).subscription_id == id
        then delete by_number request_id s.by_request_id
        else s.by_request_id
  ]

-- The operations that use a track name as a key.
module _ {TrackName : Type 0} (track_names : Keys TrackName) where
  unfoldable pub get_by_track_name : TrackName → Manager TrackName → Option ℕ
  get_by_track_name name s = get track_names name s.by_track_name

  -- `add` of the object at `ref`.
  unfoldable pub add : ℕ → Manager TrackName → Manager TrackName
  add ref s =
      let sub = s.object ref in
      let s' : Manager TrackName = record s {
        subscriptions = set by_number sub.subscription_id ref s.subscriptions;
        by_track_name = set track_names sub.track_name ref s.by_track_name;
      } in
      let s'' = register_optional sub.track_alias ref s' in
      record s'' { by_request_id = set by_number sub.request_id ref s''.by_request_id }

  unfoldable pub remove : ℕ → Manager TrackName → Manager TrackName × Option ℕ
  remove id s = elim (get by_number id s.subscriptions) [
    | none ↦ (s, none)
    | some ref ↦
        (let sub = s.object ref in
          (
            record s {
              subscriptions = delete by_number id s.subscriptions;
              by_track_name = delete track_names sub.track_name s.by_track_name;
              by_alias = keep (λ r. not ((s.object r).subscription_id == id)) s.by_alias;
              by_request_id = delete_request id sub.request_id s;
            },
            some ref,
          ))
  ]
