-- ===== src/TrackManager/Subscribed.antt =====
-- The subscriptions of TrackManager. Its machines have one handler, the manager's own, and only the
-- manager moves them.
use Prim.Native.String.{String}
use moq_web.Base.{
  ℕ, suc, ◌+◌, List, [], ◌∷◌, ◌++◌, map, Bool, true, false, Option, none, some, Result, ok, err,
  if◌then◌else◌,
}
use moq_web.Base.Maps.{get, has, set, delete, by_number}
use moq_web.StateMachines.{Notice}
use moq_web.StateMachines
use moq_web.StateMachines.Subscription.{
  SubscriptionState, pending, active, ended, error, SubscriptionStateMachine,
}
use moq_web.StateMachines.Subscription
use moq_web.Draft18.Subgroup.{or_else}
use moq_web.TrackManager.{
  SubscriptionConfig, SubscribedTrack, subscription_created, subscription_active,
  subscription_ended, subscription_error, TrackManagerError, already_subscribed, TrackManager, Told,
  update, emit,
}
use moq_web.TrackManager.Names.{Text, by_text, track_name_to_key, namespace_matches_prefix}

-- `GroupOrder.ASCENDING` and `FilterType.LATEST_GROUP`
abbrev pub ascending : ℕ
ascending = 1

abbrev pub latest_group : ℕ
latest_group = 1

-- The number of the manager's handler on a machine.
abbrev pub own_handler : ℕ
own_handler = 0

unfoldable pub new_machine : ℕ → SubscriptionStateMachine
unfolding Subscription.new StateMachines.on
new_machine id =
    let machine = Subscription.new id in
    record machine { base = StateMachines.on own_handler machine.base }

-- The track that createSubscription makes.
unfoldable pub new_subscribed : SubscriptionConfig → ℕ → ℕ → SubscribedTrack
unfolding new_machine
new_subscribed config id now = record {
  key = track_name_to_key config.full_track_name;
  full_track_name = config.full_track_name;
  subscribe_id = id;
  track_alias = none;
  config = record config {
    priority = some (or_else config.priority 128);
    group_order = some (or_else config.group_order ascending);
    filter_type = some (or_else config.filter_type latest_group);
  };
  state = new_machine id;
  last_group_id = 0;
  last_object_id = 0;
  total_objects = 0;
  created_at = now;
}

unfoldable pub create_subscription :
    SubscriptionConfig → ℕ → TrackManager → Result TrackManagerError (ℕ × TrackManager × Told)
unfolding new_subscribed emit
create_subscription config now s =
    let key = track_name_to_key config.full_track_name in
    let ref = s.objects in
    let s' : TrackManager = record s {
      subscribed = update ref (new_subscribed config s.next_subscribe_id now) s.subscribed;
      objects = suc s.objects;
      subscribed_tracks = set by_text key ref s.subscribed_tracks;
      subscribed_tracks_by_subscribe_id =
          set by_number s.next_subscribe_id ref s.subscribed_tracks_by_subscribe_id;
      next_subscribe_id = suc s.next_subscribe_id;
    } in
    if has by_text key s.subscribed_tracks
    then err already_subscribed
    else ok (ref, s', emit (subscription_created ref) s')

unfoldable pub get_subscription : Text → TrackManager → Option ℕ
get_subscription key s = get by_text key s.subscribed_tracks

unfoldable pub get_subscription_by_id : ℕ → TrackManager → Option ℕ
get_subscription_by_id id s = get by_number id s.subscribed_tracks_by_subscribe_id

unfoldable pub get_subscription_by_alias : ℕ → TrackManager → Option ℕ
get_subscription_by_alias alias s = get by_number alias s.subscribed_tracks_by_alias

unfoldable pub get_all_subscriptions : TrackManager → List ℕ
get_all_subscriptions s = map (λ (e : Text × ℕ). e.1) s.subscribed_tracks

-- The manager's handler on the machine of a track.
unfoldable pub on_state_change : ℕ → TrackManager → List (Notice SubscriptionState) → Told
unfolding emit
on_state_change ref s [] = []
on_state_change ref s (notice ∷ notices) =
    elim notice.new_state [
      | pending ↦ []
      | active ↦ emit (subscription_active ref) s
      | ended ↦ emit (subscription_ended ref notice.reason) s
      | error ↦ emit (subscription_error ref (or_else notice.reason "Unknown error")) s
    ]
    ++ on_state_change ref s notices

unfoldable pub set_subscription_active : ℕ → ℕ → ℕ → ℕ → TrackManager → TrackManager × Told
unfolding on_state_change Subscription.set_active
set_subscription_active id alias group_order now s =
    elim (get by_number id s.subscribed_tracks_by_subscribe_id) [
      | none ↦ (s, [])
      | some ref ↦
          (let track = s.subscribed ref in
            let (machine, success, notices) =
              Subscription.set_active (some alias) (some group_order) now track.state in
            let s' : TrackManager = record s {
              subscribed =
                  update ref (record track { track_alias = some alias; state = machine })
                    s.subscribed;
              subscribed_tracks_by_alias = set by_number alias ref s.subscribed_tracks_by_alias;
            } in
            (s', on_state_change ref s' notices))
    ]

unfoldable pub set_subscription_error : ℕ → ℕ → String → TrackManager → TrackManager × Told
unfolding on_state_change Subscription.set_error
set_subscription_error id error_code reason s =
    elim (get by_number id s.subscribed_tracks_by_subscribe_id) [
      | none ↦ (s, [])
      | some ref ↦
          (let track = s.subscribed ref in
            let (machine, success, notices) =
              Subscription.set_error error_code reason track.state in
            let s' : TrackManager = record s {
              subscribed = update ref (record track { state = machine }) s.subscribed;
            } in
            (s', on_state_change ref s' notices))
    ]

unfoldable pub set_subscription_ended : ℕ → Option String → TrackManager → TrackManager × Told
unfolding on_state_change Subscription.set_ended
set_subscription_ended id reason s = elim (get by_number id s.subscribed_tracks_by_subscribe_id) [
  | none ↦ (s, [])
  | some ref ↦
      (let track = s.subscribed ref in
        let (machine, success, notices) = Subscription.set_ended reason track.state in
        let s' : TrackManager = record s {
          subscribed = update ref (record track { state = machine }) s.subscribed;
        } in
        (s', on_state_change ref s' notices))
]

-- The entry of the alias goes, where the track has one.
unfoldable pub forget_alias : Option ℕ → List (ℕ × ℕ) → List (ℕ × ℕ)
forget_alias none by_alias = by_alias
forget_alias (some alias) by_alias = delete by_number alias by_alias

unfoldable pub remove_subscription : Text → TrackManager → Bool × TrackManager
unfolding forget_alias
remove_subscription key s = elim (get by_text key s.subscribed_tracks) [
  | none ↦ (false, s)
  | some ref ↦ (
    true,
    record s {
      subscribed_tracks = delete by_text key s.subscribed_tracks;
      subscribed_tracks_by_subscribe_id =
          delete by_number (s.subscribed ref).subscribe_id s.subscribed_tracks_by_subscribe_id;
      subscribed_tracks_by_alias =
          forget_alias (s.subscribed ref).track_alias s.subscribed_tracks_by_alias;
    },
  )
]

unfoldable pub record_received_object : ℕ → ℕ → ℕ → TrackManager → TrackManager
record_received_object id group object s =
    elim (get by_number id s.subscribed_tracks_by_subscribe_id) [
      | none ↦ s
      | some ref ↦
          (let track = s.subscribed ref in
            record s {
              subscribed =
                  update ref
                    (record track {
                      last_group_id = group;
                      last_object_id = object;
                      total_objects = track.total_objects + 1;
                    })
                    s.subscribed;
            })
    ]

-- `filter` of the subscriptions whose namespace has the prefix.
unfoldable pub subscribed_under : List Text → (ℕ → SubscribedTrack) → List ℕ → List ℕ
subscribed_under prefix subscribed [] = []
subscribed_under prefix subscribed (ref ∷ refs) =
    let rest = subscribed_under prefix subscribed refs in
    if namespace_matches_prefix (subscribed ref).full_track_name.namespace prefix
    then ref ∷ rest
    else rest

unfoldable pub get_subscriptions_in_namespace : List Text → TrackManager → List ℕ
unfolding get_all_subscriptions subscribed_under
get_subscriptions_in_namespace prefix s =
    subscribed_under prefix s.subscribed (get_all_subscriptions s)
