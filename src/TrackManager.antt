-- ===== src/TrackManager.antt =====
-- class TrackManager of packages/core/src/track/track-manager.ts: the tracks that are published and those
-- that are subscribed, each in maps to the same objects, and the announcements. Its errors are values,
-- `Date.now()` is an argument, and an event handler is a number.
pub mod Names
pub mod Paired
pub mod Published
pub mod Subscribed
pub mod Announced
pub mod Consistent
pub mod Kept
pub mod Changed
pub mod Reachable
pub mod Counters
pub mod Lookups
pub mod Stale
mod Runs
use Prim.Native.String.{String}
use moq_web.Base.{ℕ, List, [], ◌∷◌, ◌++◌, map, Option, ◌==◌, if◌then◌else◌}
use moq_web.StateMachines.{remove_first}
use moq_web.StateMachines.Subscription.{SubscriptionStateMachine}
use moq_web.StateMachines.Announcement.{AnnouncementStateMachine}
use moq_web.TrackManager.Names.{Text, FullTrackName}

pub data DeliveryMode : Type 0 where
  stream datagram : DeliveryMode

-- interface PublishedTrackConfig
pub record PublishedTrackConfig : Type 0 where
  pub full_track_name : FullTrackName
  pub delivery_mode : Option DeliveryMode
  pub priority : Option ℕ

-- interface PublishedTrack, without the announcement, which the manager neither sets nor reads.
pub record PublishedTrack : Type 0 where
  pub key : Text
  pub full_track_name : FullTrackName
  pub track_alias : ℕ
  pub delivery_mode : DeliveryMode
  pub priority : ℕ
  pub current_group_id : ℕ
  pub current_object_id : ℕ
  pub total_objects : ℕ
  pub subscribers : List ℕ
  pub created_at : ℕ

-- interface SubscriptionConfig; the group order and the filter type are the numbers of their enums.
pub record SubscriptionConfig : Type 0 where
  pub full_track_name : FullTrackName
  pub priority : Option ℕ
  pub group_order : Option ℕ
  pub filter_type : Option ℕ
  pub start_group : Option ℕ
  pub start_object : Option ℕ
  pub end_group : Option ℕ
  pub end_object : Option ℕ

-- interface SubscribedTrack
pub record SubscribedTrack : Type 0 where
  pub key : Text
  pub full_track_name : FullTrackName
  pub subscribe_id : ℕ
  pub track_alias : Option ℕ
  pub config : SubscriptionConfig
  pub state : SubscriptionStateMachine
  pub last_group_id : ℕ
  pub last_object_id : ℕ
  pub total_objects : ℕ
  pub created_at : ℕ

-- type TrackManagerEvent; a track is told by its reference.
pub data TrackManagerEvent : Type 0 where
  track_published track_unpublished : ℕ → TrackManagerEvent
  subscription_created subscription_active : ℕ → TrackManagerEvent
  subscription_ended : ℕ → Option String → TrackManagerEvent
  subscription_error : ℕ → String → TrackManagerEvent
  announcement_active : List Text → TrackManagerEvent
  announcement_error : List Text → String → TrackManagerEvent
  subscriber_added subscriber_removed : ℕ → ℕ → TrackManagerEvent

pub data TrackManagerError : Type 0 where
  track_exists track_not_found already_subscribed : TrackManagerError

-- The objects by their references, of which those below `objects` are in use, and the maps to the
-- references.
pub record TrackManager : Type 0 where
  pub published : ℕ → PublishedTrack
  pub subscribed : ℕ → SubscribedTrack
  pub announced : ℕ → AnnouncementStateMachine Text
  pub objects : ℕ
  pub published_tracks : List (Text × ℕ)
  pub published_tracks_by_alias : List (ℕ × ℕ)
  pub subscribed_tracks : List (Text × ℕ)
  pub subscribed_tracks_by_subscribe_id : List (ℕ × ℕ)
  pub subscribed_tracks_by_alias : List (ℕ × ℕ)
  pub announcements : List (Text × ℕ)
  pub handlers : List ℕ
  pub next_subscribe_id : ℕ
  pub next_track_alias : ℕ

-- What the handlers are told, in order.
abbrev pub Told : Type 0
Told = List (ℕ × TrackManagerEvent)

-- The store after an object is replaced.
unfoldable pub update {ℓ} : {A : Type ℓ} → ℕ → A → (ℕ → A) → ℕ → A
update ref a store r = if r == ref then a else store r

-- `on`
unfoldable pub on : ℕ → TrackManager → TrackManager
on handler s = record s { handlers = s.handlers ++ handler ∷ [] }

-- The function that `on` returns.
unfoldable pub unsubscribe : ℕ → TrackManager → TrackManager
unfolding remove_first
unsubscribe handler s = record s { handlers = remove_first handler s.handlers }

-- A handler's own errors are caught and logged.
unfoldable pub emit : TrackManagerEvent → TrackManager → Told
emit event s = map (λ (handler : ℕ). (handler, event)) s.handlers

unfoldable pub clear : TrackManager → TrackManager
clear s = record s {
  published_tracks = [];
  published_tracks_by_alias = [];
  subscribed_tracks = [];
  subscribed_tracks_by_subscribe_id = [];
  subscribed_tracks_by_alias = [];
  announcements = [];
  next_subscribe_id = 1;
  next_track_alias = 1;
}
