-- ===== src/TrackManager/Announced.antt =====
-- The announcements of TrackManager, its tracks of a namespace, and its statistics. The machine of an
-- announcement is moved by who asked for it, and its one handler is the manager's own.
use moq_web.Base.{ℕ, suc, ◌+◌, List, [], ◌∷◌, ◌++◌, length, Bool, Option, none, some, if◌then◌else◌}
use moq_web.Base.Maps.{get, has, set, delete}
use moq_web.StateMachines
use moq_web.StateMachines.{Notice}
use moq_web.StateMachines.Announcement
use moq_web.StateMachines.Announcement.{
  AnnouncementState, pending, active, ended, error, AnnouncementStateMachine,
}
use moq_web.StateMachines.Subscription.{is_active}
use moq_web.Draft18.Subgroup.{or_else}
use moq_web.TrackManager.{
  SubscribedTrack, announcement_active, announcement_error, TrackManager, Told, update, emit,
}
use moq_web.TrackManager.Names.{Text, by_text, namespace_to_key}
use moq_web.TrackManager.Published.{get_all_published_tracks}
use moq_web.TrackManager.Subscribed.{own_handler, get_all_subscriptions}

unfoldable pub new_announcement : List Text → AnnouncementStateMachine Text
unfolding Announcement.new StateMachines.on
new_announcement namespace =
    let machine = Announcement.new namespace in
    record machine { base = StateMachines.on own_handler machine.base }

-- The announcement of a namespace: the one that is there, or a new one.
unfoldable pub create_announcement : List Text → TrackManager → ℕ × TrackManager
unfolding new_announcement
create_announcement namespace s =
    let key = namespace_to_key namespace in
    elim (get by_text key s.announcements) [
      | some ref ↦ (ref, s)
      | none ↦ (
        s.objects,
        record s {
          announced = update s.objects (new_announcement namespace) s.announced;
          objects = suc s.objects;
          announcements = set by_text key s.objects s.announcements;
        },
      )
    ]

-- The manager's handler on the machine of an announcement.
unfoldable pub on_announcement_change :
    List Text → TrackManager → List (Notice AnnouncementState) → Told
unfolding emit
on_announcement_change namespace s [] = []
on_announcement_change namespace s (notice ∷ notices) =
    elim notice.new_state [
      | pending ↦ []
      | active ↦ emit (announcement_active namespace) s
      | ended ↦ []
      | error ↦ emit (announcement_error namespace (or_else notice.reason "Unknown error")) s
    ]
    ++ on_announcement_change namespace s notices

-- A method called on the machine of an announcement.
unfoldable pub move_announcement :
    ℕ
    → (AnnouncementStateMachine Text → Announcement.Result Text)
    → TrackManager
    → TrackManager × Told
unfolding on_announcement_change
move_announcement ref method s =
    let (machine, success, notices) = method (s.announced ref) in
    let s' : TrackManager = record s { announced = update ref machine s.announced } in
    (s', on_announcement_change (s.announced ref).namespace s' notices)

unfoldable pub get_announcement : List Text → TrackManager → Option ℕ
get_announcement namespace s = get by_text (namespace_to_key namespace) s.announcements

unfoldable pub remove_announcement : List Text → TrackManager → Bool × TrackManager
remove_announcement namespace s =
    let key = namespace_to_key namespace in
    (
      has by_text key s.announcements,
      record s { announcements = delete by_text key s.announcements },
    )

-- What getStats gives.
pub record TrackStats : Type 0 where
  pub published_count : ℕ
  pub subscribed_count : ℕ
  pub active_subscriptions : ℕ
  pub announcement_count : ℕ
  pub total_published_objects : ℕ
  pub total_received_objects : ℕ

unfoldable pub sum_of : (ℕ → ℕ) → List ℕ → ℕ
sum_of count [] = 0
sum_of count (ref ∷ refs) = count ref + sum_of count refs

unfoldable pub count_active : (ℕ → SubscribedTrack) → List ℕ → ℕ
unfolding is_active
count_active subscribed [] = 0
count_active subscribed (ref ∷ refs) =
    let rest = count_active subscribed refs in
    if is_active (subscribed ref).state then suc rest else rest

unfoldable pub get_stats : TrackManager → TrackStats
unfolding get_all_published_tracks get_all_subscriptions sum_of count_active
get_stats s =
    let published = get_all_published_tracks s in
    let subscribed = get_all_subscriptions s in
    record {
      published_count = length published;
      subscribed_count = length subscribed;
      active_subscriptions = count_active s.subscribed subscribed;
      announcement_count = length s.announcements;
      total_published_objects = sum_of (λ (ref : ℕ). (s.published ref).total_objects) published;
      total_received_objects = sum_of (λ (ref : ℕ). (s.subscribed ref).total_objects) subscribed;
    }
