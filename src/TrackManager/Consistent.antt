-- ===== src/TrackManager/Consistent.antt =====
-- TrackManager over any sequence of its methods: the maps to its tracks stay in step.
use Prim.Native.String.{String}
use moq_web.Base.{ℕ, List, [], ◌∷◌, Bool, Option, Result, ok, err}
use moq_web.StateMachines.Announcement
use moq_web.StateMachines.Announcement.{AnnouncementStateMachine}
use moq_web.TrackManager
use moq_web.TrackManager.{
  PublishedTrackConfig, PublishedTrack, SubscriptionConfig, SubscribedTrack, TrackManager,
  TrackManagerError, update,
}
use moq_web.TrackManager.Names.{Text}
use moq_web.TrackManager.Paired.{Labels, IsPaired}
use moq_web.TrackManager.Published
use moq_web.TrackManager.Subscribed
use moq_web.TrackManager.Announced

-- The calls of the methods that change the state, and of those of an announcement that was given out.
pub data Call : Type 0 where
  create_published_track : PublishedTrackConfig → ℕ → Call
  remove_published_track : Text → Call
  record_published_object : Text → Bool → Call
  add_subscriber remove_subscriber : Text → ℕ → Call
  create_subscription : SubscriptionConfig → ℕ → Call
  set_subscription_active : ℕ → ℕ → ℕ → ℕ → Call
  set_subscription_error : ℕ → ℕ → String → Call
  set_subscription_ended : ℕ → Option String → Call
  remove_subscription : Text → Call
  record_received_object : ℕ → ℕ → ℕ → Call
  create_announcement remove_announcement : List Text → Call
  move_announcement : ℕ → (AnnouncementStateMachine Text → Announcement.Result Text) → Call
  on unsubscribe : ℕ → Call
  clear : Call

-- What a method that may throw leaves; one that throws has changed nothing.
abbrev pub left {ℓ} :
    {A : Type ℓ} → (A → TrackManager) → Result TrackManagerError A → TrackManager → TrackManager
left state (ok a) s = state a
left state (err e) s = s

unfoldable pub step : Call → TrackManager → TrackManager
step (create_published_track config now) s =
    left (λ r. r.1) (Published.create_published_track config now s) s
step (remove_published_track key) s = (Published.remove_published_track key s).1
step (record_published_object key is_keyframe) s =
    left (λ r. r.1) (Published.record_published_object key is_keyframe s) s
step (add_subscriber key id) s = left (λ r. r.0) (Published.add_subscriber key id s) s
step (remove_subscriber key id) s = (Published.remove_subscriber key id s).0
step (create_subscription config now) s =
    left (λ r. r.1) (Subscribed.create_subscription config now s) s
step (set_subscription_active id alias group_order now) s =
    (Subscribed.set_subscription_active id alias group_order now s).0
step (set_subscription_error id error_code reason) s =
    (Subscribed.set_subscription_error id error_code reason s).0
step (set_subscription_ended id reason) s = (Subscribed.set_subscription_ended id reason s).0
step (remove_subscription key) s = (Subscribed.remove_subscription key s).1
step (record_received_object id group object) s =
    Subscribed.record_received_object id group object s
step (create_announcement namespace) s = (Announced.create_announcement namespace s).1
step (remove_announcement namespace) s = (Announced.remove_announcement namespace s).1
step (move_announcement ref method) s = (Announced.move_announcement ref method s).0
step (on handler) s = TrackManager.on handler s
step (unsubscribe handler) s = TrackManager.unsubscribe handler s
step clear s = TrackManager.clear s

unfoldable pub run : List Call → TrackManager → TrackManager
unfolding step
run [] s = s
run (call ∷ calls) s = run calls (step call s)

abbrev pub published_labels : (ℕ → PublishedTrack) → Labels
published_labels published = record {
  key = λ r. (published r).key;
  number = λ r. (published r).track_alias;
}

abbrev pub subscribed_labels : (ℕ → SubscribedTrack) → Labels
subscribed_labels subscribed = record {
  key = λ r. (subscribed r).key;
  number = λ r. (subscribed r).subscribe_id;
}

-- The maps of the published tracks by key and by alias are in step, and so are those of the subscriptions
-- by key and by ID: each entry leads to a track with that key, alias or ID, and the other map leads to the
-- same track by what the track has.
pub record IsConsistent (s : TrackManager) : Type 0 where
  pub published_paired :
      IsPaired
        (published_labels s.published)
        s.objects
        s.next_track_alias
        s.published_tracks
        s.published_tracks_by_alias
  pub subscribed_paired :
      IsPaired
        (subscribed_labels s.subscribed)
        s.objects
        s.next_subscribe_id
        s.subscribed_tracks
        s.subscribed_tracks_by_subscribe_id
