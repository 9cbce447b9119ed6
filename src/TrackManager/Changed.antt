-- ===== src/TrackManager/Changed.antt =====
-- The methods of TrackManager that change or remove tracks keep the maps to them in step.
use Prim.Native.String.{String}
use moq_web.Base.{ℕ, ◌≡◌, refl, Bool, true, false, Option, Option-cases, inl, inr, arith}
use moq_web.Base.Maps.{get, by_number}
use moq_web.TrackManager.{PublishedTrack, SubscribedTrack, TrackManager, update}
use moq_web.TrackManager.Names.{Text, by_text}
use moq_web.TrackManager.Paired.{IsPaired, relabel, remove_pair}
use moq_web.TrackManager.Published.{
  count_object, remove_published_track, record_published_object, add_subscriber, remove_subscriber,
}
use moq_web.TrackManager.Subscribed.{
  set_subscription_active, set_subscription_error, set_subscription_ended, remove_subscription,
  record_received_object,
}
use moq_web.TrackManager.Consistent.{left, published_labels, subscribed_labels, IsConsistent}
use moq_web.TrackManager.Kept.{update_same}

-- A published track replaced by one with its key and alias.
replace_published :
    (s : TrackManager) (ref : ℕ) (track : PublishedTrack)
    → track.key ≡ (s.published ref).key
    → track.track_alias ≡ (s.published ref).track_alias
    → IsConsistent s
    → IsConsistent (record s { published = update ref track s.published })
replace_published s ref track key alias h = record {
  published_paired =
      relabel (published_labels (update ref track s.published)) s.objects (omega arith)
        (λ r below. (
          update_same (λ (t : PublishedTrack). t.key) ref track s.published r key,
          update_same (λ (t : PublishedTrack). t.track_alias) ref track s.published r alias,
        ))
        h.published_paired;
  subscribed_paired = h.subscribed_paired;
}

-- A subscription replaced by one with its key and ID.
subscribed_replaced :
    (s : TrackManager) (ref : ℕ) (track : SubscribedTrack)
    → track.key ≡ (s.subscribed ref).key
    → track.subscribe_id ≡ (s.subscribed ref).subscribe_id
    → IsConsistent s
    → IsPaired
        (subscribed_labels (update ref track s.subscribed))
        s.objects
        s.next_subscribe_id
        s.subscribed_tracks
        s.subscribed_tracks_by_subscribe_id
subscribed_replaced s ref track key id h =
    relabel (subscribed_labels (update ref track s.subscribed)) s.objects (omega arith)
      (λ r below. (
        update_same (λ (t : SubscribedTrack). t.key) ref track s.subscribed r key,
        update_same (λ (t : SubscribedTrack). t.subscribe_id) ref track s.subscribed r id,
      ))
      h.subscribed_paired

pub remove_published_track-IsConsistent :
    (key : Text) (s : TrackManager) → IsConsistent s → IsConsistent (remove_published_track key s).1
unfolding remove_published_track
remove_published_track-IsConsistent key s h =
    elim (Option-cases (get by_text key s.published_tracks)) [
      | inl e ↦ rw (remove_published_track, e) h
      | inr (ref, e) ↦
          rw (remove_published_track, e)
            (record {
              published_paired = remove_pair key ref e h.published_paired;
              subscribed_paired = h.subscribed_paired;
            })
    ]

count_object-labels :
    (is_keyframe : Bool) (track : PublishedTrack)
    → ((count_object is_keyframe track).key ≡ track.key)
      × ((count_object is_keyframe track).track_alias ≡ track.track_alias)
unfolding count_object
count_object-labels true track = (refl, refl)
count_object-labels false track = (refl, refl)

pub record_published_object-IsConsistent :
    (key : Text) (is_keyframe : Bool) (s : TrackManager)
    → IsConsistent s
    → IsConsistent (left (λ r. r.1) (record_published_object key is_keyframe s) s)
unfolding record_published_object
record_published_object-IsConsistent key is_keyframe s h =
    elim (Option-cases (get by_text key s.published_tracks)) [
      | inl e ↦ rw (left, record_published_object, e) h
      | inr (ref, e) ↦
          (let (key_same, alias_same) = count_object-labels is_keyframe (s.published ref) in
            rw (left, record_published_object, e)
              (replace_published s ref (count_object is_keyframe (s.published ref)) key_same
                alias_same h))
    ]

pub add_subscriber-IsConsistent :
    (key : Text) (id : ℕ) (s : TrackManager)
    → IsConsistent s
    → IsConsistent (left (λ r. r.0) (add_subscriber key id s) s)
unfolding add_subscriber
add_subscriber-IsConsistent key id s h = elim (Option-cases (get by_text key s.published_tracks)) [
  | inl e ↦ rw (left, add_subscriber, e) h
  | inr (ref, e) ↦ rw (left, add_subscriber, e) (replace_published s ref _ refl refl h)
]

pub remove_subscriber-IsConsistent :
    (key : Text) (id : ℕ) (s : TrackManager)
    → IsConsistent s
    → IsConsistent (remove_subscriber key id s).0
unfolding remove_subscriber
remove_subscriber-IsConsistent key id s h =
    elim (Option-cases (get by_text key s.published_tracks)) [
      | inl e ↦ rw (remove_subscriber, e) h
      | inr (ref, e) ↦ rw (remove_subscriber, e) (replace_published s ref _ refl refl h)
    ]

pub set_subscription_active-IsConsistent :
    (id alias group_order now : ℕ) (s : TrackManager)
    → IsConsistent s
    → IsConsistent (set_subscription_active id alias group_order now s).0
unfolding set_subscription_active
set_subscription_active-IsConsistent id alias group_order now s h =
    elim (Option-cases (get by_number id s.subscribed_tracks_by_subscribe_id)) [
      | inl e ↦ rw (set_subscription_active, e) h
      | inr (ref, e) ↦
          rw (set_subscription_active, e)
            (record {
              published_paired = h.published_paired;
              subscribed_paired = subscribed_replaced s ref _ refl refl h;
            })
    ]

pub set_subscription_error-IsConsistent :
    (id error_code : ℕ) (reason : String) (s : TrackManager)
    → IsConsistent s
    → IsConsistent (set_subscription_error id error_code reason s).0
unfolding set_subscription_error
set_subscription_error-IsConsistent id error_code reason s h =
    elim (Option-cases (get by_number id s.subscribed_tracks_by_subscribe_id)) [
      | inl e ↦ rw (set_subscription_error, e) h
      | inr (ref, e) ↦
          rw (set_subscription_error, e)
            (record {
              published_paired = h.published_paired;
              subscribed_paired = subscribed_replaced s ref _ refl refl h;
            })
    ]

pub set_subscription_ended-IsConsistent :
    (id : ℕ) (reason : Option String) (s : TrackManager)
    → IsConsistent s
    → IsConsistent (set_subscription_ended id reason s).0
unfolding set_subscription_ended
set_subscription_ended-IsConsistent id reason s h =
    elim (Option-cases (get by_number id s.subscribed_tracks_by_subscribe_id)) [
      | inl e ↦ rw (set_subscription_ended, e) h
      | inr (ref, e) ↦
          rw (set_subscription_ended, e)
            (record {
              published_paired = h.published_paired;
              subscribed_paired = subscribed_replaced s ref _ refl refl h;
            })
    ]

pub remove_subscription-IsConsistent :
    (key : Text) (s : TrackManager) → IsConsistent s → IsConsistent (remove_subscription key s).1
unfolding remove_subscription
remove_subscription-IsConsistent key s h =
    elim (Option-cases (get by_text key s.subscribed_tracks)) [
      | inl e ↦ rw (remove_subscription, e) h
      | inr (ref, e) ↦
          rw (remove_subscription, e)
            (record {
              published_paired = h.published_paired;
              subscribed_paired = remove_pair key ref e h.subscribed_paired;
            })
    ]

pub record_received_object-IsConsistent :
    (id group object : ℕ) (s : TrackManager)
    → IsConsistent s
    → IsConsistent (record_received_object id group object s)
unfolding record_received_object
record_received_object-IsConsistent id group object s h =
    elim (Option-cases (get by_number id s.subscribed_tracks_by_subscribe_id)) [
      | inl e ↦ rw (record_received_object, e) h
      | inr (ref, e) ↦
          rw (record_received_object, e)
            (record {
              published_paired = h.published_paired;
              subscribed_paired = subscribed_replaced s ref _ refl refl h;
            })
    ]
