-- ===== src/TrackManager/Kept.antt =====
-- The methods of TrackManager, one by one, keep the maps to its tracks in step.
use moq_web.Base.{
  ℕ, suc, ◌==◌, ◌<◌, ◌≡◌, refl, ap, ◌∙◌, List, [], ◌∷◌, true, false, Bool-cases, none, Option-cases,
  inl, inr, arith,
}
use moq_web.Base.Maps.{get, has}
use moq_web.TrackManager.{
  PublishedTrackConfig, PublishedTrack, SubscriptionConfig, SubscribedTrack, TrackManager, update,
}
use moq_web.TrackManager.Names.{Text, by_text, track_name_to_key, namespace_to_key}
use moq_web.TrackManager.Paired.{relabel, add_pair}
use moq_web.TrackManager.Published.{new_published, with_published, create_published_track}
use moq_web.TrackManager.Subscribed.{new_subscribed, create_subscription}
use moq_web.TrackManager.Announced.{create_announcement}
use moq_web.TrackManager.Consistent.{left, published_labels, subscribed_labels, IsConsistent}

-- What is read of an object stays when it is replaced by one of which the same is read.
pub update_same :
    {A B : Type 0} (read : A → B) (ref : ℕ) (a : A) (store : ℕ → A) (r : ℕ)
    → read a ≡ read (store ref)
    → read (update ref a store r) ≡ read (store r)
unfolding update
update_same read ref a store r e = elim (Bool-cases (r == ref)) [
  | inr other ↦ rw other refl
  | inl here ↦
      (let same : ref ≡ r = ground arith in rw here (e ∙ ap (λ (x : ℕ). read (store x)) same))
]

update_other :
    {A B : Type 0} (read : A → B) (ref : ℕ) (a : A) (store : ℕ → A) (r : ℕ)
    → r < ref
    → read (update ref a store r) ≡ read (store r)
unfolding update
update_other read ref a store r h = let other : (r == ref) ≡ false = ground arith in rw other refl

update_at :
    {A B : Type 0} (read : A → B) (ref : ℕ) (a : A) (store : ℕ → A)
    → read (update ref a store ref) ≡ read a
unfolding update
update_at read ref a store = let here : (ref == ref) ≡ true = ground arith in rw here refl

has-none : (k : Text) (m : List (Text × ℕ)) → has by_text k m ≡ false → get by_text k m ≡ none
unfolding has get
has-none k [] h = refl
has-none k ((key, ref) ∷ m) h = ground (arith, has-none k m)

pub create_published_track-IsConsistent :
    (config : PublishedTrackConfig) (now : ℕ) (s : TrackManager)
    → IsConsistent s
    → IsConsistent (left (λ r. r.1) (create_published_track config now s) s)
unfolding create_published_track with_published new_published
create_published_track-IsConsistent config now s h =
    let key = track_name_to_key config.full_track_name in
    let track = new_published config s.next_track_alias now in
    let published = update s.objects track s.published in
    elim (Bool-cases (has by_text key s.published_tracks)) [
      | inl there ↦ rw there h
      | inr fresh ↦ rw fresh (record {
        published_paired =
            add_pair key (update_at (λ (t : PublishedTrack). t.key) s.objects track s.published)
              (update_at (λ (t : PublishedTrack). t.track_alias) s.objects track s.published)
              (has-none key s.published_tracks fresh)
              (relabel (published_labels published) s.objects (omega arith)
                (λ r below. (
                  update_other (λ (t : PublishedTrack). t.key) s.objects track s.published r below,
                  update_other (λ (t : PublishedTrack). t.track_alias) s.objects track s.published r
                      below,
                ))
                h.published_paired);
        subscribed_paired =
            relabel (subscribed_labels s.subscribed) (suc s.objects) (omega arith)
              (λ r below. (refl, refl)) h.subscribed_paired;
      })
    ]

pub create_subscription-IsConsistent :
    (config : SubscriptionConfig) (now : ℕ) (s : TrackManager)
    → IsConsistent s
    → IsConsistent (left (λ r. r.1) (create_subscription config now s) s)
unfolding create_subscription new_subscribed
create_subscription-IsConsistent config now s h =
    let key = track_name_to_key config.full_track_name in
    let track = new_subscribed config s.next_subscribe_id now in
    let subscribed = update s.objects track s.subscribed in
    elim (Bool-cases (has by_text key s.subscribed_tracks)) [
      | inl there ↦ rw there h
      | inr fresh ↦ rw fresh (record {
        subscribed_paired =
            add_pair key (update_at (λ (t : SubscribedTrack). t.key) s.objects track s.subscribed)
              (update_at (λ (t : SubscribedTrack). t.subscribe_id) s.objects track s.subscribed)
              (has-none key s.subscribed_tracks fresh)
              (relabel (subscribed_labels subscribed) s.objects (omega arith)
                (λ r below. (
                  update_other (λ (t : SubscribedTrack). t.key) s.objects track s.subscribed r
                      below,
                  update_other (λ (t : SubscribedTrack). t.subscribe_id) s.objects track
                      s.subscribed r below,
                ))
                h.subscribed_paired);
        published_paired =
            relabel (published_labels s.published) (suc s.objects) (omega arith)
              (λ r below. (refl, refl)) h.published_paired;
      })
    ]

pub create_announcement-IsConsistent :
    (namespace : List Text) (s : TrackManager)
    → IsConsistent s
    → IsConsistent (create_announcement namespace s).1
unfolding create_announcement
create_announcement-IsConsistent namespace s h =
    elim (Option-cases (get by_text (namespace_to_key namespace) s.announcements)) [
      | inr (ref, e) ↦ rw (create_announcement, e) h
      | inl e ↦
          rw (create_announcement, e)
            (record {
              published_paired =
                  relabel (published_labels s.published) (suc s.objects) (omega arith)
                    (λ r below. (refl, refl)) h.published_paired;
              subscribed_paired =
                  relabel (subscribed_labels s.subscribed) (suc s.objects) (omega arith)
                    (λ r below. (refl, refl)) h.subscribed_paired;
            })
    ]
