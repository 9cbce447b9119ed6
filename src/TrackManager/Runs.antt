-- ===== src/TrackManager/Runs.antt =====
-- A small TrackManager, run.
use moq_web.Base.{
  ℕ, ◌==◌, ◌≡◌, ◌≢◌, refl, List, [], ◌∷◌, length, true, false, none, some, ok, if◌then◌else◌,
}
use moq_web.Base.Maps.{get, has, set}
use moq_web.TrackManager.{
  PublishedTrackConfig, SubscriptionConfig, TrackManager, track_published, Told,
}
use moq_web.TrackManager.Names.{
  Text, FullTrackName, same_text, join, track_name_to_key, key_to_track_name,
}
use moq_web.TrackManager.Names.Laws.{key_to_track_name-key}
use moq_web.TrackManager.Published.{
  new_published, create_published_track, get_published_track, get_published_track_by_alias,
  remove_published_track,
}
use moq_web.TrackManager.Subscribed.{new_subscribed, create_subscription, set_subscription_active}
use moq_web.TrackManager.Announced.{new_announcement}
use moq_web.TrackManager.Consistent
use moq_web.TrackManager.Consistent.{IsConsistent, Call, run}
use moq_web.TrackManager.Reachable.{run-IsConsistent}
use moq_web.TrackManager.Lookups.{
  IsFresh, IsTold, create_published_track_lem, remove_published_track-forgets,
}
use moq_web.TrackManager.Counters.{locations, Rises, last_of, locations-Rises}

abbrev video : FullTrackName
video = record { namespace = (97 ∷ []) ∷ (98 ∷ []) ∷ []; track_name = 99 ∷ [] }

abbrev video_key : Text
video_key = 97 ∷ 47 ∷ 98 ∷ 58 ∷ 99 ∷ []

video_keyed : track_name_to_key video ≡ video_key
unfolding track_name_to_key join
video_keyed = refl

-- A slash inside of a part and one between two parts give the same key.
abbrev one_part : FullTrackName
one_part = record { namespace = (97 ∷ 47 ∷ 98 ∷ []) ∷ []; track_name = 99 ∷ [] }

same_key : track_name_to_key one_part ≡ track_name_to_key video
unfolding track_name_to_key join
same_key = refl

key_to_track_name-key_example : key_to_track_name (track_name_to_key video) ≡ some video
key_to_track_name-key_example =
    key_to_track_name-key (97 ∷ []) ((98 ∷ []) ∷ []) (99 ∷ []) ((refl, tt), ((refl, tt), tt))
      (refl, tt)

abbrev published_config : PublishedTrackConfig
published_config = record { full_track_name = video; delivery_mode = none; priority = none }

abbrev subscription_config : SubscriptionConfig
subscription_config = record {
  full_track_name = video;
  priority = some 3;
  group_order = none;
  filter_type = none;
  start_group = none;
  start_object = none;
  end_group = none;
  end_object = none;
}

abbrev nothing : TrackManager
nothing = record {
  published = λ r. new_published published_config 0 0;
  subscribed = λ r. new_subscribed subscription_config 0 0;
  announced = λ r. new_announcement [];
  objects = 0;
  published_tracks = [];
  published_tracks_by_alias = [];
  subscribed_tracks = [];
  subscribed_tracks_by_subscribe_id = [];
  subscribed_tracks_by_alias = [];
  announcements = [];
  handlers = 7 ∷ [];
  next_subscribe_id = 1;
  next_track_alias = 1;
}

nothing-IsConsistent : IsConsistent nothing
nothing-IsConsistent = record {
  published_paired = record { keyed = tt; numbered = tt };
  subscribed_paired = record { keyed = tt; numbered = tt };
}

abbrev calls : List Call
calls =
    Consistent.create_published_track published_config 5
    ∷ Consistent.create_subscription subscription_config 6
    ∷ Consistent.set_subscription_active 1 4 1 7
    ∷ []

-- A manager with a published track and an active subscription, both at the same key.
abbrev busy : TrackManager
busy = run calls nothing

run-IsConsistent_example : IsConsistent busy
run-IsConsistent_example = run-IsConsistent calls nothing nothing-IsConsistent

busy-IsConsistent : IsConsistent busy
busy-IsConsistent = run-IsConsistent calls nothing nothing-IsConsistent

create_published_track_lem_example :
    (ref : ℕ) × (s' : TrackManager) × (told : Told) × (create_published_track published_config 5
        nothing
      ≡ ok (ref, s', told))
    × IsFresh published_config (s'.published ref)
    × (get_published_track_by_alias (s'.published ref).track_alias nothing ≡ none)
    × IsTold nothing.handlers (track_published ref) told
    × ((k : Text)
        → get_published_track k s' ≡ (
            if same_text (track_name_to_key video) k
            then some ref
            else get_published_track k nothing))
    × ((alias : ℕ)
        → get_published_track_by_alias alias s' ≡ (
            if (s'.published ref).track_alias == alias
            then some ref
            else get_published_track_by_alias alias nothing))
    × ((r : ℕ) → s'.published r ≡ (if r == ref then s'.published ref else nothing.published r))
unfolding get_published_track get
create_published_track_lem_example =
    create_published_track_lem published_config 5 nothing nothing-IsConsistent refl

busy_published : get_published_track video_key busy ≡ some 0
unfolding run Consistent.step create_published_track create_subscription set_subscription_active
    get_published_track has get set track_name_to_key join
busy_published = refl

remove_published_track-forgets_example :
    ((remove_published_track video_key busy).0 ≡ true)
    × ((k : Text) → get_published_track k (remove_published_track video_key busy).1 ≢ some 0)
    × ((a : ℕ) → get_published_track_by_alias a (remove_published_track video_key busy).1 ≢ some 0)
remove_published_track-forgets_example =
    remove_published_track-forgets video_key 0 busy busy-IsConsistent busy_published

locations-Rises_example :
    let objects = true ∷ false ∷ false ∷ true ∷ [] in
    (length (locations video_key objects busy) ≡ 4)
    × Rises (last_of 0 busy) (locations video_key objects busy)
locations-Rises_example =
    locations-Rises video_key (true ∷ false ∷ false ∷ true ∷ []) 0 busy busy_published
