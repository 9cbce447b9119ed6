-- ===== src/TrackManager/Published.antt =====
-- The published tracks of TrackManager.
use moq_web.Base.{
  ℕ, suc, ◌+◌, ◌==◌, List, [], ◌∷◌, map, Bool, true, false, Option, none, some, Result, ok, err,
  if◌then◌else◌,
}
use moq_web.Base.Maps.{get, has, set, delete, by_number}
use moq_web.StateMachines.{remove_first}
use moq_web.Draft18.Subgroup.{or_else}
use moq_web.TrackManager.{
  stream, PublishedTrackConfig, PublishedTrack, track_published, track_unpublished,
  subscriber_added, subscriber_removed, TrackManagerError, track_exists, track_not_found,
  TrackManager, Told, update, emit,
}
use moq_web.TrackManager.Names.{Text, by_text, track_name_to_key, namespace_matches_prefix}

-- The track that createPublishedTrack makes.
unfoldable pub new_published : PublishedTrackConfig → ℕ → ℕ → PublishedTrack
new_published config alias now = record {
  key = track_name_to_key config.full_track_name;
  full_track_name = config.full_track_name;
  track_alias = alias;
  delivery_mode = or_else config.delivery_mode stream;
  priority = or_else config.priority 128;
  current_group_id = 0;
  current_object_id = 0;
  total_objects = 0;
  subscribers = [];
  created_at = now;
}

-- The manager with a new track.
unfoldable pub with_published : PublishedTrackConfig → ℕ → TrackManager → TrackManager
unfolding new_published
with_published config now s = record s {
  published = update s.objects (new_published config s.next_track_alias now) s.published;
  objects = suc s.objects;
  published_tracks =
      set by_text (track_name_to_key config.full_track_name) s.objects s.published_tracks;
  published_tracks_by_alias =
      set by_number s.next_track_alias s.objects s.published_tracks_by_alias;
  next_track_alias = suc s.next_track_alias;
}

unfoldable pub create_published_track :
    PublishedTrackConfig → ℕ → TrackManager → Result TrackManagerError (ℕ × TrackManager × Told)
unfolding with_published emit
create_published_track config now s =
    let s' = with_published config now s in
    if has by_text (track_name_to_key config.full_track_name) s.published_tracks
    then err track_exists
    else ok (s.objects, s', emit (track_published s.objects) s')

unfoldable pub get_published_track : Text → TrackManager → Option ℕ
get_published_track key s = get by_text key s.published_tracks

unfoldable pub get_published_track_by_alias : ℕ → TrackManager → Option ℕ
get_published_track_by_alias alias s = get by_number alias s.published_tracks_by_alias

unfoldable pub get_all_published_tracks : TrackManager → List ℕ
get_all_published_tracks s = map (λ (e : Text × ℕ). e.1) s.published_tracks

unfoldable pub remove_published_track : Text → TrackManager → Bool × TrackManager × Told
unfolding emit
remove_published_track key s = elim (get by_text key s.published_tracks) [
  | none ↦ (false, s, [])
  | some ref ↦
      (let s' : TrackManager = record s {
        published_tracks = delete by_text key s.published_tracks;
        published_tracks_by_alias =
            delete by_number (s.published ref).track_alias s.published_tracks_by_alias;
      } in
        (true, s', emit (track_unpublished ref) s'))
]

-- The counters of a track after an object.
unfoldable pub count_object : Bool → PublishedTrack → PublishedTrack
count_object true track = record track {
  current_group_id = track.current_group_id + 1;
  current_object_id = 0;
  total_objects = track.total_objects + 1;
}
count_object false track = record track {
  current_object_id = track.current_object_id + 1;
  total_objects = track.total_objects + 1;
}

-- It gives the group and the object.
unfoldable pub record_published_object :
    Text → Bool → TrackManager → Result TrackManagerError ((ℕ × ℕ) × TrackManager)
unfolding count_object
record_published_object key is_keyframe s = elim (get by_text key s.published_tracks) [
  | none ↦ err track_not_found
  | some ref ↦
      (let track = count_object is_keyframe (s.published ref) in
        ok (
          (track.current_group_id, track.current_object_id),
          record s { published = update ref track s.published },
        ))
]

-- `Set.add`
unfoldable pub add_member : ℕ → List ℕ → List ℕ
add_member id [] = id ∷ []
add_member id (member ∷ members) =
    if member == id then member ∷ members else member ∷ add_member id members

unfoldable pub add_subscriber :
    Text → ℕ → TrackManager → Result TrackManagerError (TrackManager × Told)
unfolding add_member emit
add_subscriber key id s = elim (get by_text key s.published_tracks) [
  | none ↦ err track_not_found
  | some ref ↦
      (let track = s.published ref in
        let s' : TrackManager = record s {
          published =
              update ref (record track { subscribers = add_member id track.subscribers })
                s.published;
        } in
        ok (s', emit (subscriber_added ref id) s'))
]

unfoldable pub remove_subscriber : Text → ℕ → TrackManager → TrackManager × Told
unfolding remove_first emit
remove_subscriber key id s = elim (get by_text key s.published_tracks) [
  | none ↦ (s, [])
  | some ref ↦
      (let track = s.published ref in
        let s' : TrackManager = record s {
          published =
              update ref (record track { subscribers = remove_first id track.subscribers })
                s.published;
        } in
        (s', emit (subscriber_removed ref id) s'))
]

-- `filter` of the tracks whose namespace has the prefix.
unfoldable pub published_under : List Text → (ℕ → PublishedTrack) → List ℕ → List ℕ
published_under prefix published [] = []
published_under prefix published (ref ∷ refs) =
    let rest = published_under prefix published refs in
    if namespace_matches_prefix (published ref).full_track_name.namespace prefix
    then ref ∷ rest
    else rest

unfoldable pub get_tracks_in_namespace : List Text → TrackManager → List ℕ
unfolding get_all_published_tracks published_under
get_tracks_in_namespace prefix s = published_under prefix s.published (get_all_published_tracks s)
