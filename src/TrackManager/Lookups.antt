-- ===== src/TrackManager/Lookups.antt =====
-- What the lookups of TrackManager give behind the creation and the removal of tracks.
use moq_web.Base.{
  ap, map, All, ℕ, ◌==◌, ◌≡◌, ◌≢◌, refl, sym, ◌∙◌, List, [], ◌∷◌, true, false, Bool-cases, none,
  some, Option-cases, ok, inl, inr, if◌then◌else◌, arith,
}
use moq_web.Base.Maps.{get, has, delete, get-set, get-delete, by_number}
use moq_web.TrackManager.{
  PublishedTrackConfig, PublishedTrack, TrackManagerEvent, TrackManager, Told, track_published,
  emit, update,
}
use moq_web.TrackManager.Names.{Text, same_text, same_text_iff, by_text, track_name_to_key}
use moq_web.TrackManager.Paired.{Labels, IsPaired, get-Keyed, get-Numbered}
use moq_web.TrackManager.Published.{
  new_published, with_published, create_published_track, get_published_track,
  get_published_track_by_alias, remove_published_track,
}
use moq_web.TrackManager.Subscribed.{get_subscription, get_subscription_by_id, remove_subscription}
use moq_web.TrackManager.Consistent.{IsConsistent}

none-has : (k : Text) (m : List (Text × ℕ)) → get by_text k m ≡ none → has by_text k m ≡ false
unfolding has get
none-has k [] h = refl
none-has k ((key, ref) ∷ m) h = ground (arith, none-has k m)

unused_number :
    {labels : Labels} {objects numbers : ℕ} {by_key : List (Text × ℕ)} {by_num : List (ℕ × ℕ)}
    → IsPaired labels objects numbers by_key by_num
    → get by_number numbers by_num ≡ none
unused_number {numbers = numbers} {by_num = by_num} h =
    elim (Option-cases (get by_number numbers by_num)) [
      | inl e ↦ e
      | inr (ref, e) ↦
          (let (below, given, same, back) = get-Numbered numbers ref h e in absurd (omega arith))
    ]

-- A track that starts: no object, no subscriber, under the key of its name.
pub record IsFresh (config : PublishedTrackConfig) (track : PublishedTrack) : Type 0 where
  pub keyed : track.key ≡ track_name_to_key config.full_track_name
  pub named : track.full_track_name ≡ config.full_track_name
  pub no_group : track.current_group_id ≡ 0
  pub no_object : track.current_object_id ≡ 0
  pub none_counted : track.total_objects ≡ 0
  pub no_subscribers : track.subscribers ≡ []

-- Each of the handlers is told the event, one after the other.
abbrev pub IsTold : List ℕ → TrackManagerEvent → Told → Type 0
IsTold handlers event told = (map (λ n. n.0) told ≡ handlers) × All (λ n. n.1 ≡ event) told

emit-IsTold :
    (event : TrackManagerEvent) (handlers : List ℕ)
    → IsTold handlers event (map (λ (handler : ℕ). (handler, event)) handlers)
emit-IsTold event [] = (refl, tt)
emit-IsTold event (h ∷ hs) =
    let (same, each) = emit-IsTold event hs in (ap (λ (t : List ℕ). h ∷ t) same, (refl, each))

-- createPublishedTrack under a key that is not in use, on a manager whose maps are in step, gives a track
-- without objects or subscribers, with its name and key and with an alias that no published track had. It
-- tells every handler, once and in their order, that the track is published. Then the lookups by that key
-- and by the alias that the track has give the track, those by any other key or alias what they gave
-- before, and every other track is as it was.
pub create_published_track_lem :
    (config : PublishedTrackConfig) (now : ℕ) (s : TrackManager)
    → IsConsistent s
    → get_published_track (track_name_to_key config.full_track_name) s ≡ none
    → let key = track_name_to_key config.full_track_name in
      (ref : ℕ) × (s' : TrackManager) × (told : Told) × (create_published_track config now s
        ≡ ok (ref, s', told))
      × IsFresh config (s'.published ref)
      × (get_published_track_by_alias (s'.published ref).track_alias s ≡ none)
      × IsTold s.handlers (track_published ref) told
      × ((k : Text)
          → get_published_track k s'
            ≡ (if same_text key k then some ref else get_published_track k s))
      × ((alias : ℕ)
          → get_published_track_by_alias alias s' ≡ (
              if (s'.published ref).track_alias == alias
              then some ref
              else get_published_track_by_alias alias s))
      × ((r : ℕ) → s'.published r ≡ (if r == ref then s'.published ref else s.published r))
unfolding create_published_track with_published new_published get_published_track
    get_published_track_by_alias update emit
create_published_track_lem config now s h free =
    let key = track_name_to_key config.full_track_name in
    let fresh = none-has key s.published_tracks free in
    let here : (s.objects == s.objects) ≡ true = ground arith in
    let s' = with_published config now s in
    (
      s.objects,
      s',
      emit (track_published s.objects) s',
      rw (create_published_track, fresh) refl,
      rw here (record {
        keyed = refl;
        named = refl;
        no_group = refl;
        no_object = refl;
        none_counted = refl;
        no_subscribers = refl;
      }),
      rw here (unused_number h.published_paired),
      emit-IsTold (track_published s.objects) s.handlers,
      λ k. get-set by_text key k s.objects s.published_tracks,
      λ a. rw here (get-set by_number s.next_track_alias a s.objects s.published_tracks_by_alias),
      λ r. rw here refl,
    )

module _ {labels : Labels} {objects numbers : ℕ} {by_key : List (Text × ℕ)}
    {by_num : List (ℕ × ℕ)} where
  -- Behind its removal from both maps no text and no number leads to an object.
  unled :
      (k : Text) (ref : ℕ)
      → IsPaired labels objects numbers by_key by_num
      → get by_text k by_key ≡ some ref
      → ((k' : Text) → get by_text k' (delete by_text k by_key) ≢ some ref)
        × ((n : ℕ) → get by_number n (delete by_number (labels.number ref) by_num) ≢ some ref)
  unled k ref h found = (
    λ k' e. (elim (Bool-cases (same_text k k')) [
      | inl same ↦ (let deleted = get-delete by_text k k' by_key in absurd (ground arith))
      | inr other ↦
          (let old : get by_text k' by_key ≡ some ref =
              rw (get-delete by_text k k' by_key, other) at e in
            let (below, named, led) = get-Keyed k ref h found in
            let (below', named', led') = get-Keyed k' ref h old in
            let told = (same_text_iff k k').1 (sym named ∙ named') in absurd (ground arith))
    ]),
    λ n e. (elim (Bool-cases (labels.number ref == n)) [
      | inl same ↦
          (let deleted = get-delete by_number (labels.number ref) n by_num in absurd (ground arith))
      | inr other ↦
          (let old : get by_number n by_num ≡ some ref =
              rw (get-delete by_number (labels.number ref) n by_num, other) at e in
            let (below, given, same, back) = get-Numbered n ref h old in absurd (ground arith))
    ]),
  )

-- removePublishedTrack of a key in use, on a manager whose maps are in step, returns true, and then no
-- key and no alias leads to the track.
pub remove_published_track-forgets :
    (key : Text) (ref : ℕ) (s : TrackManager)
    → IsConsistent s
    → get_published_track key s ≡ some ref
    → ((remove_published_track key s).0 ≡ true)
      × ((k : Text) → get_published_track k (remove_published_track key s).1 ≢ some ref)
      × ((a : ℕ) → get_published_track_by_alias a (remove_published_track key s).1 ≢ some ref)
unfolding remove_published_track get_published_track get_published_track_by_alias
remove_published_track-forgets key ref s h found =
    let (by_key, by_alias) = unled key ref h.published_paired found in
    (
      rw (remove_published_track, found) refl,
      rw (remove_published_track, found) by_key,
      rw (remove_published_track, found) by_alias,
    )

-- removeSubscription of a key in use, on a manager whose maps are in step, returns true, and then no key
-- and no subscription ID leads to the subscription.
pub remove_subscription-forgets :
    (key : Text) (ref : ℕ) (s : TrackManager)
    → IsConsistent s
    → get_subscription key s ≡ some ref
    → ((remove_subscription key s).0 ≡ true)
      × ((k : Text) → get_subscription k (remove_subscription key s).1 ≢ some ref)
      × ((id : ℕ) → get_subscription_by_id id (remove_subscription key s).1 ≢ some ref)
unfolding remove_subscription get_subscription get_subscription_by_id
remove_subscription-forgets key ref s h found =
    let (by_key, by_id) = unled key ref h.subscribed_paired found in
    (
      rw (remove_subscription, found) refl,
      rw (remove_subscription, found) by_key,
      rw (remove_subscription, found) by_id,
    )
