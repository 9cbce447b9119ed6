-- ===== src/TrackManager/Counters.antt =====
-- The group and object IDs that TrackManager gives out for the objects of a track.
use moq_web.Base.{
  ℕ, suc, ◌+◌, ◌==◌, ◌<◌, ◌≡◌, refl, ap, List, [], ◌∷◌, length, Bool, true, false, some, ok, err,
  ◌⊎◌, inl, inr, arith,
}
use moq_web.TrackManager.{TrackManager, update}
use moq_web.TrackManager.Names.{Text}
use moq_web.TrackManager.Published.{count_object, get_published_track, record_published_object}

-- What recordPublishedObject gives for a sequence of objects of a track, up to one that throws.
unfoldable pub locations : Text → List Bool → TrackManager → List (ℕ × ℕ)
locations key [] s = []
locations key (is_keyframe ∷ objects) s = elim (record_published_object key is_keyframe s) [
  | err e ↦ []
  | ok (location, s') ↦ location ∷ locations key objects s'
]

-- A location comes after another: in a later group, or in the same one as a later object.
abbrev pub After : ℕ × ℕ → ℕ × ℕ → Type 0
After (group, object) (group', object') = (group' < group) ⊎ ((group ≡ group') × (object' < object))

abbrev pub Rises : ℕ × ℕ → List (ℕ × ℕ) → Type 0
Rises last [] = Unit
Rises last (location ∷ locations) = After location last × Rises location locations

-- The location of the last object of a track.
abbrev pub last_of : ℕ → TrackManager → ℕ × ℕ
last_of ref s = ((s.published ref).current_group_id, (s.published ref).current_object_id)

after_object : Bool → ℕ → TrackManager → TrackManager
after_object is_keyframe ref s = record s {
  published = update ref (count_object is_keyframe (s.published ref)) s.published;
}

recorded :
    (key : Text) (is_keyframe : Bool) (ref : ℕ) (s : TrackManager)
    → get_published_track key s ≡ some ref
    → (s' : TrackManager) × (record_published_object key is_keyframe s ≡ ok (last_of ref s', s'))
      × After (last_of ref s') (last_of ref s)
      × (get_published_track key s' ≡ some ref)
      × ((s'.published ref).total_objects ≡ (s.published ref).total_objects + 1)
unfolding get_published_track record_published_object count_object update after_object
recorded key true ref s e =
    let here : (ref == ref) ≡ true = ground arith in
    (
      after_object true ref s,
      rw (record_published_object, e, here) refl,
      rw here (inl (omega arith)),
      e,
      rw here refl,
    )
recorded key false ref s e =
    let here : (ref == ref) ≡ true = ground arith in
    (
      after_object false ref s,
      rw (record_published_object, e, here) refl,
      rw here (inr (refl, omega arith)),
      e,
      rw here refl,
    )

-- For any sequence of objects of a published track, recordPublishedObject does not throw, and each
-- location that it gives comes after the one before, the first after that of the last object of the
-- track before.
pub locations-Rises :
    (key : Text) (objects : List Bool) (ref : ℕ) (s : TrackManager)
    → get_published_track key s ≡ some ref
    → (length (locations key objects s) ≡ length objects)
      × Rises (last_of ref s) (locations key objects s)
unfolding locations
locations-Rises key [] ref s e = (refl, tt)
locations-Rises key (is_keyframe ∷ objects) ref s e =
    let (s', gave, after, still, counted) = recorded key is_keyframe ref s e in
    let (all, rises) = locations-Rises key objects ref s' still in
    (rw (locations, gave) (ap suc all), rw (locations, gave) (after, rises))
