-- ===== src/LocationFilter/Laws.antt =====
-- What a resolved filter admits, and the filters of the two drafts against each other.
use moq_web.Base.{ℕ, ◌≤◌, ◌<◌, ◌≡◌, ◌↔◌, ◌⊎◌, refl, ap, true, false, Option, none, some, arith}
use moq_web.Base.Int.{pos, negsuc}
use moq_web.LocationFilter.{
  Location, RangeEnd, LocationRange, compare_locations, next_group, next_object, FilterTypeDraft22,
  FilterDraft22, FilterDraft18, resolve_type, resolve_location_filter, resolve_subscription_filter,
  admits, ends_before,
}

-- The order of the objects of a track.
abbrev pub IsBefore : Location → Location → Type 0
IsBefore a b = (a.group < b.group) ⊎ ((a.group ≡ b.group) × (a.object < b.object))

abbrev pub IsUpToObject : Option ℕ → ℕ → Type 0
IsUpToObject none object = Unit
IsUpToObject (some last) object = object ≤ last

abbrev pub IsUpTo : Option RangeEnd → Location → Type 0
IsUpTo none a = Unit
IsUpTo (some end) a =
    (a.group < end.group) ⊎ ((a.group ≡ end.group) × IsUpToObject end.object a.object)

-- `compareLocations` is negative, positive or zero as the first location is before, after, or is
-- the second.
pub compare_locations_lem :
    (a b : Location)
    → ((compare_locations a b ≡ negsuc 0) ↔ IsBefore a b)
      × ((compare_locations a b ≡ pos 1) ↔ IsBefore b a)
      × ((compare_locations a b ≡ pos 0) ↔ ((a.group ≡ b.group) × (a.object ≡ b.object)))
unfolding compare_locations
compare_locations_lem a b = grind arith

-- A range admits a location just if it is not before the start and not after the end.
pub admits_iff :
    (range : LocationRange) (group object : ℕ)
    → (admits range group object ≡ true) ↔ (
        ¬ IsBefore (record { group = group; object = object }) range.start
        × IsUpTo range.end (record { group = group; object = object }))
unfolding admits compare_locations
admits_iff range group object = grind arith

-- A range that ends before the largest object admits no location of its group or of a later one.
pub ends_before_lem :
    (range : LocationRange) (largest : Location) (group object : ℕ)
    → ends_before range (some largest) ≡ true
    → largest.group ≤ group
    → admits range group object ≡ false
unfolding ends_before admits compare_locations
ends_before_lem range largest group object ends late = grind arith

-- With an object published, `NEXT_OBJECT` admits just the locations after the largest.
pub next_object_lem :
    (filter : FilterDraft22) (largest : Location) (group object : ℕ)
    → filter.type ≡ FilterTypeDraft22.next_object_start
    → (admits (resolve_location_filter (some filter) (some largest)) group object ≡ true)
      ↔ IsBefore largest (record { group = group; object = object })
unfolding resolve_location_filter resolve_type next_object admits compare_locations
next_object_lem filter largest group object type = grind arith

-- Each filter of draft 18 resolves to the range of a filter of draft 22: the start of the next group to
-- that of a relative start with no delta, the largest object to that of the next object, the absolute
-- start and the absolute range to those of the same start and the same delta of the end group, and any
-- other to that of no filter.
pub resolve_subscription_filter_lem :
    (start : Option Location) (delta : Option ℕ) (largest : Option Location)
    → (resolve_location_filter
          (some (record {
            type = FilterTypeDraft22.relative_start;
            start_location = none;
            end_group_delta = none;
            end_object = none;
          }))
          largest
        ≡ resolve_subscription_filter FilterDraft18.next_group_start start delta largest)
      × (resolve_location_filter
            (some (record {
              type = FilterTypeDraft22.next_object_start;
              start_location = none;
              end_group_delta = none;
              end_object = none;
            }))
            largest
          ≡ resolve_subscription_filter FilterDraft18.largest_object start delta largest)
      × (resolve_location_filter
            (some (record {
              type = FilterTypeDraft22.absolute_start;
              start_location = start;
              end_group_delta = none;
              end_object = none;
            }))
            largest
          ≡ resolve_subscription_filter FilterDraft18.absolute_start start delta largest)
      × (resolve_location_filter
            (some (record {
              type = FilterTypeDraft22.absolute_start_group_end;
              start_location = start;
              end_group_delta = delta;
              end_object = none;
            }))
            largest
          ≡ resolve_subscription_filter FilterDraft18.absolute_range start delta largest)
      × (resolve_location_filter
            (some (record {
              type = FilterTypeDraft22.no_filter;
              start_location = none;
              end_group_delta = none;
              end_object = none;
            }))
            largest
          ≡ resolve_subscription_filter FilterDraft18.other_filter start delta largest)
unfolding resolve_location_filter resolve_subscription_filter resolve_type next_group
resolve_subscription_filter_lem start delta none = (refl, refl, refl, refl, refl)
resolve_subscription_filter_lem start delta (some l) = (
  ap (λ (g : ℕ). record { start = record { group = g; object = 0 }; end = none }) (omega arith),
  refl,
  refl,
  refl,
  refl,
)
