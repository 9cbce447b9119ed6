-- ===== src/LocationFilter.antt =====
-- packages/session/src/location-filter.ts. Groups and objects are natural numbers: on the wire they are
-- variable-length integers.
mod Runs
pub mod Laws
use moq_web.Base.{
  ℕ, ◌+◌, ◌-◌, Bool, true, false, Option, none, some, ltb, leb, ◌==◌, if◌then◌else◌, not, ◌&&◌,
}
use moq_web.Base.Int.{ℤ, pos, negsuc}

pub record Location : Type 0 where
  pub group : ℕ
  pub object : ℕ

-- The end of a range, in its last group: at an object, or at the end of the group.
pub record RangeEnd : Type 0 where
  pub group : ℕ
  pub object : Option ℕ

pub record LocationRange : Type 0 where
  pub start : Location
  pub end : Option RangeEnd

abbrev pub first_location : Location
first_location = record { group = 0; object = 0 }

abbrev pub whole_track : LocationRange
whole_track = record { start = first_location; end = none }

unfoldable pub compare_locations : Location → Location → ℤ
compare_locations a b =
    if not (a.group == b.group)
    then (if ltb a.group b.group then negsuc 0 else pos 1)
    else (if not (a.object == b.object)
        then (if ltb a.object b.object then negsuc 0 else pos 1)
        else pos 0)

unfoldable pub next_group : Option Location → Location
next_group none = record { group = 0; object = 0 }
next_group (some largest) = record { group = largest.group + 1; object = 0 }

unfoldable pub next_object : Option Location → Location
next_object none = first_location
next_object (some largest) = record { group = largest.group; object = largest.object + 1 }

-- LocationFilterTypeDraft22, with `other_type` for a number outside the enum.
pub data FilterTypeDraft22 : Type 0 where
  no_filter relative_start absolute_start absolute_start_group_end : FilterTypeDraft22
  absolute_range next_object_start other_type : FilterTypeDraft22

pub record FilterDraft22 : Type 0 where
  pub type : FilterTypeDraft22
  pub start_location : Option Location
  pub end_group_delta : Option ℕ
  pub end_object : Option ℕ

-- SubscriptionFilterDraft18, with `other_filter` for a number outside the enum.
pub data FilterDraft18 : Type 0 where
  next_group_start largest_object absolute_start absolute_range other_filter : FilterDraft18

-- `a ?? b`.
abbrev pub or_else : {A : Type 0} → Option A → A → A
or_else none a = a
or_else (some b) a = b

-- The switch of `resolveLocationFilter`. The group of a relative start stops at 0, as subtraction
-- does here.
unfoldable pub resolve_type :
    FilterTypeDraft22 → Location → ℕ → Option ℕ → Option Location → LocationRange
unfolding next_group next_object
resolve_type relative_start start end_group end_object largest = record {
  start = record { group = (next_group largest).group - start.group; object = 0 };
  end = none;
}
resolve_type absolute_start start end_group end_object largest = record {
  start = start;
  end = none;
}
resolve_type absolute_start_group_end start end_group end_object largest = record {
  start = start;
  end = some (record { group = end_group; object = none });
}
resolve_type absolute_range start end_group end_object largest = record {
  start = start;
  end = some (record { group = end_group; object = end_object });
}
resolve_type next_object_start start end_group end_object largest = record {
  start = next_object largest;
  end = none;
}
resolve_type no_filter start end_group end_object largest = whole_track
resolve_type other_type start end_group end_object largest = whole_track

unfoldable pub resolve_location_filter : Option FilterDraft22 → Option Location → LocationRange
unfolding resolve_type
resolve_location_filter none largest = whole_track
resolve_location_filter (some filter) largest =
    let start = or_else filter.start_location first_location in
    resolve_type filter.type start (start.group + or_else filter.end_group_delta 0)
      filter.end_object largest

unfoldable pub resolve_subscription_filter :
    FilterDraft18 → Option Location → Option ℕ → Option Location → LocationRange
unfolding next_group next_object
resolve_subscription_filter next_group_start start_location end_group_delta largest = record {
  start = next_group largest;
  end = none;
}
resolve_subscription_filter largest_object start_location end_group_delta largest = record {
  start = next_object largest;
  end = none;
}
resolve_subscription_filter absolute_start start_location end_group_delta largest = record {
  start = or_else start_location first_location;
  end = none;
}
resolve_subscription_filter absolute_range start_location end_group_delta largest =
    let start = or_else start_location first_location in
    record {
      start = start;
      end = some (record { group = start.group + or_else end_group_delta 0; object = none });
    }
resolve_subscription_filter other_filter start_location end_group_delta largest = whole_track

-- `compareLocations(a, b) < 0`.
abbrev pub is_negative : ℤ → Bool
is_negative (pos n) = false
is_negative (negsuc n) = true

abbrev pub within_end : RangeEnd → ℕ → ℕ → Bool
within_end end group object =
    if ltb group end.group
    then true
    else ((group == end.group) && elim end.object [ none ↦ true | some last ↦ leb object last ])

unfoldable pub admits : LocationRange → ℕ → ℕ → Bool
unfolding compare_locations
admits range group object =
    if is_negative (compare_locations (record { group = group; object = object }) range.start)
    then false
    else elim range.end [ none ↦ true | some end ↦ within_end end group object ]

unfoldable pub ends_before : LocationRange → Option Location → Bool
ends_before range none = false
ends_before range (some largest) = elim range.end [
  | none ↦ false
  | some end ↦ ltb end.group largest.group
]
