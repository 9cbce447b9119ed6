-- ===== src/LocationFilter/Runs.antt =====
-- Ranges and filters on fixed locations.
use moq_web.Base.{ℕ, ◌≡◌, none, some}
use moq_web.LocationFilter.{
  Location, FilterTypeDraft22, FilterDraft18, resolve_location_filter, resolve_subscription_filter,
}
use moq_web.LocationFilter.Laws.{resolve_subscription_filter_lem}

abbrev at : ℕ → ℕ → Location
at group object = record { group = group; object = object }

resolve_subscription_filter_lem_example :
    (resolve_location_filter
        (some (record {
          type = FilterTypeDraft22.relative_start;
          start_location = none;
          end_group_delta = none;
          end_object = none;
        }))
        none
      ≡ resolve_subscription_filter FilterDraft18.next_group_start (some (at 2 4)) (some 3) none)
    × (resolve_location_filter
          (some (record {
            type = FilterTypeDraft22.next_object_start;
            start_location = none;
            end_group_delta = none;
            end_object = none;
          }))
          none
        ≡ resolve_subscription_filter FilterDraft18.largest_object (some (at 2 4)) (some 3) none)
    × (resolve_location_filter
          (some (record {
            type = FilterTypeDraft22.absolute_start;
            start_location = some (at 2 4);
            end_group_delta = none;
            end_object = none;
          }))
          none
        ≡ resolve_subscription_filter FilterDraft18.absolute_start (some (at 2 4)) (some 3) none)
    × (resolve_location_filter
          (some (record {
            type = FilterTypeDraft22.absolute_start_group_end;
            start_location = some (at 2 4);
            end_group_delta = some 3;
            end_object = none;
          }))
          none
        ≡ resolve_subscription_filter FilterDraft18.absolute_range (some (at 2 4)) (some 3) none)
    × (resolve_location_filter
          (some (record {
            type = FilterTypeDraft22.no_filter;
            start_location = none;
            end_group_delta = none;
            end_object = none;
          }))
          none
        ≡ resolve_subscription_filter FilterDraft18.other_filter (some (at 2 4)) (some 3) none)
resolve_subscription_filter_lem_example =
    resolve_subscription_filter_lem (some (at 2 4)) (some 3) none
