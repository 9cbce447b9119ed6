-- ===== src/Subscriptions/Runs.antt =====
-- Two subscriptions, with their references for IDs; track names are numbers.
use moq_web.Base.{ℕ, ◌+◌, ◌≡◌, ◌≢◌, refl, List, [], Option, none, some, arith, if◌then◌else◌}
use moq_web.Base.Maps.{by_number, get}
use moq_web.Subscriptions.{
  Subscription, Manager, get_subscription, get_by_alias, find_by_request_id, get_by_track_name, add,
  update_track_alias, remove,
}
use moq_web.Subscriptions.Consistent.{IsConsistent}
use moq_web.Subscriptions.Removed.{remove-forgets}
use moq_web.Subscriptions.Reachable.{Reachable, starts, adds, updates, Reachable-IsConsistent}

-- Both for track 9; the first asks for alias 5, the second leaves it to the publisher.
abbrev objects : ℕ → Subscription ℕ
objects r = record {
  subscription_id = r;
  request_id = r + r;
  track_name = 9;
  track_alias = if moq_web.Base.◌==◌ r 1 then some 5 else none;
}

abbrev empty : Manager ℕ
empty = record {
  object = objects;
  subscriptions = [];
  by_alias = [];
  by_request_id = [];
  by_track_name = [];
}

abbrev one : Manager ℕ
one = add by_number 1 empty

abbrev two : Manager ℕ
two = add by_number 2 one

abbrev renamed : Manager ℕ
renamed = update_track_alias 1 7 two

second_is_new : get_subscription (one.object 2).subscription_id one ≡ none
unfolding get_subscription add moq_web.Subscriptions.register_optional
    moq_web.Subscriptions.safe_register_alias moq_web.Subscriptions.collides get
    moq_web.Base.Maps.set
second_is_new = refl

first_is_new : get_subscription (empty.object 1).subscription_id empty ≡ none
unfolding get_subscription get
first_is_new = refl

renamed-Reachable : Reachable by_number renamed
renamed-Reachable =
    updates two 1 7 (adds one 2 (adds empty 1 (starts objects) first_is_new) second_is_new)

Reachable-IsConsistent_example : IsConsistent renamed
Reachable-IsConsistent_example = Reachable-IsConsistent by_number renamed renamed-Reachable

first_is_there : get_subscription 1 renamed ≡ some 1
unfolding get_subscription update_track_alias add moq_web.Subscriptions.register_optional
    moq_web.Subscriptions.safe_register_alias moq_web.Subscriptions.collides get
    moq_web.Base.Maps.set moq_web.Subscriptions.with_alias
first_is_there = refl

remove-forgets_example :
    let s' = (remove by_number 1 renamed).0 in
    ((remove by_number 1 renamed).1 ≡ some 1)
    × (get_subscription 1 s' ≡ none)
    × ((alias r : ℕ) → get_by_alias alias s' ≡ some r → (s'.object r).subscription_id ≢ 1)
    × ((q r : ℕ) → find_by_request_id q s' ≡ some r → (s'.object r).subscription_id ≢ 1)
    × ((name : ℕ) (r : ℕ)
        → get_by_track_name by_number name s' ≡ some r
        → (s'.object r).subscription_id ≢ 1)
remove-forgets_example =
    remove-forgets by_number 1 1 renamed
      (Reachable-IsConsistent by_number renamed renamed-Reachable) first_is_there
