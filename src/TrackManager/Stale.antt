-- ===== src/TrackManager/Stale.antt =====
-- Entries of the map by alias that setSubscriptionActive leaves, and those it makes without an
-- activation.
use moq_web.Base.{ℕ, ◌==◌, ◌≡◌, refl, ap, ◌∙◌, List, true, false, none, some, arith}
use moq_web.Base.Maps.{get, set, get-set, get-delete, by_number}
use moq_web.TrackManager.{TrackManager, update}
use moq_web.TrackManager.Names.{Text, same_text_iff, by_text}
use moq_web.TrackManager.Subscribed.{
  get_subscription, get_subscription_by_id, get_subscription_by_alias, set_subscription_active,
  remove_subscription, forget_alias,
}

activated :
    (id alias group_order now ref : ℕ) (s : TrackManager)
    → get_subscription_by_id id s ≡ some ref
    → let s' = (set_subscription_active id alias group_order now s).0 in
      (get_subscription_by_id id s' ≡ some ref)
      × (s'.subscribed_tracks ≡ s.subscribed_tracks)
      × ((s'.subscribed ref).track_alias ≡ some alias)
      × (s'.subscribed_tracks_by_alias ≡ set by_number alias ref s.subscribed_tracks_by_alias)
unfolding get_subscription_by_id set_subscription_active update
activated id alias group_order now ref s e =
    let here : (ref == ref) ≡ true = ground arith in
    (
      rw (set_subscription_active, e) e,
      rw (set_subscription_active, e) refl,
      rw (set_subscription_active, e, here) refl,
      rw (set_subscription_active, e) refl,
    )

-- When a subscription is activated under one alias and again under another, and then removed by its key,
-- the key leads to nothing, and yet the first alias still leads to the subscription.
pub removed-stale_alias :
    (id a b group_order now ref : ℕ) (key : Text) (s : TrackManager)
    → (b == a) ≡ false
    → get_subscription_by_id id s ≡ some ref
    → get_subscription key s ≡ some ref
    → let s1 = (set_subscription_active id a group_order now s).0 in
      let s2 = (set_subscription_active id b group_order now s1).0 in
      let s3 = (remove_subscription key s2).1 in
      (get_subscription key s3 ≡ none) × (get_subscription_by_alias a s3 ≡ some ref)
unfolding get_subscription get_subscription_by_alias remove_subscription forget_alias
removed-stale_alias id a b group_order now ref key s other by_id by_key =
    let s1 = (set_subscription_active id a group_order now s).0 in
    let s2 = (set_subscription_active id b group_order now s1).0 in
    let (by_id1, keys1, alias1, aliases1) = activated id a group_order now ref s by_id in
    let (by_id2, keys2, alias2, aliases2) = activated id b group_order now ref s1 by_id1 in
    let found : get by_text key s2.subscribed_tracks ≡ some ref =
      ap (λ (m : List (Text × ℕ)). get by_text key m) (keys2 ∙ keys1) ∙ by_key in
    (
      rw (remove_subscription, found)
          (get-delete by_text key key s2.subscribed_tracks
            ∙ rw ((same_text_iff key key).1 refl) refl),
      rw (remove_subscription, found, alias2)
          (get-delete by_number b a s2.subscribed_tracks_by_alias
            ∙ rw (other, aliases2)
                (get-set by_number b a ref s1.subscribed_tracks_by_alias
                  ∙ rw (other, aliases1)
                      (get-set by_number a a ref s.subscribed_tracks_by_alias ∙ ground arith))),
    )
