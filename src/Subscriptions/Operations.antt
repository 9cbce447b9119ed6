-- ===== src/Subscriptions/Operations.antt =====
-- SubscriptionManager.add and updateTrackAlias keep the maps in agreement.
use moq_web.Base.{
  ℕ, ◌==◌, ◌≡◌, refl, ap, ◌∙◌, List, false, Bool-cases, inl, inr, Option, none, some, Option-cases,
  All-imp, arith,
}
use moq_web.Base.Maps.{Keys, get, set, delete, by_number, get-set, get-delete, All-set, same_refl}
use moq_web.Subscriptions.{
  Subscription, Manager, with_alias, get_subscription, collides, safe_register_alias,
  register_optional, update_track_alias, add,
}
use moq_web.Subscriptions.Consistent.{
  IsListed, IsConsistent, listed_after_set, safe_register_alias-IsConsistent, get-IsListed,
  with_alias-IsConsistent, with_alias-same,
}

module _ {TrackName : Type 0} where
  pub update_track_alias-IsConsistent :
      (id alias : ℕ) (s : Manager TrackName)
      → IsConsistent s
      → IsConsistent (update_track_alias id alias s)
  unfolding update_track_alias
  update_track_alias-IsConsistent id alias s h =
      elim (Option-cases (get by_number id s.subscriptions)) [
        | inl e ↦ rw (update_track_alias, e) h
        | inr (ref, e) ↦
            (let (own, listed) = get-IsListed id ref s h e in
              let s' : Manager TrackName = record s {
                object = with_alias ref alias s.object;
                by_alias = set by_number alias ref s.by_alias;
              } in
              let changed : IsConsistent s' = with_alias-IsConsistent ref alias s listed h in
              let listed' : IsListed s' ref =
                rw ((with_alias-same ref alias ref s.object).0) listed in
              elim (Option-cases (s.object ref).track_alias) [
                | inl none_before ↦ rw (update_track_alias, e, none_before) changed
                | inr (before, had) ↦ elim (Bool-cases (before == alias)) [
                  | inl equal ↦ rw (update_track_alias, e, had, equal) changed
                  | inr other ↦
                      rw (update_track_alias, e, had, other)
                        (safe_register_alias-IsConsistent before ref s' listed' changed)
                ]
              ])
      ]

  register_optional-IsConsistent :
      (alias : Option ℕ) (ref : ℕ) (s : Manager TrackName)
      → IsListed s ref
      → IsConsistent s
      → IsConsistent (register_optional alias ref s)
  unfolding register_optional
  register_optional-IsConsistent none ref s listed h = h
  register_optional-IsConsistent (some alias) ref s listed h =
      safe_register_alias-IsConsistent alias ref s listed h

  register_optional-same :
      (alias : Option ℕ) (ref : ℕ) (s : Manager TrackName)
      → ((register_optional alias ref s).object ≡ s.object)
        × ((register_optional alias ref s).subscriptions ≡ s.subscriptions)
        × ((register_optional alias ref s).by_request_id ≡ s.by_request_id)
        × ((register_optional alias ref s).by_track_name ≡ s.by_track_name)
  unfolding register_optional safe_register_alias
  register_optional-same none ref s = (refl, refl, refl, refl)
  register_optional-same (some alias) ref s = elim (Bool-cases (collides alias ref s)) [
    | inl e ↦ rw (register_optional, e) (refl, refl, refl, refl)
    | inr e ↦ rw (register_optional, e) (refl, refl, refl, refl)
  ]

  request_set-IsConsistent :
      (request_id ref : ℕ) (s : Manager TrackName)
      → (s.object ref).request_id ≡ request_id
      → IsListed s ref
      → IsConsistent s
      → IsConsistent (record s { by_request_id = set by_number request_id ref s.by_request_id })
  request_set-IsConsistent request_id ref s own listed (ids, aliases, requests, names) = (
    ids,
    aliases,
    λ q r e.
        (let found = get-set by_number request_id q ref s.by_request_id in
          elim (Bool-cases (request_id == q)) [
            | inl here ↦
                (let same : ref ≡ r = ground (arith, found) in
                  let key : request_id ≡ q = ground arith in rw (← same) (listed, own ∙ key))
            | inr other ↦ requests q r (ground (arith, found))
          ]),
    names,
  )

module _ {TrackName : Type 0} (track_names : Keys TrackName) where
  pub add-IsConsistent :
      (ref : ℕ) (s : Manager TrackName)
      → get_subscription (s.object ref).subscription_id s ≡ none
      → IsConsistent s
      → IsConsistent (add track_names ref s)
  unfolding add get_subscription
  add-IsConsistent ref s fresh (ids, aliases, requests, names) =
      let sub = s.object ref in
      let id = sub.subscription_id in
      let listed_still = λ (r : ℕ) (listed : IsListed s r).
        listed_after_set id ref (s.object r).subscription_id r s.subscriptions fresh listed in
      let listed_new : get by_number id (set by_number id ref s.subscriptions) ≡ some ref =
        get-set by_number id id ref s.subscriptions ∙ rw (same_refl by_number id) refl in
      let s' : Manager TrackName = record s {
        subscriptions = set by_number id ref s.subscriptions;
        by_track_name = set track_names sub.track_name ref s.by_track_name;
      } in
      let consistent : IsConsistent s' = (
        All-set by_number (λ (e : ℕ × ℕ). (s.object e.1).subscription_id ≡ e.0) id ref
            s.subscriptions refl ids,
        All-imp s.by_alias (λ e h. listed_still e.1 h) aliases,
        λ q r e. (let (h, own) = requests q r e in (listed_still r h, own)),
        All-set track_names
            (λ (e : TrackName × ℕ). IsListed s' e.1 × ((s.object e.1).track_name ≡ e.0))
            sub.track_name ref s.by_track_name (listed_new, refl)
            (All-imp s.by_track_name (λ e h. (listed_still e.1 h.0, h.1)) names),
      ) in
      let (objects, subs, request_ids, names_same) =
        register_optional-same sub.track_alias ref s' in
      let s'' = register_optional sub.track_alias ref s' in
      let listed : IsListed s'' ref = rw (objects, subs) listed_new in
      request_set-IsConsistent sub.request_id ref s''
        (ap (λ (object : ℕ → Subscription TrackName). (object ref).request_id) objects) listed
        (register_optional-IsConsistent sub.track_alias ref s' listed_new consistent)

  listed_after_delete :
      (id other r : ℕ) (subs : List (ℕ × ℕ))
      → (other == id) ≡ false
      → get by_number other subs ≡ some r
      → get by_number other (delete by_number id subs) ≡ some r
  listed_after_delete id other r subs apart listed =
      let apart' : (id == other) ≡ false = ground arith in
      get-delete by_number id other subs ∙ rw apart' listed
