-- ===== src/Subscriptions/Consistent.antt =====
-- The four maps of SubscriptionManager agree.
use moq_web.Base.{
  ℕ, ◌==◌, ◌≡◌, refl, ◌∙◌, List, Bool-cases, inl, inr, none, some, All, All-imp, arith,
}
use moq_web.Base.Maps.{get, set, by_number, get-set, All-set, All-get}
use moq_web.Subscriptions.{Subscription, Manager, with_alias, collides, safe_register_alias}

-- A new subscription leaves those of other IDs listed.
pub listed_after_set :
    (id ref other r : ℕ) (subs : List (ℕ × ℕ))
    → get by_number id subs ≡ none
    → get by_number other subs ≡ some r
    → get by_number other (set by_number id ref subs) ≡ some r
listed_after_set id ref other r subs fresh listed =
    get-set by_number id other ref subs ∙ (elim (Bool-cases (id == other)) [
      | inr e ↦ rw e listed
      | inl e ↦
          (let same : id ≡ other = ground arith in
            let found : get by_number id subs ≡ some r = rw same listed in absurd (ground arith))
    ])

module _ {TrackName : Type 0} where
  -- The subscription of a reference is among the subscriptions, under its own ID.
  abbrev pub IsListed : Manager TrackName → ℕ → Type 0
  IsListed s r = get by_number (s.object r).subscription_id s.subscriptions ≡ some r

  -- Each entry of the maps leads to a listed subscription; those by ID, request ID and track name to
  -- one with that ID, request ID and name.
  abbrev pub IsConsistent : Manager TrackName → Type 0
  IsConsistent s =
      All (λ (e : ℕ × ℕ). (s.object e.1).subscription_id ≡ e.0) s.subscriptions
      × All (λ (e : ℕ × ℕ). IsListed s e.1) s.by_alias
      × ((request_id r : ℕ)
          → get by_number request_id s.by_request_id ≡ some r
          → IsListed s r × ((s.object r).request_id ≡ request_id))
      × All (λ (e : TrackName × ℕ). IsListed s e.1 × ((s.object e.1).track_name ≡ e.0))
          s.by_track_name

  pub safe_register_alias-IsConsistent :
      (alias ref : ℕ) (s : Manager TrackName)
      → IsListed s ref
      → IsConsistent s
      → IsConsistent (safe_register_alias alias ref s).0
  unfolding safe_register_alias
  safe_register_alias-IsConsistent alias ref s listed (ids, aliases, requests, names) =
      elim (Bool-cases (collides alias ref s)) [
        | inl e ↦ rw e (ids, aliases, requests, names)
        | inr e ↦ rw e (
          ids,
          All-set by_number (λ (e : ℕ × ℕ). IsListed s e.1) alias ref s.by_alias listed aliases,
          requests,
          names,
        )
      ]

  -- A changed alias leaves what the maps go by.
  pub with_alias-same :
      (ref alias r : ℕ) (object : ℕ → Subscription TrackName)
      → ((with_alias ref alias object r).subscription_id ≡ (object r).subscription_id)
        × ((with_alias ref alias object r).request_id ≡ (object r).request_id)
        × ((with_alias ref alias object r).track_name ≡ (object r).track_name)
  unfolding with_alias
  with_alias-same ref alias r object = elim (Bool-cases (r == ref)) [
    | inl e ↦ rw e (refl, refl, refl)
    | inr e ↦ rw e (refl, refl, refl)
  ]

  -- An ID leads to its own subscription.
  pub get-IsListed :
      (id ref : ℕ) (s : Manager TrackName)
      → IsConsistent s
      → get by_number id s.subscriptions ≡ some ref
      → ((s.object ref).subscription_id ≡ id) × IsListed s ref
  get-IsListed id ref s h e =
      let own =
        All-get by_number (λ (e : ℕ × ℕ). (s.object e.1).subscription_id ≡ e.0) id ref
          s.subscriptions h.0 e in
      (own, rw own e)

  pub with_alias-IsConsistent :
      (ref alias : ℕ) (s : Manager TrackName)
      → IsListed s ref
      → IsConsistent s
      → IsConsistent (record s {
        object = with_alias ref alias s.object;
        by_alias = set by_number alias ref s.by_alias;
      })
  with_alias-IsConsistent ref alias s listed (ids, aliases, requests, names) =
      let same = λ (r : ℕ). with_alias-same ref alias r s.object in
      (
        All-imp s.subscriptions (λ e h. (same e.1).0 ∙ h) ids,
        All-imp _ (λ e h. rw ((same e.1).0) h)
            (All-set by_number (λ (e : ℕ × ℕ). IsListed s e.1) alias ref s.by_alias listed aliases),
        λ q r e. (let (h, own) = requests q r e in (rw ((same r).0) h, (same r).1 ∙ own)),
        All-imp s.by_track_name (λ e h. (rw ((same e.1).0) h.0, (same e.1).2 ∙ h.1)) names,
      )
