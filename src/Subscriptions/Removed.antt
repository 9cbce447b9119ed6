-- ===== src/Subscriptions/Removed.antt =====
-- What SubscriptionManager.remove leaves.
use moq_web.Base.{
  ℕ, ◌==◌, ◌≡◌, ◌≢◌, refl, sym, ap, ◌∙◌, List, true, false, Bool-cases, not, inl, inr, none, some,
  Option-cases, All, All-imp, arith, if◌then◌else◌,
}
use moq_web.Base.Maps.{
  Keys, get, delete, keep, by_number, get-delete, All-delete, All-keep, All-get, same_refl,
}
use moq_web.Subscriptions.{
  Manager, get_subscription, get_by_alias, find_by_request_id, delete_request, remove,
  get_by_track_name,
}
use moq_web.Subscriptions.Consistent.{IsListed, IsConsistent}

not_equal : (a b : ℕ) → (a == b) ≡ false → a ≢ b
not_equal a b h e = absurd (ground arith)

listed_after_delete :
    (id other r : ℕ) (subs : List (ℕ × ℕ))
    → (other == id) ≡ false
    → get by_number other subs ≡ some r
    → get by_number other (delete by_number id subs) ≡ some r
listed_after_delete id other r subs apart listed =
    let apart' : (id == other) ≡ false = ground arith in
    get-delete by_number id other subs ∙ rw apart' listed

module _ {TrackName : Type 0} where
  -- Two references with one ID, listed, are one.
  same_listed :
      (id ref r : ℕ) (s : Manager TrackName)
      → get by_number id s.subscriptions ≡ some ref
      → IsListed s r
      → ((s.object r).subscription_id == id) ≡ true
      → r ≡ ref
  same_listed id ref r s e listed h =
      let own : (s.object r).subscription_id ≡ id = ground arith in
      let found : get by_number id s.subscriptions ≡ some r = rw (← own) listed in ground arith

  -- A request's entry that is left is that of another subscription.
  delete_request-other :
      (id ref q r : ℕ) (s : Manager TrackName)
      → IsConsistent s
      → get by_number id s.subscriptions ≡ some ref
      → get by_number q (delete_request id (s.object ref).request_id s) ≡ some r
      → (get by_number q s.by_request_id ≡ some r) × (((s.object r).subscription_id == id) ≡ false)
  unfolding delete_request
  delete_request-other id ref q r s (ids, aliases, requests, names) e found =
      let key = (s.object ref).request_id in
      let deleted = get-delete by_number key q s.by_request_id in
      let before : get by_number q s.by_request_id ≡ some r = ground (arith, deleted) in
      let (listed, own) = requests q r before in
      (
        before,
        elim (Bool-cases ((s.object r).subscription_id == id)) [
          | inr other ↦ other
          | inl here ↦
              (let one = same_listed id ref r s e listed here in
                let key_here : key ≡ q = rw (← one) own in
                let at_key : get by_number key s.by_request_id ≡ some r = rw key_here before in
                absurd (ground (arith, deleted)))
        ],
      )

module _ {TrackName : Type 0} (track_names : Keys TrackName) where
  pub remove-eq :
      (id ref : ℕ) (s : Manager TrackName)
      → get by_number id s.subscriptions ≡ some ref
      → remove track_names id s ≡ (
        record s {
          subscriptions = delete by_number id s.subscriptions;
          by_track_name = delete track_names (s.object ref).track_name s.by_track_name;
          by_alias = keep (λ r. not ((s.object r).subscription_id == id)) s.by_alias;
          by_request_id = delete_request id (s.object ref).request_id s;
        },
        some ref,
      )
  unfolding remove
  remove-eq id ref s e = rw (remove, e) refl

  -- The entries that are left, each of another subscription.
  left_apart :
      (id ref : ℕ) (s : Manager TrackName)
      → IsConsistent s
      → get by_number id s.subscriptions ≡ some ref
      → All
          (λ (e : ℕ × ℕ). IsListed s e.1 × (((s.object e.1).subscription_id == id) ≡ false))
          (keep (λ r. not ((s.object r).subscription_id == id)) s.by_alias)
        × All
            (λ (e : TrackName × ℕ).
              IsListed s e.1
              × ((s.object e.1).track_name ≡ e.0)
              × (((s.object e.1).subscription_id == id) ≡ false))
            (delete track_names (s.object ref).track_name s.by_track_name)
  left_apart id ref s (ids, aliases, requests, names) e = (
    All-imp _ (λ x h. (h.0, ground (arith, h.1)))
        (All-keep (λ (e : ℕ × ℕ). IsListed s e.1) (λ r. not ((s.object r).subscription_id == id))
          s.by_alias aliases),
    All-imp _
        (λ x h.
          (let ((listed, own), other) = h in
            (
              listed,
              own,
              elim (Bool-cases ((s.object x.1).subscription_id == id)) [
                | inr apart ↦ apart
                | inl here ↦
                    (let one = same_listed id ref x.1 s e listed here in
                      let key : x.0 ≡ (s.object ref).track_name =
                        sym own ∙ ap (λ (r : ℕ). (s.object r).track_name) one in
                      let same : track_names.same x.0 (s.object ref).track_name ≡ true =
                        (track_names.same_iff _ _).1 key in
                      absurd (ground arith))
              ],
            )))
        (All-delete track_names
          (λ (e : TrackName × ℕ). IsListed s e.1 × ((s.object e.1).track_name ≡ e.0))
          (s.object ref).track_name s.by_track_name names),
  )

  pub remove-IsConsistent :
      (id : ℕ) (s : Manager TrackName) → IsConsistent s → IsConsistent (remove track_names id s).0
  unfolding remove
  remove-IsConsistent id s h = elim (Option-cases (get by_number id s.subscriptions)) [
    | inl e ↦ rw (remove, e) h
    | inr (ref, e) ↦
        (let (aliases, names) = left_apart id ref s h e in
          let still =
            λ (r : ℕ) (listed : IsListed s r)
                (apart : ((s.object r).subscription_id == id) ≡ false).
              listed_after_delete id (s.object r).subscription_id r s.subscriptions apart listed in
          rw (remove-eq id ref s e) (
            All-imp _ (λ x k. k.0)
                (All-delete by_number (λ (e : ℕ × ℕ). (s.object e.1).subscription_id ≡ e.0) id
                  s.subscriptions h.0),
            All-imp _ (λ x k. still x.1 k.0 k.1) aliases,
            λ q r found.
                (let (before, apart) = delete_request-other id ref q r s h e found in
                  let (listed, own) = h.2 q r before in (still r listed apart, own)),
            All-imp _ (λ x k. (still x.1 k.0 k.2, k.1)) names,
          ))
  ]

  -- On maps that agree, remove of an ID in use gives back its subscription, and no ID, alias, request
  -- ID or track name leads to a subscription of that ID afterwards.
  pub remove-forgets :
      (id ref : ℕ) (s : Manager TrackName)
      → IsConsistent s
      → get_subscription id s ≡ some ref
      → let s' = (remove track_names id s).0 in
        ((remove track_names id s).1 ≡ some ref)
        × (get_subscription id s' ≡ none)
        × ((alias r : ℕ) → get_by_alias alias s' ≡ some r → (s'.object r).subscription_id ≢ id)
        × ((q r : ℕ) → find_by_request_id q s' ≡ some r → (s'.object r).subscription_id ≢ id)
        × ((name : TrackName) (r : ℕ)
            → get_by_track_name track_names name s' ≡ some r
            → (s'.object r).subscription_id ≢ id)
  unfolding get_subscription get_by_alias find_by_request_id get_by_track_name
  remove-forgets id ref s h e =
      let (aliases, names) = left_apart id ref s h e in
      let apart = λ (r : ℕ) (other : ((s.object r).subscription_id == id) ≡ false).
        not_equal (s.object r).subscription_id id other in
      rw (remove-eq id ref s e) (
        refl,
        get-delete by_number id id s.subscriptions ∙ rw (same_refl by_number id) refl,
        λ alias r found. apart r (All-get by_number _ alias r _ aliases found).1,
        λ q r found. apart r (delete_request-other id ref q r s h e found).1,
        λ name r found. apart r (All-get track_names _ name r _ names found).2,
      )

  -- remove of an ID in use leaves no entry for the subscription's track name, whichever subscription
  -- the entry led to, and changes the entry of no other name.
  pub remove-track_name :
      (id ref : ℕ) (name : TrackName) (s : Manager TrackName)
      → get_subscription id s ≡ some ref
      → get_by_track_name track_names name (remove track_names id s).0 ≡ (
          if track_names.same (s.object ref).track_name name
          then none
          else get_by_track_name track_names name s)
  unfolding get_subscription get_by_track_name
  remove-track_name id ref name s e =
      rw (remove-eq id ref s e)
        (get-delete track_names (s.object ref).track_name name s.by_track_name)
