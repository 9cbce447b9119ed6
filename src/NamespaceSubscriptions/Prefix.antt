-- ===== src/NamespaceSubscriptions/Prefix.antt =====
-- namespacePrefixMatches against the notion of a prefix.
use moq_web.Base.{
  ◌≡◌, ◌↔◌, refl, ap, ◌∙◌, List, [], ◌∷◌, ◌++◌, length, length-append, drop, true, false,
  Bool-cases, inl, inr, ltb, arith, cons_eq,
}
use moq_web.Base.Maps.{same_refl}
use moq_web.NamespaceSubscriptions.{Names, fields_match, namespace_prefix_matches}

module _ {Name : Type 0} (names : Names Name) where
  fields_match-suffix :
      (prefix candidate : List Name)
      → fields_match names prefix candidate ≡ true
      → candidate ≡ prefix ++ drop (length prefix) candidate
  unfolding fields_match
  fields_match-suffix [] candidate e = refl
  fields_match-suffix (p ∷ prefix) [] e = absurd (ground arith)
  fields_match-suffix (p ∷ prefix) (c ∷ candidate) e = elim (Bool-cases (names.fields.same c p)) [
    | inl h ↦
        cons_eq ((names.fields.same_iff c p).0 h) (fields_match-suffix prefix candidate (rw h at e))
    | inr h ↦ absurd (ground arith)
  ]

  fields_match-append :
      (prefix suffix : List Name) → fields_match names prefix (prefix ++ suffix) ≡ true
  unfolding fields_match
  fields_match-append [] suffix = refl
  fields_match-append (p ∷ prefix) suffix =
      rw (same_refl names.fields p) (fields_match-append prefix suffix)

  -- A namespace matches a prefix just if it is the prefix and further fields, which are then those that
  -- record cuts out as the suffix.
  pub namespace_prefix_matches_iff :
      (prefix candidate : List Name)
      → (namespace_prefix_matches names prefix candidate ≡ true)
        ↔ (candidate ≡ prefix ++ drop (length prefix) candidate)
  unfolding namespace_prefix_matches
  namespace_prefix_matches_iff prefix candidate =
      let suffix = drop (length prefix) candidate in
      let short = ltb (length candidate) (length prefix) in
      (
        (λ e. (elim (Bool-cases short) [
          | inl h ↦ absurd (ground arith)
          | inr h ↦ fields_match-suffix prefix candidate (rw h at e)
        ])),
        (λ e.
            (let long : short ≡ false = ground (arith, ap length e, length-append prefix suffix) in
              rw long (ap (fields_match names prefix) e ∙ fields_match-append prefix suffix))),
      )
