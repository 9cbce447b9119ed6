-- ===== src/NamespaceSubscriptions.antt =====
-- class IncomingNamespaceSubscriptions of packages/session/src/incoming-namespace-subscriptions.ts, and
-- namespacePrefixMatches of session-helpers.ts beside it. A namespace stands for its JSON text in the
-- sets of the program; its fields, and namespaces, are compared by the equalities given.
pub mod Prefix
pub mod Notices
pub mod Sequence
mod Runs
use moq_web.Base.{
  ℕ, ◌==◌, List, [], ◌∷◌, ◌++◌, length, drop, Bool, true, false, ◌||◌, Option, none, some, ltb,
  if◌then◌else◌,
}
use moq_web.Base.Maps.{Keys, get, set, delete, by_number}

pub data NamespaceChange : Type 0 where
  announced withdrawn : NamespaceChange

pub record NamespaceNotice (Name : Type 0) : Type 0 where
  pub request_id : ℕ
  pub change : NamespaceChange
  pub suffix : List Name

pub record Subscription (Name : Type 0) : Type 0 where
  pub prefix : List Name
  pub told : List (List Name)

-- The request IDs and their subscriptions, in the order of insertion.
abbrev pub Subscriptions : Type 0 → Type 0
Subscriptions Name = List (ℕ × Subscription Name)

-- What the equalities are that the operations use.
pub record Names (Name : Type 0) : Type 0 where
  pub fields : Keys Name
  pub namespaces : Keys (List Name)

module _ {Name : Type 0} (names : Names Name) where
  -- The loop of `namespacePrefixMatches`.
  unfoldable pub fields_match : List Name → List Name → Bool
  fields_match [] candidate = true
  fields_match (p ∷ prefix) [] = false
  fields_match (p ∷ prefix) (c ∷ candidate) =
      if names.fields.same c p then fields_match prefix candidate else false

  unfoldable pub namespace_prefix_matches : List Name → List Name → Bool
  namespace_prefix_matches prefix candidate =
      if ltb (length candidate) (length prefix) then false else fields_match prefix candidate

  -- `Set.has`, `Set.add` of what is not there, and `Set.delete`.
  unfoldable pub includes : List Name → List (List Name) → Bool
  includes namespace [] = false
  includes namespace (n ∷ ns) =
      if names.namespaces.same n namespace then true else includes namespace ns

  unfoldable pub without : List Name → List (List Name) → List (List Name)
  without namespace [] = []
  without namespace (n ∷ ns) =
      if names.namespaces.same n namespace then without namespace ns else n ∷ without namespace ns

  unfoldable pub overlaps : List Name → Option ℕ → Subscriptions Name → Bool
  overlaps prefix except [] = false
  overlaps prefix except ((id, s) ∷ subs) =
      if is_except except id
      then overlaps prefix except subs
      else if namespace_prefix_matches s.prefix prefix || namespace_prefix_matches prefix s.prefix
      then true
      else overlaps prefix except subs
    where
      is_except : Option ℕ → ℕ → Bool
      is_except none id = false
      is_except (some e) id = id == e

  unfoldable pub add : ℕ → List Name → Subscriptions Name → Subscriptions Name
  add id prefix subs = set by_number id (record { prefix = prefix; told = [] }) subs

  -- The announced namespaces that the new prefix matches.
  unfoldable pub still_told : List Name → List (List Name) → List (List Name)
  still_told prefix [] = []
  still_told prefix (n ∷ ns) =
      if namespace_prefix_matches prefix n then n ∷ still_told prefix ns else still_told prefix ns

  unfoldable pub update : ℕ → List Name → Subscriptions Name → Subscriptions Name
  update id prefix subs = elim (get by_number id subs) [
    | none ↦ subs
    | some s ↦ set by_number id (record { prefix = prefix; told = still_told prefix s.told }) subs
  ]

  unfoldable pub remove : ℕ → Subscriptions Name → Subscriptions Name
  remove id subs = delete by_number id subs

  unfoldable pub clear : Subscriptions Name → Subscriptions Name
  clear subs = []

  -- The body of the loop of `record`: whether the subscription is to be told, and what it has been.
  unfoldable pub tell : List Name → NamespaceChange → Subscription Name → Bool × Subscription Name
  tell namespace withdrawn s =
      if namespace_prefix_matches s.prefix namespace
      then (if includes namespace s.told
          then (true, record s { told = without namespace s.told })
          else (false, s))
      else (false, s)
  tell namespace announced s =
      if namespace_prefix_matches s.prefix namespace
      then (if includes namespace s.told
          then (false, s)
          else (true, record s { told = s.told ++ namespace ∷ [] }))
      else (false, s)

  unfoldable pub record_change :
      List Name
      → NamespaceChange
      → Subscriptions Name
      → List (NamespaceNotice Name) × Subscriptions Name
  record_change namespace change [] = ([], [])
  record_change namespace change ((id, s) ∷ subs) =
      let (tells, s') = tell namespace change s in
      let (notices, subs') = record_change namespace change subs in
      (
        (if tells
            then record {
              request_id = id;
              change = change;
              suffix = drop (length s.prefix) namespace;
            }
              ∷ notices
            else notices),
        (id, s') ∷ subs',
      )
