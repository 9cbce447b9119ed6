-- ===== src/TrackManager/Names/Laws.antt =====
-- What the keys tell of the names, and when a namespace has a prefix.
use moq_web.Base.{
  ℕ, suc, ◌+◌, ◌==◌, ◌≡◌, ◌↔◌, refl, ap, ◌∙◌, List, [], ◌∷◌, ◌++◌, length, drop, true, false,
  Bool-cases, none, some, inl, inr, All, ltb, length-append, take-append_length, arith,
}
use moq_web.TrackManager.Names.{
  Text, slash, colon, same_text, same_text_iff, join, add_to_first, split, last_index_of,
  track_name_to_key, key_to_track_name, matches_from, namespace_matches_prefix,
}

-- A code unit that is not the given one.
abbrev pub IsNot : ℕ → ℕ → Type 0
IsNot c d = (d == c) ≡ false

abbrev pub Without : ℕ → Text → Type 0
Without c text = All (IsNot c) text

split_part : (part : Text) → Without slash part → split part ≡ part ∷ []
unfolding split add_to_first
split_part [] h = refl
split_part (c ∷ part) (h, hs) = rw (h, split_part part hs) refl

split-join :
    (part : Text) (parts : List Text)
    → All (Without slash) (part ∷ parts)
    → split (join (part ∷ parts)) ≡ part ∷ parts
unfolding split join add_to_first
split-join part [] (h, hs) = split_part part h
split-join [] (next ∷ parts) (h, hs) = ap (λ (t : List Text). [] ∷ t) (split-join next parts hs)
split-join (c ∷ part) (next ∷ parts) ((h, h'), hs) =
    rw (h, split-join part (next ∷ parts) (h', hs)) refl

last_index_of-none : (c : ℕ) (text : Text) → Without c text → last_index_of c text ≡ none
unfolding last_index_of
last_index_of-none c [] h = refl
last_index_of-none c (d ∷ text) (h, hs) = rw (last_index_of-none c text hs, h) refl

last_index_of-append :
    (c : ℕ) (front back : Text)
    → Without c back
    → last_index_of c (front ++ c ∷ back) ≡ some (length front)
unfolding last_index_of
last_index_of-append c [] back h =
    let here : (c == c) ≡ true = ground arith in rw (last_index_of-none c back h, here) refl
last_index_of-append c (d ∷ front) back h = rw (last_index_of-append c front back h) refl

behind_colon : (front name : Text) → drop (length front + 1) (front ++ colon ∷ name) ≡ name
behind_colon [] name = refl
behind_colon (c ∷ front) name =
    let step : suc (length front) + 1 ≡ suc (length front + 1) = omega arith in
    ap (λ (k : ℕ). drop k (c ∷ front ++ colon ∷ name)) step ∙ behind_colon front name

read_key :
    (front name : Text)
    → Without colon name
    → key_to_track_name (front ++ colon ∷ name)
      ≡ some (record { namespace = split front; track_name = name })
unfolding key_to_track_name
read_key front name no_colon =
    rw
      (
        key_to_track_name,
        last_index_of-append colon front name no_colon,
        take-append_length front (colon ∷ name),
        behind_colon front name,
      )
      refl

-- keyToTrackName reads a key of trackNameToKey as the name it was made of, when the namespace has a
-- part, no part has a slash, and the track name has no colon.
pub key_to_track_name-key :
    (part : Text) (parts : List Text) (name : Text)
    → All (Without slash) (part ∷ parts)
    → Without colon name
    → key_to_track_name (track_name_to_key (record { namespace = part ∷ parts; track_name = name }))
      ≡ some (record { namespace = part ∷ parts; track_name = name })
unfolding track_name_to_key
key_to_track_name-key part parts name no_slash no_colon =
    read_key (join (part ∷ parts)) name no_colon
    ∙ ap (λ (t : List Text). some (record { namespace = t; track_name = name }))
        (split-join part parts no_slash)

starts_with :
    (namespace prefix : List Text)
    → matches_from namespace prefix ≡ true
    → (rest : List Text) × (namespace ≡ prefix ++ rest)
unfolding matches_from
starts_with namespace [] h = (namespace, refl)
starts_with [] (p ∷ prefix) h = absurd (ground arith)
starts_with (part ∷ namespace) (p ∷ prefix) h = elim (Bool-cases (same_text part p)) [
  | inr other ↦ absurd (ground arith)
  | inl same ↦
      (let (rest, e) = starts_with namespace prefix (rw same at h) in
        let head = (same_text_iff part p).0 same in (rest, λ i. head i ∷ e i))
]

matches-append : (prefix rest : List Text) → matches_from (prefix ++ rest) prefix ≡ true
unfolding matches_from
matches-append [] rest = refl
matches-append (p ∷ prefix) rest = rw ((same_text_iff p p).1 refl) (matches-append prefix rest)

-- namespaceMatchesPrefix holds just of the namespaces that go on from the prefix, part by part.
pub namespace_matches_prefix_iff :
    (namespace prefix : List Text)
    → (namespace_matches_prefix namespace prefix ≡ true)
      ↔ ((rest : List Text) × (namespace ≡ prefix ++ rest))
unfolding namespace_matches_prefix
namespace_matches_prefix_iff namespace prefix = (
  λ h. starts_with namespace prefix (ground arith),
  λ (rest, e).
      (let long : ltb (length namespace) (length prefix) ≡ false =
          ground (arith, ap length e, length-append prefix rest) in
        rw (long, e) (matches-append prefix rest)),
)
