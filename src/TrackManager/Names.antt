-- ===== src/TrackManager/Names.antt =====
-- The keys of tracks and namespaces: trackNameToKey, namespaceToKey, keyToTrackName and
-- namespaceMatchesPrefix. A string is the list of its code units.
pub mod Laws
pub use moq_web.Base.Texts.{Text, same_text, same_text_iff, by_text}
use moq_web.Base.{
  ℕ, zero, suc, ◌+◌, ◌==◌, ==_iff, ◌≡◌, ◌≢◌, ◌↔◌, refl, ap, List, [], ◌∷◌, ◌++◌, length, take, drop,
  Bool, true, false, ◌&&◌, Option, none, some, ltb, if◌then◌else◌, arith, subst,
}
use moq_web.Base.Maps.{Keys}

-- `/` and `:`
abbrev pub slash : ℕ
slash = 47

abbrev pub colon : ℕ
colon = 58

-- `parts.join('/')` and `text.split('/')`
unfoldable pub join : List Text → Text
join [] = []
join (part ∷ []) = part
join (part ∷ next ∷ parts) = part ++ slash ∷ join (next ∷ parts)

unfoldable pub add_to_first : ℕ → List Text → List Text
add_to_first c [] = (c ∷ []) ∷ []
add_to_first c (part ∷ parts) = (c ∷ part) ∷ parts

unfoldable pub split : Text → List Text
split [] = [] ∷ []
split (c ∷ text) = let rest = split text in if c == slash then [] ∷ rest else add_to_first c rest

-- `text.lastIndexOf(':')`, where it has one.
unfoldable pub last_index_of : ℕ → Text → Option ℕ
last_index_of c [] = none
last_index_of c (d ∷ text) = elim (last_index_of c text) [
  | some i ↦ some (suc i)
  | none ↦ if d == c then some 0 else none
]

-- interface FullTrackName
pub record FullTrackName : Type 0 where
  pub namespace : List Text
  pub track_name : Text

unfoldable pub track_name_to_key : FullTrackName → Text
unfolding join
track_name_to_key name = join name.namespace ++ colon ∷ name.track_name

unfoldable pub namespace_to_key : List Text → Text
unfolding join
namespace_to_key namespace = join namespace

-- It throws where there is no colon.
unfoldable pub key_to_track_name : Text → Option FullTrackName
key_to_track_name key = elim (last_index_of colon key) [
  | none ↦ none
  | some i ↦ some (record { namespace = split (take i key); track_name = drop (i + 1) key })
]

-- The loop over the prefix, no longer than the namespace.
unfoldable pub matches_from : List Text → List Text → Bool
matches_from namespace [] = true
matches_from [] (p ∷ prefix) = false
matches_from (part ∷ namespace) (p ∷ prefix) =
    let rest = matches_from namespace prefix in if same_text part p then rest else false

unfoldable pub namespace_matches_prefix : List Text → List Text → Bool
unfolding matches_from
namespace_matches_prefix namespace prefix =
    if ltb (length namespace) (length prefix) then false else matches_from namespace prefix
