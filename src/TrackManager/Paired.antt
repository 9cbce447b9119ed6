-- ===== src/TrackManager/Paired.antt =====
-- Two maps to the same objects, one by a text and one by a number that is given out in turn: what keeps
-- them in step.
use moq_web.Base.{
  ℕ, suc, ◌==◌, ◌≤◌, ◌<◌, ◌≡◌, refl, sym, ap, ◌∙◌, List, false, Bool-cases, Option, none, some, inl,
  inr, All, All-imp, if◌then◌else◌, arith,
}
use moq_web.Base.Maps.{
  get, set, delete, get-set, get-delete, All-set, All-delete, All-get, by_number,
}
use moq_web.TrackManager.Names.{Text, same_text, same_text_iff, by_text}

-- The text and the number of each object.
pub record Labels : Type 0 where
  pub key : ℕ → Text
  pub number : ℕ → ℕ

-- An entry by text, for an object made before `objects`: the object has the text, and the map by numbers
-- leads to it.
abbrev pub Keyed : Labels → ℕ → List (ℕ × ℕ) → Text × ℕ → Type 0
Keyed labels objects by_num (k, ref) =
    (ref < objects) × (labels.key ref ≡ k) × (get by_number (labels.number ref) by_num ≡ some ref)

-- An entry by number, one given out before `numbers`.
abbrev pub Numbered : Labels → ℕ → ℕ → List (Text × ℕ) → ℕ × ℕ → Type 0
Numbered labels objects numbers by_key (n, ref) =
    (ref < objects)
    × (n < numbers)
    × (labels.number ref ≡ n)
    × (get by_text (labels.key ref) by_key ≡ some ref)

pub record IsPaired (labels : Labels) (objects numbers : ℕ) (by_key : List (Text × ℕ))
    (by_num : List (ℕ × ℕ)) : Type 0 where
  pub keyed : All (Keyed labels objects by_num) by_key
  pub numbered : All (Numbered labels objects numbers by_key) by_num

one_value : {a b : ℕ} {o : Option ℕ} → o ≡ some a → o ≡ some b → a ≡ b
one_value e f = cc

clash :
    (by_key : List (Text × ℕ)) (k k' : Text) (ref : ℕ)
    → k ≡ k'
    → get by_text k by_key ≡ none
    → get by_text k' by_key ≡ some ref
    → ⊥
clash by_key k k' ref same fresh back =
    let no : none ≡ some ref = sym fresh ∙ ap (λ (t : Text). get by_text t by_key) same ∙ back in
    absurd (ground arith)

is_other :
    (by_key : List (Text × ℕ)) (new : ℕ) (k k' : Text) (ref : ℕ)
    → get by_text k by_key ≡ none
    → get by_text k' by_key ≡ some ref
    → (if same_text k k' then some new else get by_text k' by_key) ≡ some ref
is_other by_key new k k' ref fresh back = elim (Bool-cases (same_text k k')) [
  | inr other ↦ rw other back
  | inl same ↦ absurd (clash by_key k k' ref ((same_text_iff k k').0 same) fresh back)
]

apart_text :
    (labels : Labels) (by_key : List (Text × ℕ)) (k : Text) (n ref r : ℕ)
    → get by_text k by_key ≡ some ref
    → get by_text (labels.key r) by_key ≡ some r
    → labels.number r ≡ n
    → (n == labels.number ref) ≡ false
    → same_text k (labels.key r) ≡ false
apart_text labels by_key k n ref r found back' same' other =
    elim (Bool-cases (same_text k (labels.key r))) [
      | inr e ↦ e
      | inl e ↦
          (let text = (same_text_iff k (labels.key r)).0 e in
            let same : ref ≡ r =
              one_value found (ap (λ (t : Text). get by_text t by_key) text ∙ back') in
            let level : labels.number ref ≡ n = ap labels.number same ∙ same' in
            absurd (ground arith))
    ]

module _ {labels : Labels} {objects numbers : ℕ} {by_key : List (Text × ℕ)}
    {by_num : List (ℕ × ℕ)} where
  pub get-Keyed :
      (k : Text) (ref : ℕ)
      → IsPaired labels objects numbers by_key by_num
      → get by_text k by_key ≡ some ref
      → Keyed labels objects by_num (k, ref)
  get-Keyed k ref h e = All-get by_text (Keyed labels objects by_num) k ref by_key h.keyed e

  pub get-Numbered :
      (n ref : ℕ)
      → IsPaired labels objects numbers by_key by_num
      → get by_number n by_num ≡ some ref
      → Numbered labels objects numbers by_key (n, ref)
  get-Numbered n ref h e =
      All-get by_number (Numbered labels objects numbers by_key) n ref by_num h.numbered e

  -- Objects whose labels stay, of some more that were made.
  pub relabel :
      (labels' : Labels) (objects' : ℕ)
      → objects ≤ objects'
      → ((r : ℕ)
          → r < objects
          → (labels'.key r ≡ labels.key r) × (labels'.number r ≡ labels.number r))
      → IsPaired labels objects numbers by_key by_num
      → IsPaired labels' objects' numbers by_key by_num
  relabel labels' objects' more stay h = record {
    keyed =
        All-imp {P = Keyed labels objects by_num} {Q = Keyed labels' objects' by_num} by_key
          (λ (k, ref) (below, named, led).
            (let (key_same, number_same) = stay ref below in
              (
                omega arith,
                key_same ∙ named,
                ap (λ (n : ℕ). get by_number n by_num) number_same ∙ led,
              )))
          h.keyed;
    numbered =
        All-imp {P = Numbered labels objects numbers by_key}
          {Q = Numbered labels' objects' numbers by_key} by_num
          (λ (n, ref) (below, given, named, led).
            (let (key_same, number_same) = stay ref below in
              (
                omega arith,
                given,
                number_same ∙ named,
                ap (λ (k : Text). get by_text k by_key) key_same ∙ led,
              )))
          h.numbered;
  }

  -- A new object under a new text, with the next number.
  pub add_pair :
      (k : Text)
      → labels.key objects ≡ k
      → labels.number objects ≡ numbers
      → get by_text k by_key ≡ none
      → IsPaired labels objects numbers by_key by_num
      → IsPaired labels
          (suc objects)
          (suc numbers)
          (set by_text k objects by_key)
          (set by_number numbers objects by_num)
  add_pair k named given fresh h =
      let by_key' = set by_text k objects by_key in
      let by_num' = set by_number numbers objects by_num in
      record {
        keyed =
            All-set by_text (Keyed labels (suc objects) by_num') k objects by_key
              (
                omega arith,
                named,
                rw (given, get-set by_number numbers numbers objects by_num) (ground arith),
              )
              (All-imp {P = Keyed labels objects by_num} {Q = Keyed labels (suc objects) by_num'}
                by_key
                (λ (k', ref) (below, named', led).
                  (let (below_, before, same, back) = get-Numbered (labels.number ref) ref h led in
                    let other : (numbers == labels.number ref) ≡ false = ground arith in
                    (
                      omega arith,
                      named',
                      rw (get-set by_number numbers (labels.number ref) objects by_num, other) led,
                    )))
                h.keyed);
        numbered =
            All-set by_number (Numbered labels (suc objects) (suc numbers) by_key') numbers objects
              by_num
              (
                omega arith,
                omega arith,
                given,
                rw (named, get-set by_text k k objects by_key, (same_text_iff k k).1 refl) refl,
              )
              (All-imp {P = Numbered labels objects numbers by_key}
                {Q = Numbered labels (suc objects) (suc numbers) by_key'} by_num
                (λ (n, ref) (below, before, same, back). (
                  omega arith,
                  omega arith,
                  same,
                  get-set by_text k (labels.key ref) objects by_key
                      ∙ is_other by_key objects k (labels.key ref) ref fresh back,
                ))
                h.numbered);
      }

  apart_number :
      (k k' : Text) (ref r : ℕ)
      → IsPaired labels objects numbers by_key by_num
      → get by_text k by_key ≡ some ref
      → labels.key r ≡ k'
      → get by_number (labels.number r) by_num ≡ some r
      → same_text k' k ≡ false
      → (labels.number ref == labels.number r) ≡ false
  apart_number k k' ref r h found named' led' other =
      elim (Bool-cases (labels.number ref == labels.number r)) [
        | inr e ↦ e
        | inl e ↦
            (let (below, named, led) = get-Keyed k ref h found in
              let level : labels.number ref ≡ labels.number r = ground arith in
              let same : ref ≡ r =
                one_value led (ap (λ (n : ℕ). get by_number n by_num) level ∙ led') in
              let text : k' ≡ k = sym named' ∙ ap labels.key (sym same) ∙ named in
              let told = (same_text_iff k' k).1 text in absurd (ground arith))
      ]

  -- An object that both maps forget.
  pub remove_pair :
      (k : Text) (ref : ℕ)
      → get by_text k by_key ≡ some ref
      → IsPaired labels objects numbers by_key by_num
      → IsPaired labels objects numbers
          (delete by_text k by_key)
          (delete by_number (labels.number ref) by_num)
  remove_pair k ref found h =
      let (below, named, led) = get-Keyed k ref h found in
      let by_key' = delete by_text k by_key in
      let by_num' = delete by_number (labels.number ref) by_num in
      record {
        keyed =
            All-imp
              {P = λ (e : Text × ℕ). Keyed labels objects by_num e × (same_text e.0 k ≡ false)}
              {Q = Keyed labels objects by_num'} by_key'
              (λ (k', r) ((below', named', led'), other).
                (let apart : (labels.number ref == labels.number r) ≡ false =
                    apart_number k k' ref r h found named' led' other in
                  (
                    below',
                    named',
                    rw (get-delete by_number (labels.number ref) (labels.number r) by_num, apart)
                        led',
                  )))
              (All-delete by_text (Keyed labels objects by_num) k by_key h.keyed);
        numbered =
            All-imp
              {P = λ (e : ℕ × ℕ).
                Numbered labels objects numbers by_key e × ((e.0 == labels.number ref) ≡ false)}
              {Q = Numbered labels objects numbers by_key'} by_num'
              (λ (n, r) ((below', given', same', back'), other).
                (let apart : same_text k (labels.key r) ≡ false =
                    apart_text labels by_key k n ref r found back' same' other in
                  (
                    below',
                    given',
                    same',
                    rw (get-delete by_text k (labels.key r) by_key, apart) back',
                  )))
              (All-delete by_number (Numbered labels objects numbers by_key) (labels.number ref)
                by_num h.numbered);
      }
