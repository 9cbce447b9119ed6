-- ===== src/Draft18/RangeFilter/Laws.antt =====
-- decodeRangeFilter on what encodeRangeFilter writes of the filters that pass the validation.
use moq_web.Base.{
  ℕ, zero, suc, ◌+◌, ◌-◌, ◌≤◌, ◌<◌, ◌≡◌, refl, sym, ap, ◌∙◌, ◌⊎◌, inl, inr, List, [], ◌∷◌, ◌++◌,
  length, Bool, true, false, Option, none, some, Option-cases, ok, >>=-eq-ok, ok-injective, arith,
}
use mathlib.Core.List.{append-nil, append_assoc}
use moq_web.Base.Int.{ℤ, pos, negsuc, ◌-ℤ◌}
use moq_web.Buffers.Reader.{BufferReader}
use moq_web.Draft18.Writer.{Field, var_int_field}
use moq_web.Draft18.Reader.{read_int, read_var_int, has_more}
use moq_web.Draft18.Cursor.{Stands, start, take_int, take_var_int, at_end, inside, before_back}
use moq_web.Draft18.Pairs.Total.{read_var_int-HasMoved}
use moq_web.Draft18.RangeFilter.{
  Range, is_empty, validate_range, validate_ranges, range_fields, read_ranges,
}

ℤ-cases : (z : ℤ) → ((n : ℕ) × (z ≡ pos n)) ⊎ ((n : ℕ) × (z ≡ negsuc n))
ℤ-cases (pos n) = inl (n, refl)
ℤ-cases (negsuc n) = inr (n, refl)

-- An end at or after the start and within bounds, or none behind the last range.
abbrev pub IsEnd : ℕ → ℕ → Bool → Option ℤ → Type 0
IsEnd s m is_last end =
    ((end ≡ none) × (is_last ≡ true)) ⊎ ((e : ℕ) × (end ≡ some (pos e)) × (s ≤ e) × (e ≤ m))

validate_range-parts :
    (range : Range) (p m : ℕ) (is_last : Bool)
    → validate_range range (pos p) m is_last ≡ ok tt
    → (s : ℕ) × (range.start ≡ pos s) × (p ≤ s) × (s ≤ m) × IsEnd s m is_last range.end
unfolding validate_range
validate_range-parts range p m is_last h = elim (ℤ-cases range.start) [
  | inr (n, e) ↦ absurd (let h' = rw (validate_range, e) at h in ground arith)
  | inl (s, e) ↦ elim (Option-cases range.end) [
    | inl none_e ↦
        (let h' = rw (validate_range, e, none_e) at h in
          (s, e, ground arith, ground arith, inl (none_e, ground arith)))
    | inr (z, some_e) ↦ elim (ℤ-cases z) [
      | inr (n, e') ↦ absurd (let h' = rw (validate_range, e, some_e, e') at h in ground arith)
      | inl (n, e') ↦
          (let h' = rw (validate_range, e, some_e, e') at h in
            (
              s,
              e,
              ground arith,
              ground arith,
              inr (n, some_e ∙ ap some e', ground arith, ground arith),
            ))
    ]
  ]
]

-- Ranges behind `p`, in order and up to `m`.
abbrev pub IsRanges : ℕ → ℕ → List Range → Type 0
IsRanges p m [] = Unit
IsRanges p m (range ∷ ranges) =
    (s : ℕ) × (range.start ≡ pos s)
    × (p ≤ s)
    × (s ≤ m)
    × (((range.end ≡ none) × (ranges ≡ []))
        ⊎ ((e : ℕ) × (range.end ≡ some (pos e)) × (s ≤ e) × (e ≤ m) × IsRanges e m ranges))

empty_eq : (ranges : List Range) → is_empty ranges ≡ true → ranges ≡ []
empty_eq [] h = refl
empty_eq (range ∷ ranges) h = absurd (ground arith)

pub validate_ranges-IsRanges :
    (p m : ℕ) (ranges : List Range) → validate_ranges (pos p) m ranges ≡ ok tt → IsRanges p m ranges
unfolding validate_ranges
validate_ranges-IsRanges p m [] h = tt
validate_ranges-IsRanges p m (range ∷ ranges) h =
    let (u, first, rest) = >>=-eq-ok (validate_range range (pos p) m (is_empty ranges)) _ h in
    let (s, start_e, low, high, end_e) = validate_range-parts range p m (is_empty ranges) first in
    elim end_e [
      | inl (none_e, last) ↦ (s, start_e, low, high, inl (none_e, empty_eq ranges last))
      | inr (e, some_e, over, under) ↦
          (let valid = validate_ranges-IsRanges e m ranges (rw some_e at rest) in
            (s, start_e, low, high, inr (e, some_e, over, under, valid)))
    ]

pub minus_pos : (s p : ℕ) → p ≤ s → (pos s -ℤ pos p) ≡ pos (s - p)
minus_pos s p h = ground arith

range_eq :
    (range : Range) (start : ℤ) (end : Option ℤ)
    → range.start ≡ start
    → range.end ≡ end
    → ◌≡◌ {A = Range} (record { start = start; end = end }) range
range_eq range start end e f = λ i. record { start = sym e i; end = sym f i }

module _ {buffer : List ℕ} where
  -- A reader at a number that was written has more, and the read moves it on.
  pub more :
      (z : ℤ) (fs : List Field) (r : BufferReader)
      → Stands buffer [] (var_int_field z ∷ fs) r
      → (has_more r ≡ true)
        × ((r' : BufferReader) → read_int r ≡ ok (z, r') → r.position < r'.position)
  unfolding has_more read_int
  more z fs r stands =
      let (r', read, rest) = take_int z fs r stands in
      let ((v, s), got, done) = >>=-eq-ok (read_var_int r) _ read in
      let (same, far) = read_var_int-HasMoved r s v got in
      let last : s ≡ r' = λ i. (ok-injective done i).1 in
      let within = inside fs r' rest in
      let buffers : r'.buffer ≡ r.buffer = ap (λ (t : BufferReader). t.buffer) (sym last) ∙ same in
      let positions : s.position ≡ r'.position = ap (λ (t : BufferReader). t.position) last in
      (
        ground (arith, ap length buffers),
        λ t read'.
            (let both : r' ≡ t = λ i. (ok-injective (sym read ∙ read') i).1 in
              omega (arith, ap (λ (u : BufferReader). u.position) both)),
      )

  has_more-field :
      (v : ℕ) (fs : List Field) (r : BufferReader)
      → Stands buffer [] (var_int_field (pos v) ∷ fs) r
      → has_more r ≡ true
  has_more-field v fs r stands = (more (pos v) fs r stands).0

  moves :
      (v : ℕ) (fs : List Field) (r r' : BufferReader)
      → Stands buffer [] (var_int_field (pos v) ∷ fs) r
      → read_var_int r ≡ ok (v, r')
      → r.position < r'.position
  unfolding read_int
  moves v fs r r' stands read = (more (pos v) fs r stands).1 r' (rw read refl)

  has_more-end : (r : BufferReader) → Stands buffer [] [] r → has_more r ≡ false
  unfolding has_more
  has_more-end r stands = rw (at_end r stands) (ground arith)

  pub take_ranges :
      (fuel p m : ℕ) (ranges done : List Range) (r : BufferReader)
      → length buffer - r.position < fuel
      → IsRanges p m ranges
      → Stands buffer [] (range_fields (pos p) ranges) r
      → read_ranges fuel p done r ≡ some (ok (done ++ ranges))
  unfolding read_ranges range_fields
  take_ranges zero p m ranges done r enough valid stands = absurd (omega arith)
  take_ranges (suc fuel) p m [] done r enough valid stands =
      rw (read_ranges, has_more-end r stands, append-nil done) refl
  take_ranges (suc fuel) p m (range ∷ ranges) done r enough (s, start_e, low, high, end_e) stands =
      let delta = rw (start_e, minus_pos s p low) at stands in
      let start_again : p + (s - p) ≡ s = omega arith in
      elim end_e [
        | inl (none_e, last) ↦
            (let here = rw none_e at delta in
              let (r1, read1, rest1) = take_var_int (s - p) [] r here in
              rw
                (
                  read_ranges,
                  has_more-field (s - p) [] r here,
                  read1,
                  has_more-end r1 rest1,
                  start_again,
                  range_eq range (pos s) none start_e none_e,
                  last,
                )
                refl)
        | inr (e, some_e, over, under, valid) ↦
            (let here = rw (some_e, start_e, minus_pos e s over) at delta in
              let later = var_int_field (pos (e - s)) ∷ range_fields (pos e) ranges in
              let (r1, read1, rest1) = take_var_int (s - p) later r here in
              let (r2, read2, rest2) =
                take_var_int (e - s) (range_fields (pos e) ranges) r1 rest1 in
              let end_again : s + (e - s) ≡ e = omega arith in
              rw
                (
                  read_ranges,
                  has_more-field (s - p) later r here,
                  read1,
                  has_more-field (e - s) (range_fields (pos e) ranges) r1 rest1,
                  read2,
                  start_again,
                  end_again,
                  range_eq range (pos s) (some (pos e)) start_e some_e,
                )
                (take_ranges fuel e m ranges (done ++ range ∷ []) r2
                    (omega (
                      arith,
                      moves (s - p) later r r1 here read1,
                      moves (e - s) (range_fields (pos e) ranges) r1 r2 rest1 read2,
                      before_back (range_fields (pos e) ranges) r2 rest2,
                    ))
                    valid rest2
                  ∙ ap (λ (t : List Range). some (ok t)) (append_assoc done (range ∷ []) ranges)))
      ]
