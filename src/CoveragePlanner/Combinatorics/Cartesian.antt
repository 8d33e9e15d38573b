-- ===== src/CoveragePlanner/Combinatorics/Cartesian.antt =====
-- What the full grid of facet values holds.
use domain_determine.Base.{
  String, ◌≡◌, ◌↔◌, inl, inr, refl, sym, ap, ◌∙◌, Bool, true, false, ◌&&◌, List, [], ◌∷◌, arith,
  ◌==◌, nat_eq, string_eq, Bool-cases, absurd_bool, or_left, or_right, contains, contains-append,
}
use mathlib.Core.Path.{subst}
use domain_determine.CoveragePlanner.Combinatorics.{
  Pair, pair_eq, Selection, selection_eq, same_pair, same_selection, same_selection_iff, normalize,
  is_invalid, Facets, prefixed, with_values, combinations_of, admissible, expand_full,
}

-- One value of each facet, in the order of the facets.
abbrev pub picks : Facets → Selection → Bool
picks [] [] = true
picks ((name, values) ∷ rest) ((n, v) ∷ c) = (name == n && contains values v) && picks rest c
picks _ _ = false

contains-prefixed :
    (p : Pair) (cs : List Selection) (q : Pair) (c : Selection)
    → contains (prefixed p cs) (q ∷ c) ≡ (same_pair p q && contains cs c)
unfolding contains prefixed
contains-prefixed p [] q c = ground arith
contains-prefixed p (d ∷ cs) q c = ground (arith, contains-prefixed p cs q c)

contains-prefixed_empty : (p : Pair) (cs : List Selection) → contains (prefixed p cs) [] ≡ false
unfolding contains prefixed
contains-prefixed_empty p [] = refl
contains-prefixed_empty p (d ∷ cs) = contains-prefixed_empty p cs

contains-with_values :
    (name : String) (values : List String) (cs : List Selection) (n v : String) (c : Selection)
    → contains (with_values name values cs) ((n, v) ∷ c)
      ≡ ((name == n && contains values v) && contains cs c)
unfolding contains with_values
contains-with_values name [] cs n v c = ground arith
contains-with_values name (w ∷ values) cs n v c =
    contains-append (prefixed (name, w) cs) (with_values name values cs) ((n, v) ∷ c)
    ∙ rw (contains-prefixed, contains-with_values name values cs n v c) (ground arith)

contains-with_values_empty :
    (name : String) (values : List String) (cs : List Selection)
    → contains (with_values name values cs) [] ≡ false
unfolding contains with_values
contains-with_values_empty name [] cs = refl
contains-with_values_empty name (w ∷ values) cs =
    contains-append (prefixed (name, w) cs) (with_values name values cs) []
    ∙ rw (contains-prefixed_empty, contains-with_values_empty name values cs) refl

contains-combinations_of :
    (facets : Facets) (c : Selection) → contains (combinations_of facets) c ≡ picks facets c
unfolding contains combinations_of
contains-combinations_of [] [] = refl
contains-combinations_of [] (p ∷ c) = refl
contains-combinations_of ((name, values) ∷ rest) [] =
    contains-with_values_empty name values (combinations_of rest)
contains-combinations_of ((name, values) ∷ rest) ((n, v) ∷ c) =
    contains-with_values name values (combinations_of rest) n v c
    ∙ ap (λ b. (name == n && contains values v) && b) (contains-combinations_of rest c)

admissible-contains :
    (invalid cs : List Selection) (s : Selection)
    → contains (admissible invalid cs) s ≡ true
    → (c : Selection) × (contains cs c ≡ true) × (normalize c ≡ s) × (is_invalid s invalid ≡ false)
unfolding contains admissible
admissible-contains invalid [] s h = absurd_bool (sym h)
admissible-contains invalid (c ∷ cs) s h = elim (Bool-cases (is_invalid (normalize c) invalid)) [
  | inl bad ↦
      let (x, here, is, ok) = admissible-contains invalid cs s (rw (bad, admissible) at h) in
      (x, or_right _ _ here, is, ok)
  | inr good ↦
      let h' = rw (good, admissible) at h in
      elim (Bool-cases (same_selection (normalize c) s)) [
        | inl same ↦
            let is = (same_selection_iff (normalize c) s).0 same in
            (
              c,
              or_left _ _ ((same_selection_iff c c).1 refl),
              is,
              ap (λ x. is_invalid x invalid) (sym is) ∙ good,
            )
        | inr differs ↦
            let (x, here, is, ok) = admissible-contains invalid cs s (ground (arith, h')) in
            (x, or_right _ _ here, is, ok)
      ]
]

contains-admissible :
    (invalid cs : List Selection) (c : Selection)
    → contains cs c ≡ true
    → is_invalid (normalize c) invalid ≡ false
    → contains (admissible invalid cs) (normalize c) ≡ true
unfolding contains admissible
contains-admissible invalid [] c h ok = cc
contains-admissible invalid (d ∷ cs) c h ok = elim (Bool-cases (same_selection d c)) [
  | inl same ↦
      let is = ap normalize ((same_selection_iff d c).0 same) in
      rw (ap (λ x. is_invalid x invalid) is ∙ ok) (or_left _ _ ((same_selection_iff _ _).1 is))
  | inr differs ↦
      let later = contains-admissible invalid cs c (ground (arith, h)) ok in
      elim (Bool-cases (is_invalid (normalize d) invalid)) [
        | inl bad ↦ rw bad later
        | inr good ↦ rw good (or_right _ _ later)
      ]
]

-- The full grid holds exactly the selections that take one value of each facet, sorted by facet, and
-- that are not invalid.
pub expand_full_lem :
    (facets : Facets) (invalid : List Selection) (s : Selection)
    → (contains (expand_full facets invalid) s ≡ true) ↔ (
        (c : Selection) × (picks facets c ≡ true)
        × (normalize c ≡ s)
        × (is_invalid s invalid ≡ false))
unfolding expand_full
expand_full_lem facets invalid s = (
  (λ h.
      let (c, here, is, ok) = admissible-contains invalid (combinations_of facets) s h in
      (c, sym (contains-combinations_of facets c) ∙ here, is, ok)),
  (λ (c, picked, is, ok).
      subst (λ x. contains (admissible invalid (combinations_of facets)) x ≡ true) is
        (contains-admissible invalid (combinations_of facets) c
          (contains-combinations_of facets c ∙ picked) (ap (λ x. is_invalid x invalid) is ∙ ok))),
)
