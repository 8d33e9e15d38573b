-- ===== src/CoveragePlanner/Combinatorics.antt =====
-- src/DomainDetermine/coverage_planner/combinatorics.py. A mapping of facets is a Dict in the order of
-- its keys, each of which it has once. A Python set of pairs is a list without repetitions, of which
-- the code only counts and tests. The `while` loop runs on fuel.
pub mod Cartesian
pub mod Stuck
use domain_determine.Base.{
  ℕ, zero, suc, ◌+◌, ◌-◌, ◌*◌, ◌/◌, ◌%◌, ◌≤◌, ◌<◌, String, ◌≡◌, ◌≢◌, ◌↔◌, ◌⊎◌, inl, inr, refl, sym,
  ap, ◌∙◌, Bool, true, false, not, ◌&&◌, ◌||◌, Option, none, some, List, [], ◌∷◌, ◌++◌, map, arith,
  Eq, ◌==◌, nat_eq, string_eq, nat_beq, eq_of_discrete, if◌then◌else◌, ltb, leb, is_some, get_or,
  Bool-cases, Option-cases, length, keep, every, some_of, contains, add, to_set, subset, meets,
  insert_sorted, sorted, text_le, All, length-append, contains-append, contains-add,
  contains-to_set, contains_of_subset, subset_mono, contains-sorted, show, ◌<>◌, emit, digit, value,
  code-digit, value-show, show-injective, numbered-injective, truthy, truthy_opt, is_space,
  strip_left, strip_right, strip, prepend, split, split_once, eq_iff,
}
use domain_determine.Base.Dict.{Dict}

-- A facet and one of its values.
abbrev pub Pair : Type 0
Pair = String × String

abbrev pub Selection : Type 0
Selection = List Pair

both : (a b : Bool) → a ≡ true → b ≡ true → (a && b) ≡ true
both a b h k = ground arith

and_left : (a b : Bool) → (a && b) ≡ true → a ≡ true
and_left a b h = ground arith

and_right : (a b : Bool) → (a && b) ≡ true → b ≡ true
and_right a b h = ground arith

abbrev pub same_pair : Pair → Pair → Bool
same_pair (a, b) (c, d) = a == c && b == d

pub same_pair_iff : (x y : Pair) → (same_pair x y ≡ true) ↔ (x ≡ y)
same_pair_iff (a, b) (c, d) = (
  λ h.
      ap (λ x. (x, b)) ((eq_iff a c).0 (and_left _ _ h))
      ∙ ap (λ y. (c, y)) ((eq_iff b d).0 (and_right _ _ h)),
  λ e.
      both _ _ ((eq_iff a c).1 (ap (λ (p : Pair). p.0) e))
        ((eq_iff b d).1 (ap (λ (p : Pair). p.1) e)),
)

instance abbrev pub pair_eq : Eq Pair
pair_eq = record { same = same_pair; same_iff = same_pair_iff }

unfoldable pub insert_by_name : Pair → Selection → Selection
insert_by_name p [] = p ∷ []
insert_by_name p (q ∷ qs) = if text_le p.0 q.0 then p ∷ q ∷ qs else q ∷ insert_by_name p qs

-- _normalize_combination: sorted by facet, which keeps the order of equal facets
unfoldable pub normalize : Selection → Selection
unfolding insert_by_name
normalize [] = []
normalize (p ∷ ps) = insert_by_name p (normalize ps)

-- _is_invalid
unfoldable pub is_invalid : Selection → List Selection → Bool
unfolding some_of subset
is_invalid combo invalid_sets = some_of (λ invalid. subset invalid combo) invalid_sets

abbrev pub Facets : Type 0
Facets = Dict (List String)

-- The pairs of one value with the values of another facet, of two facets, and of a facet with those
-- after it.
unfoldable pub pairs_of_value : String → String → String → List String → List Selection
unfolding normalize
pairs_of_value name_a value_a name_b [] = []
pairs_of_value name_a value_a name_b (value_b ∷ values) =
    normalize ((name_a, value_a) ∷ (name_b, value_b) ∷ [])
    ∷ pairs_of_value name_a value_a name_b values

unfoldable pub pairs_of_facets : String → List String → String → List String → List Selection
unfolding pairs_of_value
pairs_of_facets name_a [] name_b values_b = []
pairs_of_facets name_a (value_a ∷ values) name_b values_b =
    pairs_of_value name_a value_a name_b values_b ++ pairs_of_facets name_a values name_b values_b

unfoldable pub pairs_with : String → List String → Facets → List Selection
unfolding pairs_of_facets
pairs_with name_a values_a [] = []
pairs_with name_a values_a ((name_b, values_b) ∷ rest) =
    pairs_of_facets name_a values_a name_b values_b ++ pairs_with name_a values_a rest

-- _all_pairs
unfoldable pub all_pairs : Facets → List Selection
unfolding pairs_with
all_pairs [] = []
all_pairs ((name, values) ∷ rest) = pairs_with name values rest ++ all_pairs rest

-- sum(1 for pair in uncovered if set(pair).issubset(set(candidate)))
unfoldable pub covered_pairs : Selection → List Selection → ℕ
unfolding keep subset
covered_pairs candidate uncovered = length (keep (λ pair. subset pair candidate) uncovered)

-- A value is better than the best one so far; no value has the score -1.
abbrev pub better : Option (String × ℕ) → String → ℕ → Option (String × ℕ)
better none value score = some (value, score)
better (some (best, best_score)) value score =
    if ltb best_score score then some (value, score) else some (best, best_score)

-- The choice among the values of a facet, with the best one so far.
unfoldable pub best_value :
    List Selection
    → List Selection
    → Selection
    → String
    → Option (String × ℕ)
    → List String
    → Option (String × ℕ)
unfolding normalize is_invalid covered_pairs
best_value invalid uncovered working name best [] = best
best_value invalid uncovered working name best (value ∷ values) =
    let candidate = normalize (working ++ (name, value) ∷ []) in
    best_value invalid uncovered working name
      (if is_invalid candidate invalid
        then best
        else better best value (covered_pairs candidate uncovered))
      values

-- `facets[facet_name][0]` where no value is admissible, `none` for its IndexError
abbrev pub or_first : Option (String × ℕ) → List String → Option String
or_first (some (best, score)) values = some best
or_first none [] = none
or_first none (value ∷ values) = some value

-- One pass over the facets
unfoldable pub fill : List Selection → List Selection → Selection → Facets → Option Selection
unfolding best_value
fill invalid uncovered working [] = some working
fill invalid uncovered working ((name, values) ∷ rest) =
    elim (or_first (best_value invalid uncovered working name none values) values) [
      | none ↦ none
      | some value ↦ fill invalid uncovered (working ++ (name, value) ∷ []) rest
    ]

unfoldable pub prefixed : Pair → List Selection → List Selection
prefixed p [] = []
prefixed p (c ∷ cs) = (p ∷ c) ∷ prefixed p cs

unfoldable pub with_values : String → List String → List Selection → List Selection
unfolding prefixed
with_values name [] cs = []
with_values name (value ∷ values) cs = prefixed (name, value) cs ++ with_values name values cs

-- product(*[facets[name] for name in facet_names]), zipped with the names
unfoldable pub combinations_of : Facets → List Selection
unfolding with_values
combinations_of [] = [] ∷ []
combinations_of ((name, values) ∷ rest) = with_values name values (combinations_of rest)

-- The first admissible combination, or the one that there is.
unfoldable pub first_admissible : List Selection → Selection → List Selection → Selection
unfolding normalize is_invalid
first_admissible invalid default [] = default
first_admissible invalid default (c ∷ cs) =
    let rest = first_admissible invalid default cs in
    if is_invalid (normalize c) invalid then rest else normalize c

unfoldable pub repaired : List Selection → Facets → Selection → Selection
unfolding is_invalid first_admissible combinations_of
repaired invalid facets chosen =
    if is_invalid chosen invalid
    then first_admissible invalid chosen (combinations_of facets)
    else chosen

-- The body of the `while` loop, up to the combination that it adds
unfoldable pub next_combination : List Selection → List Selection → Facets → Option Selection
unfolding fill repaired normalize
next_combination invalid uncovered facets = elim (fill invalid uncovered [] facets) [
  | none ↦ none
  | some working ↦ some (repaired invalid facets (normalize working))
]

-- uncovered -= {...}
unfoldable pub still_uncovered : Selection → List Selection → List Selection
unfolding keep subset
still_uncovered combination uncovered = keep (λ pair. not (subset pair combination)) uncovered

pub data Run : Type 0 where
  finished : List Selection → Run
  index_error out_of_fuel : Run

unfoldable pub pair_le : Pair → Pair → Bool
pair_le (a, b) (c, d) = if a == c then text_le b d else text_le a c

unfoldable pub selection_le : Selection → Selection → Bool
unfolding pair_le
selection_le [] cs = true
selection_le (p ∷ ps) [] = false
selection_le (p ∷ ps) (q ∷ qs) =
    let rest = selection_le ps qs in if same_pair p q then rest else pair_le p q

unfoldable pub insert_selection : Selection → List Selection → List Selection
unfolding selection_le
insert_selection c [] = c ∷ []
insert_selection c (d ∷ ds) = if selection_le c d then c ∷ d ∷ ds else d ∷ insert_selection c ds

-- combinations.sort()
unfoldable pub sort_selections : List Selection → List Selection
unfolding insert_selection
sort_selections [] = []
sort_selections (c ∷ cs) = insert_selection c (sort_selections cs)

-- The `while uncovered` loop
unfoldable pub loop : ℕ → List Selection → Facets → List Selection → List Selection → Run
unfolding next_combination still_uncovered sort_selections
loop fuel invalid facets [] combinations = finished (sort_selections combinations)
loop zero invalid facets (u ∷ us) combinations = out_of_fuel
loop (suc fuel) invalid facets (u ∷ us) combinations =
    elim (next_combination invalid (u ∷ us) facets) [
      | none ↦ index_error
      | some c ↦ loop fuel invalid facets (still_uncovered c (u ∷ us)) (combinations ++ c ∷ [])
    ]

abbrev pub same_selection : Selection → Selection → Bool
same_selection [] [] = true
same_selection (p ∷ ps) (q ∷ qs) = same_pair p q && same_selection ps qs
same_selection _ _ = false

pub same_selection_iff : (c d : Selection) → (same_selection c d ≡ true) ↔ (c ≡ d)
same_selection_iff [] [] = (λ h. refl, λ e. refl)
same_selection_iff [] (q ∷ qs) = (λ h. cc, λ e. cc)
same_selection_iff (p ∷ ps) [] = (λ h. cc, λ e. cc)
same_selection_iff (p ∷ ps) (q ∷ qs) = ground (arith, same_pair_iff p q, same_selection_iff ps qs)

instance abbrev pub selection_eq : Eq Selection
selection_eq = record { same = same_selection; same_iff = same_selection_iff }

-- set(all_pairs), of the admissible pairs
unfoldable pub admissible_pairs : Facets → List Selection → List Selection
unfolding keep all_pairs is_invalid to_set
admissible_pairs facets invalid =
    to_set (keep (λ pair. not (is_invalid pair invalid)) (all_pairs facets))

-- generate_pairwise_combinations
unfoldable pub generate_pairwise : ℕ → Facets → List Selection → Run
unfolding admissible_pairs loop
generate_pairwise fuel facets invalid =
    loop fuel invalid facets (admissible_pairs facets invalid) []

-- The normalized and admissible ones of some combinations
unfoldable pub admissible : List Selection → List Selection → List Selection
unfolding normalize is_invalid
admissible invalid [] = []
admissible invalid (c ∷ cs) =
    let rest = admissible invalid cs in
    if is_invalid (normalize c) invalid then rest else normalize c ∷ rest

-- expand_full_cartesian
unfoldable pub expand_full : Facets → List Selection → List Selection
unfolding combinations_of admissible
expand_full facets invalid = admissible invalid (combinations_of facets)
