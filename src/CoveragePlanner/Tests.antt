-- ===== src/CoveragePlanner/Tests.antt =====
-- Combinations of facet values on small inputs.
use domain_determine.Base.{
  String, ◌≡◌, ◌≢◌, ◌↔◌, refl, true, false, [], ◌∷◌, nat_eq, string_eq, contains,
}
use domain_determine.CoveragePlanner.Combinatorics.{
  pair_eq, Selection, selection_eq, Facets, normalize, is_invalid, finished, generate_pairwise,
  expand_full,
}
use domain_determine.CoveragePlanner.Combinatorics.Stuck.{Distinct, generate_pairwise_stuck}
use domain_determine.CoveragePlanner.Combinatorics.Cartesian.{picks, expand_full_lem}

abbrev two_facets : Facets
two_facets = ("A", "a1" ∷ "a2" ∷ []) ∷ ("B", "b1" ∷ "b2" ∷ []) ∷ []

names_differ : Distinct ("A" ∷ "B" ∷ [])
unfolding contains
names_differ = (refl, (refl, tt))

has_second : contains {A = String} ("a2" ∷ []) "a2" ≡ true
unfolding contains
has_second = refl

generate_pairwise_stuck_example : generate_pairwise 1000 two_facets [] ≢ finished []
generate_pairwise_stuck_example =
    generate_pairwise_stuck "A" "a1" "a2" "B" "b1" ("a2" ∷ []) ("b2" ∷ []) [] has_second refl
      names_differ 1000 []

abbrev one_pair : Selection
one_pair = ("A", "a2") ∷ ("B", "b1") ∷ []

expand_full_lem_example :
    (contains (expand_full two_facets ((("A", "a1") ∷ ("B", "b2") ∷ []) ∷ [])) one_pair ≡ true) ↔ (
      (c : Selection) × (picks two_facets c ≡ true)
      × (normalize c ≡ one_pair)
      × (is_invalid one_pair ((("A", "a1") ∷ ("B", "b2") ∷ []) ∷ []) ≡ false))
expand_full_lem_example =
    expand_full_lem two_facets ((("A", "a1") ∷ ("B", "b2") ∷ []) ∷ []) one_pair
