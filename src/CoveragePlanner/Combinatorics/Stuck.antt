-- ===== src/CoveragePlanner/Combinatorics/Stuck.antt =====
-- Where the pairwise generator does not come to an end: every round takes the same value of the first
-- facet, since no pair is covered before a second facet is filled in.
use domain_determine.Base.{
  ℕ, zero, suc, String, ◌≡◌, ◌≢◌, inl, inr, refl, sym, ap, ◌∙◌, Bool, true, false, not, ◌&&◌, ◌||◌,
  none, some, List, [], ◌∷◌, ◌++◌, arith, ◌==◌, nat_eq, string_eq, Bool-cases, Option-cases,
  absurd_bool, none_some, some_inj, or_left, or_right, keep, some_of, contains, add, to_set, subset,
  All, contains-append, contains-to_set, contains_of_subset, eq_iff,
}
use domain_determine.CoveragePlanner.Combinatorics.{
  Pair, pair_eq, Selection, selection_eq, same_pair_iff, same_selection, same_selection_iff,
  insert_by_name, normalize, is_invalid, Facets, pairs_of_value, pairs_of_facets, pairs_with,
  all_pairs, covered_pairs, best_value, or_first, fill, repaired, next_combination, still_uncovered,
  finished, index_error, loop, admissible_pairs, generate_pairwise,
}

-- The names of the facets differ, as the keys of a mapping do.
abbrev pub names : Facets → List String
names [] = []
names ((name, values) ∷ rest) = name ∷ names rest

abbrev pub Distinct : List String → Type 0
Distinct [] = Unit
Distinct (n ∷ ns) = (contains ns n ≡ false) × Distinct ns

second : (p q : Pair) (c : Selection) → contains (p ∷ q ∷ c) q ≡ true
unfolding contains
second p q c = ground (arith, same_pair_iff q q)

contains-insert :
    (p q : Pair) (c : Selection) → contains (insert_by_name p c) q ≡ (p == q || contains c q)
unfolding contains insert_by_name
contains-insert p q [] = refl
contains-insert p q (x ∷ c) = ground (arith, contains-insert p q c)

contains-normalize : (c : Selection) (q : Pair) → contains (normalize c) q ≡ contains c q
unfolding contains normalize
contains-normalize [] q = refl
contains-normalize (x ∷ c) q =
    contains-insert x q (normalize c) ∙ ap (λ b. x == q || b) (contains-normalize c q)

subset-false :
    (c d : Selection) (q : Pair) → contains c q ≡ true → contains d q ≡ false → subset c d ≡ false
subset-false c d q here missing = elim (Bool-cases (subset c d)) [
  | inl t ↦ absurd_bool (sym (contains_of_subset c d q t here) ∙ missing)
  | inr f ↦ f
]

-- No single choice covers the pair.
abbrev pub Wide : Selection → Type 0
Wide pair = (x : Pair) → subset pair (x ∷ []) ≡ false

single : (n u a v : String) → contains {A = Pair} ((n, u) ∷ []) (a, v) ≡ (n == a && u == v)
unfolding contains
single n u a v = ground arith

head_is : (p : Pair) (c : Selection) → contains (p ∷ c) p ≡ true
unfolding contains
head_is p c = ground (arith, same_pair_iff p p)

-- A pair of two facets is covered by no single choice.
Wide-normalize : (a v b w : String) → (a == b) ≡ false → Wide (normalize ((a, v) ∷ (b, w) ∷ []))
Wide-normalize a v b w h (n, u) =
    let c : Selection = (a, v) ∷ (b, w) ∷ [] in
    elim (Bool-cases (n == a)) [
      | inr other ↦
          subset-false (normalize c) _ (a, v) (contains-normalize c (a, v) ∙ head_is (a, v) _)
            (single n u a v ∙ rw other refl)
      | inl same ↦
          subset-false (normalize c) _ (b, w)
            (contains-normalize c (b, w) ∙ second (a, v) (b, w) [])
            (single n u b w ∙ ground (arith, eq_iff n a, eq_iff n b, eq_iff a b))
    ]

All-append :
    (P : Selection → Type 0) (xs ys : List Selection) → All P xs → All P ys → All P (xs ++ ys)
All-append P [] ys a b = b
All-append P (x ∷ xs) ys (h, a) b = (h, All-append P xs ys a b)

All-keep :
    (P : Selection → Type 0) (f : Selection → Bool) (xs : List Selection)
    → All P xs
    → All P (keep f xs)
unfolding keep
All-keep P f [] a = tt
All-keep P f (x ∷ xs) (h, a) = elim (Bool-cases (f x)) [
  | inl kept ↦ rw kept (h, All-keep P f xs a)
  | inr dropped ↦ rw dropped (All-keep P f xs a)
]

All-to_set : (P : Selection → Type 0) (xs : List Selection) → All P xs → All P (to_set xs)
unfolding to_set add
All-to_set P [] a = tt
All-to_set P (x ∷ xs) (h, a) = elim (Bool-cases (contains (to_set xs) x)) [
  | inl old ↦ rw old (All-to_set P xs a)
  | inr new ↦ rw new (All-append P (to_set xs) (x ∷ []) (All-to_set P xs a) (h, tt))
]

Wide-pairs_of_value :
    (a v b : String) (ws : List String) → (a == b) ≡ false → All Wide (pairs_of_value a v b ws)
unfolding pairs_of_value
Wide-pairs_of_value a v b [] h = tt
Wide-pairs_of_value a v b (w ∷ ws) h = (Wide-normalize a v b w h, Wide-pairs_of_value a v b ws h)

Wide-pairs_of_facets :
    (a : String) (vs : List String) (b : String) (ws : List String)
    → (a == b) ≡ false
    → All Wide (pairs_of_facets a vs b ws)
unfolding pairs_of_facets
Wide-pairs_of_facets a [] b ws h = tt
Wide-pairs_of_facets a (v ∷ vs) b ws h =
    All-append Wide _ _ (Wide-pairs_of_value a v b ws h) (Wide-pairs_of_facets a vs b ws h)

Wide-pairs_with :
    (a : String) (vs : List String) (rest : Facets)
    → contains (names rest) a ≡ false
    → All Wide (pairs_with a vs rest)
unfolding pairs_with contains
Wide-pairs_with a vs [] h = tt
Wide-pairs_with a vs ((b, ws) ∷ rest) h =
    All-append Wide _ _ (Wide-pairs_of_facets a vs b ws (ground (arith, h, eq_iff a b, eq_iff b a)))
      (Wide-pairs_with a vs rest (ground (arith, h)))

Wide-all_pairs : (facets : Facets) → Distinct (names facets) → All Wide (all_pairs facets)
unfolding all_pairs
Wide-all_pairs [] d = tt
Wide-all_pairs ((a, vs) ∷ rest) (fresh, d) =
    All-append Wide _ _ (Wide-pairs_with a vs rest fresh) (Wide-all_pairs rest d)

covered_pairs_none :
    (x : Pair) (uncovered : List Selection)
    → All Wide uncovered
    → covered_pairs (x ∷ []) uncovered ≡ 0
unfolding covered_pairs keep
covered_pairs_none x [] a = refl
covered_pairs_none x (p ∷ ps) (h, a) = rw (h x) (covered_pairs_none x ps a)

-- The first value of the first facet stays the best.
best_value_first :
    (uncovered : List Selection) (n v : String) (vs : List String)
    → All Wide uncovered
    → best_value [] uncovered [] n (some (v, 0)) vs ≡ some (v, 0)
unfolding best_value is_invalid some_of normalize insert_by_name
best_value_first uncovered n v [] a = refl
best_value_first uncovered n v (w ∷ vs) a =
    rw (covered_pairs_none (n, w) uncovered a) (best_value_first uncovered n v vs a)

-- The facets that are filled in later add no value to a facet that is not among them.
contains-fill :
    (invalid uncovered : List Selection) (working : Selection) (rest : Facets) (c : Selection)
    (n u : String)
    → fill invalid uncovered working rest ≡ some c
    → contains (names rest) n ≡ false
    → contains c (n, u) ≡ contains working (n, u)
unfolding fill contains
contains-fill invalid uncovered working [] c n u e h =
    ap (λ x. contains x (n, u)) (sym (some_inj working c e))
contains-fill invalid uncovered working ((b, ws) ∷ rest) c n u e h =
    elim (Option-cases (or_first (best_value invalid uncovered working b none ws) ws)) [
      | inl empty ↦ none_some (rw (empty, fill) at e)
      | inr (v, chosen) ↦
          contains-fill invalid uncovered (working ++ (b, v) ∷ []) rest c n u
            (rw (chosen, fill) at e) (ground (arith, h))
          ∙ contains-append working ((b, v) ∷ []) (n, u)
          ∙ ground (arith, h, single b v n u)
    ]

best_value-none :
    (uncovered : List Selection) (n v : String) (vs : List String)
    → All Wide uncovered
    → best_value [] uncovered [] n none (v ∷ vs) ≡ some (v, 0)
unfolding best_value is_invalid some_of normalize insert_by_name
best_value-none uncovered n v vs a =
    rw (covered_pairs_none (n, v) uncovered a) (best_value_first uncovered n v vs a)

fill_first :
    (uncovered : List Selection) (n v : String) (vs : List String) (rest : Facets)
    → All Wide uncovered
    → fill [] uncovered [] ((n, v ∷ vs) ∷ rest) ≡ fill [] uncovered ((n, v) ∷ []) rest
unfolding fill
fill_first uncovered n v vs rest a = rw (best_value-none uncovered n v vs a, fill) refl

-- The next combination takes the first value of the first facet.
next_combination_first :
    (uncovered : List Selection) (n v : String) (vs : List String) (rest : Facets) (c : Selection)
    (u : String)
    → All Wide uncovered
    → contains (names rest) n ≡ false
    → next_combination [] uncovered ((n, v ∷ vs) ∷ rest) ≡ some c
    → contains c (n, u) ≡ (v == u)
unfolding next_combination repaired is_invalid some_of
next_combination_first uncovered n v vs rest c u a h e =
    let e' = rw (fill_first uncovered n v vs rest a, next_combination) at e in
    elim (Option-cases (fill [] uncovered ((n, v) ∷ []) rest)) [
      | inl empty ↦ none_some (rw empty at e')
      | inr (working, filled) ↦
          let is : normalize working ≡ c = some_inj _ _ (rw filled at e') in
          ap (λ x. contains x (n, u)) (sym is)
          ∙ contains-normalize working (n, u)
          ∙ contains-fill [] uncovered ((n, v) ∷ []) rest working n u filled h
          ∙ single n v n u
          ∙ rw ((eq_iff n n).1 refl) refl
    ]

index_not_finished {ℓ} : {P : Type ℓ} {found : List Selection} → index_error ≡ finished found → P
index_not_finished h = cc

contains-keep :
    (f : Selection → Bool) (xs : List Selection) (t : Selection)
    → f t ≡ true
    → contains (keep f xs) t ≡ contains xs t
unfolding contains keep
contains-keep f [] t h = refl
contains-keep f (x ∷ xs) t h = elim (Bool-cases (f x)) [
  | inl kept ↦ rw kept (ap (λ b. same_selection x t || b) (contains-keep f xs t h))
  | inr dropped ↦ elim (Bool-cases (same_selection x t)) [
    | inl same ↦ absurd_bool (sym h ∙ ap f (sym ((same_selection_iff x t).0 same)) ∙ dropped)
    | inr differs ↦ rw (dropped, differs) (contains-keep f xs t h)
  ]
]

module _ (n v w b x : String) (vs xs : List String) (rest : Facets)
    (is_value : contains vs w ≡ true) (other : (v == w) ≡ false)
    (distinct : Distinct (n ∷ b ∷ names rest)) where
  abbrev facets : Facets
  facets = (n, v ∷ vs) ∷ (b, x ∷ xs) ∷ rest

  -- A pair that is never covered
  abbrev missed : Selection
  missed = normalize ((n, w) ∷ (b, x) ∷ [])

  loop_stuck :
      (fuel : ℕ) (uncovered combinations found : List Selection)
      → All Wide uncovered
      → contains uncovered missed ≡ true
      → loop fuel [] facets uncovered combinations ≢ finished found
  unfolding loop contains still_uncovered
  loop_stuck fuel [] combinations found a m e = absurd_bool (sym m)
  loop_stuck zero (u ∷ us) combinations found a m e = cc
  loop_stuck (suc fuel) (u ∷ us) combinations found a m e =
      elim (Option-cases (next_combination [] (u ∷ us) facets)) [
        | inl none_found ↦ index_not_finished (rw (none_found, loop) at e)
        | inr (c, chosen) ↦
            let uncovered = u ∷ us in
            let not_w : contains c (n, w) ≡ false =
              next_combination_first uncovered n v vs ((b, x ∷ xs) ∷ rest) c w a distinct.0 chosen
              ∙ other in
            let kept : subset missed c ≡ false =
              subset-false missed c (n, w)
                (contains-normalize ((n, w) ∷ (b, x) ∷ []) (n, w) ∙ head_is (n, w) ((b, x) ∷ []))
                not_w in
            let f : Selection → Bool = λ pair. not (subset pair c) in
            loop_stuck fuel (keep f uncovered) (combinations ++ c ∷ []) found
              (All-keep Wide f uncovered a) (contains-keep f uncovered missed (ap not kept) ∙ m)
              (rw (chosen, loop) at e)
      ]

  contains-pairs_of_facets :
      (values : List String)
      → contains values w ≡ true
      → contains (pairs_of_facets n values b (x ∷ xs)) missed ≡ true
  unfolding contains pairs_of_facets pairs_of_value
  contains-pairs_of_facets [] h = absurd_bool (sym h)
  contains-pairs_of_facets (y ∷ ys) h =
      contains-append (pairs_of_value n y b (x ∷ xs)) (pairs_of_facets n ys b (x ∷ xs)) missed
      ∙ elim (Bool-cases (y == w)) [
        | inl same ↦ or_left _ _ (
            or_left _ _ (
              (same_selection_iff _ _).1
                (ap (λ z. normalize ((n, z) ∷ (b, x) ∷ [])) ((eq_iff y w).0 same))))
        | inr differs ↦ or_right _ _ (contains-pairs_of_facets ys (ground (arith, h)))
      ]

  -- The generator never returns where its first facet has a second value and another facet has a
  -- value, if no combination is invalid: the pairs of the second value are never covered, however many
  -- rounds there are.
  pub generate_pairwise_stuck :
      (fuel : ℕ) (found : List Selection) → generate_pairwise fuel facets [] ≢ finished found
  unfolding generate_pairwise admissible_pairs all_pairs pairs_with contains is_invalid some_of
  generate_pairwise_stuck fuel found =
      loop_stuck fuel _ [] found
        (All-to_set Wide (keep (λ pair. not (is_invalid pair [])) (all_pairs facets)) (
          All-keep Wide (λ pair. not (is_invalid pair [])) (all_pairs facets)
            (Wide-all_pairs facets distinct)))
        (contains-to_set (keep (λ pair. not (is_invalid pair [])) (all_pairs facets)) missed
          ∙ contains-keep (λ pair. not (is_invalid pair [])) (all_pairs facets) missed refl
          ∙ contains-append (pairs_with n (v ∷ vs) ((b, x ∷ xs) ∷ rest))
              (all_pairs ((b, x ∷ xs) ∷ rest)) missed
          ∙ or_left _ _ (
              contains-append (pairs_of_facets n (v ∷ vs) b (x ∷ xs)) (pairs_with n (v ∷ vs) rest)
                missed
              ∙ or_left _ _ (contains-pairs_of_facets (v ∷ vs) (or_right _ _ is_value))))
