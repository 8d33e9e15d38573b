-- ===== src/CoveragePlanner/Allocation/Strategies/Strata.antt =====
-- The steps of the strategies keep the strata that have a share.
use domain_determine.Base.{
  ℕ, suc, ◌≤◌, String, ◌≡◌, inl, inr, refl, sym, ap, ◌∙◌, Bool, true, false, ◌||◌, none, List, [],
  ◌∷◌, ◌++◌, arith, ◌==◌, nat_eq, string_eq, if◌then◌else◌, is_some, Bool-cases, Option-cases,
  eq_iff,
}
use domain_determine.Base.Dict
use domain_determine.Base.Dict.{
  Dict, get-put, get-put_self, get-put_ne, get-remove, size-put, size-put_new, size-put_old,
  put_new, values-append,
}
use domain_determine.CoveragePlanner.Allocation.{Floats}
use domain_determine.CoveragePlanner.Allocation.Rounding.{count}
use domain_determine.CoveragePlanner.Allocation.Strategies.{
  Input, scaled, rescale, members, raise_members, lower_members, raise_branches, lower_branches,
  apply_branch_thresholds, branch_sum,
}

module _ (floats : Floats) where
  open floats use {Float, zero, one, of_int, add, subtract, times, divided, lt, le}

  abbrev pub Shares : Type 0
  Shares = Dict Float

  count_of_has : (d : Shares) (k : String) → Dict.has d k ≡ false → count (Dict.keys d) k ≡ 0
  unfolding count Dict.keys Dict.get
  count_of_has [] k h = refl
  count_of_has ((j, v) ∷ d) k h = ground (arith, h, count_of_has d k)

  -- An assignment to a key that is there keeps the keys.
  keys-put_old :
      (d : Shares) (k : String) (v : Float)
      → Dict.has d k ≡ true
      → Dict.keys (Dict.put d k v) ≡ Dict.keys d
  unfolding Dict.keys Dict.get Dict.put
  keys-put_old [] k v h = cc
  keys-put_old ((i, w) ∷ d) k v h = elim (Bool-cases (i == k)) [
    | inl same ↦ rw (Dict.put, same) refl
    | inr other ↦
        let there : Dict.has d k ≡ true = sym (rw other refl) ∙ h in
        rw (Dict.put, other) (ap (λ ks. i ∷ ks) (keys-put_old d k v there))
  ]

  count-append :
      (ks : List String) (k j : String)
      → count (ks ++ k ∷ []) j ≡ (if k == j then suc (count ks j) else count ks j)
  unfolding count
  count-append [] k j = refl
  count-append (i ∷ ks) k j = ground (arith, count-append ks k j)

  keys-append :
      (d : Shares) (k : String) (v : Float) → Dict.keys (d ++ (k, v) ∷ []) ≡ Dict.keys d ++ k ∷ []
  unfolding Dict.keys
  keys-append [] k v = refl
  keys-append ((i, w) ∷ d) k v = ap (λ ks. i ∷ ks) (keys-append d k v)

  -- A new key goes to the end of the keys.
  keys-put_new :
      (d : Shares) (k : String) (v : Float)
      → Dict.get d k ≡ none
      → Dict.keys (Dict.put d k v) ≡ Dict.keys d ++ k ∷ []
  keys-put_new d k v h = rw (put_new d k v h) (keys-append d k v)

  abbrev pub Distinct : Shares → Type 0
  Distinct d = (k : String) → count (Dict.keys d) k ≤ 1

  -- The keys stay distinct, and no key is lost.
  pub record Grows (d e : Shares) : Type 0 where
    pub distinct : Distinct d → Distinct e
    pub has_all : (k : String) → Dict.has d k ≡ true → Dict.has e k ≡ true

  pub Grows-refl : (d : Shares) → Grows d d
  Grows-refl d = record { distinct = λ h. h; has_all = λ k h. h }

  pub Grows-trans : {d e f : Shares} → Grows d e → Grows e f → Grows d f
  Grows-trans g h = record {
    distinct = λ once. h.distinct (g.distinct once);
    has_all = λ k there. h.has_all k (g.has_all k there);
  }

  pub has-put :
      (d : Shares) (k j : String) (v : Float)
      → Dict.has (Dict.put d k v) j ≡ (k == j || Dict.has d j)
  has-put d k j v = ground (arith, get-put d k j v)

  pub Grows-put : (d : Shares) (k : String) (v : Float) → Grows d (Dict.put d k v)
  Grows-put d k v = record {
    distinct = λ once j. elim (Option-cases (Dict.get d k)) [
      | inl missing ↦
          let fresh = count_of_has d k (ap is_some missing) in
          rw (keys-put_new d k v missing, count-append (Dict.keys d) k j)
            (ground (arith, once j, fresh, eq_iff k j))
      | inr (w, found) ↦ rw (keys-put_old d k v (ap is_some found)) (once j)
    ];
    has_all = λ j there. ground (arith, has-put d k j v, there);
  }

  keys-scaled : (factor : Float) (d : Shares) → Dict.keys (scaled floats factor d) ≡ Dict.keys d
  unfolding Dict.keys scaled
  keys-scaled factor [] = refl
  keys-scaled factor ((k, v) ∷ d) = ap (λ ks. k ∷ ks) (keys-scaled factor d)

  has-scaled :
      (factor : Float) (d : Shares) (k : String)
      → Dict.has (scaled floats factor d) k ≡ Dict.has d k
  unfolding Dict.get scaled
  has-scaled factor [] k = refl
  has-scaled factor ((j, v) ∷ d) k = ground (arith, has-scaled factor d k)

  pub Grows-rescale : (d : Shares) (total : ℕ) → Grows d (rescale floats d total)
  unfolding rescale
  Grows-rescale d total = record {
    distinct = λ once k. rw (keys-scaled _ d) (once k);
    has_all = λ k there. has-scaled _ d k ∙ there;
  }

  Grows-raise_members :
      (amount : Float) (es : List (Input floats)) (d : Shares)
      → Grows d (raise_members floats amount es d)
  unfolding raise_members
  Grows-raise_members amount [] d = Grows-refl d
  Grows-raise_members amount (e ∷ es) d =
      Grows-trans (Grows-put d e.stratum_id _) (Grows-raise_members amount es _)

  Grows-lower_members :
      (amount : Float) (es : List (Input floats)) (d : Shares)
      → Grows d (lower_members floats amount es d)
  unfolding lower_members
  Grows-lower_members amount [] d = Grows-refl d
  Grows-lower_members amount (e ∷ es) d =
      Grows-trans (Grows-put d e.stratum_id _) (Grows-lower_members amount es _)

  pub Grows-if :
      (test : Bool) {d e f : Shares} → Grows d e → Grows d f → Grows d (if test then e else f)
  Grows-if true g h = g
  Grows-if false g h = h

  Grows-raise_branches :
      (inputs : List (Input floats)) (minimums : Dict ℕ) (d : Shares) (notes : List String)
      → Grows d (raise_branches floats inputs minimums (d, notes)).0
  unfolding raise_branches
  Grows-raise_branches inputs [] d notes = Grows-refl d
  Grows-raise_branches inputs ((branch, minimum) ∷ rest) d notes =
      elim (Bool-cases
        (le (of_int minimum) (branch_sum floats d zero (members floats inputs branch)))) [
          | inl enough ↦ rw (raise_branches, enough) (Grows-raise_branches inputs rest d notes)
          | inr short ↦
              rw (raise_branches, short)
                (Grows-trans (Grows-raise_members _ (members floats inputs branch) d)
                  (Grows-raise_branches inputs rest _ _))
        ]

  Grows-lower_branches :
      (inputs : List (Input floats)) (maximums : Dict ℕ) (d : Shares) (notes : List String)
      → Grows d (lower_branches floats inputs maximums (d, notes)).0
  unfolding lower_branches
  Grows-lower_branches inputs [] d notes = Grows-refl d
  Grows-lower_branches inputs ((branch, maximum) ∷ rest) d notes =
      elim (Bool-cases
        (le (branch_sum floats d zero (members floats inputs branch)) (of_int maximum))) [
          | inl few ↦ rw (lower_branches, few) (Grows-lower_branches inputs rest d notes)
          | inr many ↦
              rw (lower_branches, many)
                (Grows-trans (Grows-lower_members _ (members floats inputs branch) d)
                  (Grows-lower_branches inputs rest _ _))
        ]

  pub Grows-apply_branch_thresholds :
      (d : Shares) (inputs : List (Input floats)) (minimums maximums : Dict ℕ) (total : ℕ)
      → Grows d (apply_branch_thresholds floats d inputs minimums maximums total).0
  unfolding apply_branch_thresholds
  Grows-apply_branch_thresholds d inputs minimums maximums total =
      Grows-trans (Grows-raise_branches inputs minimums d []) (
        Grows-trans (Grows-rescale _ total)
          (Grows-trans (Grows-lower_branches inputs maximums _ _) (Grows-rescale _ total)))
