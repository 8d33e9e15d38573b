-- ===== src/CoveragePlanner/Allocation/Strategies/Totals.antt =====
-- What the allocation by a strategy returns.
use domain_determine.Base.{
  ℕ, ◌+◌, ◌-◌, ◌≤◌, String, ◌≡◌, ◌⊎◌, inl, inr, refl, ◌∙◌, true, Option, List, [], ◌∷◌, nat_eq,
  string_eq, All,
}
use domain_determine.Base.Dict
use domain_determine.Base.Dict.{
  Dict, get-put, get-put_self, get-put_ne, get-remove, size-put, size-put_new, size-put_old,
  put_new, values-append,
}
use domain_determine.CoveragePlanner.Allocation.{
  Floats, total_of, floors, take, names, ranked, largest_remainder,
}
use domain_determine.CoveragePlanner.Allocation.Rounding.{
  has-floors, has-raise_each, largest_remainder_bounds,
}
use domain_determine.CoveragePlanner.Allocation.Maximums.Kept.{All-map}
use domain_determine.CoveragePlanner.Allocation.Maximums.TakenDown.{Known, Within}
use domain_determine.CoveragePlanner.Allocation.Maximums.Settled.{respect_maximums_lem}
use domain_determine.CoveragePlanner.Allocation.Strategies.{
  ok, raised, unable_to_redistribute, Input, ConstraintConfig, AllocationResult,
}
use domain_determine.CoveragePlanner.Allocation.Strategies.Quotas.{
  compute_weights, shares, allocation, rounded_result, allocate_with_strategy,
}
use domain_determine.CoveragePlanner.Allocation.Strategies.Weights.{
  Grows-shares, Covers, Covers-Grows, compute_weights-lem,
}

module _ (floats : Floats) where
  open floats use {Float}

  -- The conditions on the shares before the rounding: the floors add up to at most the total, and miss it
  -- by at most one for each share.
  abbrev pub IsClose : Dict Float → ℕ → Type 0
  IsClose raw total =
      (total_of (floors floats raw) ≤ total)
      × (total ≤ total_of (floors floats raw) + Dict.size raw)

  abbrev pub Consistent : (String → Option ℕ) → List (Input floats) → Type 0
  Consistent maximum_of inputs =
      All (λ (e : Input floats). maximum_of e.stratum_id ≡ e.maximum) inputs

  Known-both :
      (maximum_of : String → Option ℕ) (rounded : Dict ℕ) (es : List (Input floats))
      → All (λ (e : Input floats). Dict.has rounded e.stratum_id ≡ true) es
      → Consistent maximum_of es
      → Known floats maximum_of rounded es
  Known-both maximum_of rounded [] p q = tt
  Known-both maximum_of rounded (e ∷ es) (p, ps) (q, qs) =
      ((p, q), Known-both maximum_of rounded es ps qs)

  covered :
      (inputs : List (Input floats)) (raw : Dict Float) (total : ℕ)
      → Covers floats inputs raw
      → All
          (λ (e : Input floats). Dict.has (largest_remainder floats raw total) e.stratum_id ≡ true)
          inputs
  unfolding largest_remainder
  covered inputs raw total h =
      All-map
        (λ (e : Input floats) there.
          has-raise_each
            (take (total - total_of (floors floats raw)) (names floats (ranked floats raw)))
            (floors floats raw) e.stratum_id (has-floors floats raw e.stratum_id ∙ there))
        inputs h

  -- Where the strata of one name have one maximum, the weights can be computed, and the shares before the
  -- rounding are close to the total: their floors add up to at most it and miss it by at most one for each
  -- share. Then a strategy raises since the maximums leave no room, or returns quotas that add up to
  -- the total items, with no stratum above its maximum.
  pub allocate_with_strategy_lem :
      (maximum_of : String → Option ℕ) (inputs : List (Input floats)) (c : ConstraintConfig floats)
      (weights : Dict Float)
      → Consistent maximum_of inputs
      → compute_weights floats inputs c.allocation_strategy ≡ ok weights
      → IsClose (shares floats inputs c weights).0 c.total_items
      → (allocate_with_strategy floats inputs c ≡ raised unable_to_redistribute)
        ⊎ ((r : AllocationResult floats) × (allocate_with_strategy floats inputs c ≡ ok r)
            × (total_of r.rounded ≡ c.total_items)
            × All (Within floats maximum_of r.rounded) inputs)
  unfolding allocate_with_strategy rounded_result
  allocate_with_strategy_lem maximum_of inputs c weights maximums weighed (low, high) =
      let (distinct, covers) =
        compute_weights-lem floats inputs c.allocation_strategy weights weighed in
      let grows = Grows-shares floats inputs c weights in
      let raw = (shares floats inputs c weights).0 in
      let rounded = largest_remainder floats raw c.total_items in
      let (sum, _) =
        largest_remainder_bounds floats raw c.total_items (grows.distinct distinct) low high in
      let known =
        Known-both maximum_of rounded inputs
          (covered inputs raw c.total_items (Covers-Grows floats grows inputs covers)) maximums in
      elim (respect_maximums_lem floats maximum_of rounded inputs c.total_items known sum) [
        | inl stops ↦ inl (rw (allocate_with_strategy, weighed, rounded_result, stops) refl)
        | inr (after, notes, run, same_total, within) ↦
            let r =
              allocation floats raw rounded (shares floats inputs c weights).1 c.allocation_strategy
                after notes in
            inr (
              r,
              rw (allocate_with_strategy, weighed, rounded_result, run) refl,
              same_total,
              within,
            )
      ]
