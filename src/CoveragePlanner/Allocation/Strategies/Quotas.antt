-- ===== src/CoveragePlanner/Allocation/Strategies/Quotas.antt =====
-- src/DomainDetermine/coverage_planner/allocation.py: `_compute_weights`, the blending with the observed
-- prevalence, and `allocate_quotas`.
use domain_determine.Base.{
  ℕ, String, not, ◌&&◌, ◌||◌, none, some, List, [], ◌∷◌, ◌==◌, nat_eq, string_eq, nat_beq,
  if◌then◌else◌, get_or,
}
use domain_determine.Base.Dict
use domain_determine.Base.Dict.{
  Dict, get-put, get-put_self, get-put_ne, get-remove, size-put, size-put_new, size-put_old,
  put_new, values-append,
}
use domain_determine.CoveragePlanner.Allocation.{Floats, largest_remainder}
use domain_determine.CoveragePlanner.Allocation.Maximums.{
  Respected, respected, value_error, out_of_rounds, respect_maximums,
}
use domain_determine.CoveragePlanner.Allocation.Strategies.{
  total_items_not_positive, mixing_out_of_range, floor_negative, ceiling_not_positive,
  same_fallback, needs_solver, unable_to_redistribute, more_rounds, unknown_strategy, Result, ok,
  raised, ◌>>=◌, raise_if, some_float, is_nil, Input, ConstraintConfig, AllocationResult, float_at,
  max_of, sum_from, sum_of, rescale, effective_branch_thresholds, apply_branch_thresholds,
}

module _ (floats : Floats) where
  open floats use {
    Float, zero, one, tiny, of_int, add, subtract, times, divided, absolute, is_nonzero, lt, le,
  }

  -- ConstraintConfig.validate
  unfoldable pub validate_constraints : ConstraintConfig floats → Result (Unit {0})
  validate_constraints c = raise_if (nat_beq c.total_items 0) total_items_not_positive >>= λ _.
      raise_if (not (le zero c.mixing_parameter && le c.mixing_parameter one)) mixing_out_of_range
      >>= λ _.
          raise_if (some_float (λ f. is_nonzero f && lt f zero) c.fairness_floor) floor_negative
          >>= λ _.
              raise_if (some_float (λ f. is_nonzero f && le f zero) c.fairness_ceiling)
                ceiling_not_positive
              >>= λ _.
                  raise_if
                    (c.allocation_strategy == "cost_constrained"
                      && c.fallback_strategy == "cost_constrained")
                    same_fallback

  -- The weight of one stratum
  unfoldable pub weight_of : String → Input floats → Result Float
  weight_of strategy e =
      let size = max_of floats e.size_weight tiny in
      let unweighted =
        if strategy == "uniform"
        then ok one
        else if strategy == "proportional"
        then ok size
        else if strategy == "neyman"
        then ok (times size (max_of floats (get_or e.variance zero) tiny))
        else raised (unknown_strategy strategy) in
      unweighted >>= λ w.
      ok (elim e.risk_weight [ none ↦ w | some r ↦ times w (max_of floats r tiny) ])

  unfoldable pub weights_into : String → List (Input floats) → Dict Float → Result (Dict Float)
  unfolding weight_of
  weights_into strategy [] d = ok d
  weights_into strategy (e ∷ es) d =
      weight_of strategy e >>= λ w. weights_into strategy es (Dict.put d e.stratum_id w)

  -- {entry.stratum_id: 1.0 for entry in inputs}
  unfoldable pub ones : List (Input floats) → Dict Float → Dict Float
  ones [] d = d
  ones (e ∷ es) d = ones es (Dict.put d e.stratum_id one)

  -- _compute_weights
  unfoldable pub compute_weights : List (Input floats) → String → Result (Dict Float)
  unfolding weights_into ones sum_from
  compute_weights inputs strategy = raise_if (strategy == "cost_constrained") needs_solver >>= λ _.
      weights_into strategy inputs [] >>= λ weights.
      ok (if le (sum_of floats weights) zero then ones inputs [] else weights)

  -- normalized_prev
  unfoldable pub normalized : Dict Float → Float → List (Input floats) → Dict Float → Dict Float
  normalized prevalence total [] d = d
  normalized prevalence total (e ∷ es) d =
      normalized prevalence total es
        (Dict.put d e.stratum_id (divided (float_at floats prevalence e.concept_id) total))

  -- The loop that blends the shares
  unfoldable pub blend : Float → Dict Float → Float → List (Input floats) → Dict Float → Dict Float
  blend mix prevalence total [] raw = raw
  blend mix prevalence total (e ∷ es) raw =
      let existing = divided (float_at floats raw e.stratum_id) total in
      let blended =
        add (times mix (float_at floats prevalence e.stratum_id))
          (times (subtract one mix) existing) in
      blend mix prevalence total es (Dict.put raw e.stratum_id (times blended total))

  -- _apply_prevalence_mixing
  unfoldable pub apply_prevalence_mixing :
      Dict Float → List (Input floats) → ConstraintConfig floats → Dict Float
  unfolding normalized blend sum_from
  apply_prevalence_mixing raw inputs c =
      let observed = sum_of floats c.observed_prevalence in
      let current = sum_of floats raw in
      if is_nil c.observed_prevalence
        || le c.mixing_parameter zero
        || le observed zero
        || le current zero
      then raw
      else blend c.mixing_parameter (normalized c.observed_prevalence observed inputs []) current
          inputs raw

  -- Shares below the minimum of their stratum are raised to it.
  unfoldable pub raise_to_minimums : List (Input floats) → Dict Float → Dict Float
  raise_to_minimums [] raw = raw
  raise_to_minimums (e ∷ es) raw = raise_to_minimums es (
      if lt (float_at floats raw e.stratum_id) (of_int e.minimum)
      then Dict.put raw e.stratum_id (of_int e.minimum)
      else raw)

  -- {k: total_items * weight / denominator}
  unfoldable pub shares_of : ℕ → Float → Dict Float → Dict Float
  shares_of total denominator [] = []
  shares_of total denominator ((k, w) ∷ d) =
      (k, divided (times (of_int total) w) denominator) ∷ shares_of total denominator d

  -- The shares before the rounding, and the notes on the branches
  unfoldable pub shares :
      List (Input floats) → ConstraintConfig floats → Dict Float → Dict Float × List String
  unfolding shares_of sum_from apply_prevalence_mixing raise_to_minimums rescale
      effective_branch_thresholds apply_branch_thresholds
  shares inputs c weights =
      let raw = shares_of c.total_items (sum_of floats weights) weights in
      let mixed = apply_prevalence_mixing raw inputs c in
      let raised_shares = rescale floats (raise_to_minimums inputs mixed) c.total_items in
      let (minimums, maximums) = effective_branch_thresholds floats inputs c in
      apply_branch_thresholds floats raised_shares inputs minimums maximums c.total_items

  -- {k: rounded[k] - raw[k] for k in rounded}
  unfoldable pub deltas : Dict Float → Dict ℕ → Dict Float
  deltas raw [] = []
  deltas raw ((k, n) ∷ d) = (k, subtract (of_int n) (float_at floats raw k)) ∷ deltas raw d

  abbrev pub allocation :
      Dict Float → Dict ℕ → List String → String → Dict ℕ → List String → AllocationResult floats
  allocation raw rounded notes strategy quotas deviations = record {
    pre_round = raw;
    rounded = quotas;
    rounding_delta = deltas raw rounded;
    fairness_notes = notes;
    deviations = deviations;
    strategy_used = strategy;
    failure = none;
  }

  abbrev pub result_of :
      Dict Float → Dict ℕ → List String → String → Respected → Result (AllocationResult floats)
  result_of raw rounded notes strategy value_error = raised unable_to_redistribute
  result_of raw rounded notes strategy out_of_rounds = raised more_rounds
  result_of raw rounded notes strategy (respected quotas deviations) =
      ok (allocation raw rounded notes strategy quotas deviations)

  -- The rounding of shares and what stands behind it
  unfoldable pub rounded_result :
      List (Input floats) → ℕ → String → Dict Float × List String → Result (AllocationResult floats)
  unfolding largest_remainder respect_maximums deltas
  rounded_result inputs total strategy (raw, notes) =
      let rounded = largest_remainder floats raw total in
      result_of raw rounded notes strategy (respect_maximums floats rounded inputs total)

  -- _allocate_with_strategy
  unfoldable pub allocate_with_strategy :
      List (Input floats) → ConstraintConfig floats → Result (AllocationResult floats)
  unfolding compute_weights shares rounded_result
  allocate_with_strategy inputs c = compute_weights inputs c.allocation_strategy >>= λ weights.
      rounded_result inputs c.total_items c.allocation_strategy (shares inputs c weights)
