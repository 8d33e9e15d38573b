-- ===== src/CoveragePlanner/Allocation/Strategies/Solver.antt =====
-- src/DomainDetermine/coverage_planner/allocation.py: `_allocate_cost_constrained` and `allocate_quotas`.
-- The linear program with its solver is an argument, from the strata and the thresholds of the branches to
-- the outcome; `solver_details` and `_infer_violations` only describe the outcome and are left out.
use domain_determine.Base.{
  ℕ, String, ◌&&◌, some, List, [], ◌∷◌, ◌++◌, ◌==◌, nat_eq, string_eq, if◌then◌else◌, show, ◌<>◌,
  truthy,
}
use domain_determine.Base.Dict.{Dict}
use domain_determine.CoveragePlanner.Allocation.{Floats}
use domain_determine.CoveragePlanner.Allocation.Strategies.{
  Result, ok, ◌>>=◌, Input, ConstraintConfig, AllocationResult, sum_of, sum_from, scaled,
  effective_branch_thresholds,
}
use domain_determine.CoveragePlanner.Allocation.Strategies.Quotas.{
  validate_constraints, rounded_result, allocate_with_strategy,
}

module _ (floats : Floats) where
  open floats use {Float, tiny, of_int, subtract, divided, absolute, is_nonzero, lt}

  -- The values of an optimal solution with the two notes on it, or the reason of a failure
  pub data Solved : Type 0 where
    optimal : Dict Float → List String → Solved
    failed : String → Solved

  -- ', '.join(f"{k}{relation}{v}" for k, v in d.items())
  unfoldable pub bounds_text : String → Dict ℕ → String
  bounds_text relation [] = ""
  bounds_text relation ((k, n) ∷ []) = k <> relation <> show n
  bounds_text relation ((k, n) ∷ p ∷ d) =
      k <> relation <> show n <> ", " <> bounds_text relation (p ∷ d)

  abbrev pub or_none : String → String
  or_none s = if truthy s then s else "none"

  -- The values of the solution, scaled where they miss the total
  unfoldable pub scaled_solution : Dict Float → ℕ → Dict Float
  unfolding sum_from scaled
  scaled_solution raw total =
      let sum = sum_of floats raw in
      if is_nonzero sum && lt tiny (absolute (subtract sum (of_int total)))
      then scaled floats (divided (of_int total) sum) raw
      else raw

  abbrev pub fallback_of : ConstraintConfig floats → String
  fallback_of c = if truthy c.fallback_strategy then c.fallback_strategy else "uniform"

  abbrev pub with_failure : String → String → AllocationResult floats → AllocationResult floats
  with_failure fallback reason r = record r {
    deviations =
        r.deviations ++ ("Fell back to " <> fallback <> " due to LP failure: " <> reason) ∷ [];
    failure = some reason;
  }

  abbrev pub Solver : Type 0
  Solver = List (Input floats) → Dict ℕ → Dict ℕ → Solved

  -- What follows the solver's answer
  unfoldable pub after_solving :
      Solved
      → List (Input floats)
      → ConstraintConfig floats
      → Dict ℕ
      → Dict ℕ
      → Result (AllocationResult floats)
  unfolding allocate_with_strategy rounded_result scaled_solution bounds_text
  after_solving (failed reason) inputs c minimums maximums =
      allocate_with_strategy floats inputs (record c { allocation_strategy = fallback_of c })
      >>= λ r. ok (with_failure (fallback_of c) reason r)
  after_solving (optimal values notes) inputs c minimums maximums =
      rounded_result floats inputs c.total_items "cost_constrained" (
        scaled_solution values c.total_items,
        notes
            ++ ("Branch minima: "
                <> or_none (bounds_text ">=" minimums)
                <> "; maxima: "
                <> or_none (bounds_text "<=" maximums))
              ∷ [],
      )

  -- _allocate_cost_constrained
  unfoldable pub allocate_cost_constrained :
      Solver → List (Input floats) → ConstraintConfig floats → Result (AllocationResult floats)
  unfolding effective_branch_thresholds after_solving
  allocate_cost_constrained solve inputs c =
      let (minimums, maximums) = effective_branch_thresholds floats inputs c in
      after_solving (solve inputs minimums maximums) inputs c minimums maximums

  -- allocate_quotas
  unfoldable pub allocate_quotas :
      Solver → List (Input floats) → ConstraintConfig floats → Result (AllocationResult floats)
  unfolding validate_constraints allocate_cost_constrained allocate_with_strategy
  allocate_quotas solve inputs c = validate_constraints floats c >>= λ _.
      (if c.allocation_strategy == "cost_constrained"
        then allocate_cost_constrained solve inputs c
        else allocate_with_strategy floats inputs c)
