-- ===== src/CoveragePlanner/Runs.antt =====
-- The allocation on two strata. Floats are hundredths, as whole numbers.
use domain_determine.Base.{
  ℕ, ◌+◌, ◌-◌, ◌*◌, ◌/◌, ◌≤◌, String, ◌≡◌, ◌⊎◌, inl, inr, refl, true, false, Option, none, some,
  List, [], ◌∷◌, arith, ◌==◌, nat_eq, string_eq, if◌then◌else◌, ltb, leb, Bool-cases, All, show,
  eq_iff,
}
use domain_determine.Base.Dict
use domain_determine.Base.Dict.{
  Dict, get-put, get-put_self, get-put_ne, get-remove, size-put, size-put_new, size-put_old,
  put_new, values-append,
}
use mathlib.Core.Path.{subst}
use domain_determine.CoveragePlanner.Allocation.{
  Floats, StratumAllocationInput, total_of, at, floors, largest_remainder,
}
use domain_determine.CoveragePlanner.Allocation.Rounding.{count, largest_remainder_bounds}
use domain_determine.CoveragePlanner.Allocation.Maximums.{respected, value_error, respect_maximums}
use domain_determine.CoveragePlanner.Allocation.Maximums.TakenDown.{Within}
use domain_determine.CoveragePlanner.Allocation.Maximums.Settled.{respect_maximums_lem}
use domain_determine.CoveragePlanner.Allocation.Strategies
use domain_determine.CoveragePlanner.Allocation.Strategies.{
  ok, raised, unable_to_redistribute, ConstraintConfig, AllocationResult,
}
use domain_determine.CoveragePlanner.Allocation.Strategies.Quotas
use domain_determine.CoveragePlanner.Allocation.Strategies.Quotas.{
  compute_weights, shares, allocate_with_strategy,
}
use domain_determine.CoveragePlanner.Allocation.Strategies.Solver.{Solver, failed, allocate_quotas}
use domain_determine.CoveragePlanner.Allocation.Strategies.Fallback.{asks, asks-allocate_quotas}
use domain_determine.CoveragePlanner.Allocation.Strategies.Totals.{
  IsClose, allocate_with_strategy_lem,
}

abbrev hundredths : Floats
hundredths = record {
  Float = ℕ;
  zero = 0;
  one = 100;
  tiny = 1;
  of_int = λ n. n * 100;
  add = λ m n. m + n;
  subtract = λ m n. m - n;
  times = λ m n. m * n / 100;
  divided = λ m n. m * 100 / n;
  absolute = λ n. n;
  is_nonzero = λ n. ltb 0 n;
  lt = ltb;
  le = leb;
  floor = λ n. n / 100;
  ceil = λ n. (n + 99) / 100;
  shown = show;
}

abbrev stratum : String → Option ℕ → StratumAllocationInput hundredths
stratum id maximum = record {
  stratum_id = id;
  branch_id = "b";
  concept_id = id;
  size_weight = 100;
  variance = none;
  cost_weight = none;
  risk_weight = none;
  minimum = 1;
  maximum = maximum;
  policy_flags = [];
  observed_prevalence = none;
}

abbrev strata : List (StratumAllocationInput hundredths)
strata = stratum "s1" (some 2) ∷ stratum "s2" none ∷ []

abbrev maximum_of : String → Option ℕ
maximum_of k = if k == "s1" then some 2 else none

abbrev uniform_shares : Dict ℕ
uniform_shares = ("s1", 250) ∷ ("s2", 250) ∷ []

keys_once : (k : String) → count (Dict.keys uniform_shares) k ≤ 1
unfolding count Dict.keys
keys_once k = elim (Bool-cases ("s1" == k)) [
  | inl same ↦
      subst (λ j. count (Dict.keys uniform_shares) j ≤ 1) ((eq_iff "s1" k).0 same) (omega arith)
  | inr other ↦ rw (Dict.keys, count, other) (ground arith)
]

floors_below : total_of (floors hundredths uniform_shares) ≤ 5
unfolding total_of floors
floors_below = omega arith

floors_near : 5 ≤ total_of (floors hundredths uniform_shares) + Dict.size uniform_shares
unfolding total_of floors Dict.size
floors_near = omega arith

largest_remainder_bounds_example :
    (total_of (largest_remainder hundredths uniform_shares 5) ≡ 5)
    × ((k : String)
        → (at (floors hundredths uniform_shares) k
            ≤ at (largest_remainder hundredths uniform_shares 5) k)
          × (at (largest_remainder hundredths uniform_shares 5) k
              ≤ at (floors hundredths uniform_shares) k + 1))
largest_remainder_bounds_example =
    largest_remainder_bounds hundredths uniform_shares 5 keys_once floors_below floors_near

abbrev rounded_shares : Dict ℕ
rounded_shares = ("s1", 3) ∷ ("s2", 2) ∷ []

first_there : Dict.has rounded_shares "s1" ≡ true
unfolding Dict.get
first_there = refl

second_there : Dict.has rounded_shares "s2" ≡ true
unfolding Dict.get
second_there = refl

add_up : total_of rounded_shares ≡ 5
unfolding total_of
add_up = refl

respect_maximums_lem_example :
    (respect_maximums hundredths rounded_shares strata 5 ≡ value_error)
    ⊎ ((after : Dict ℕ) × (notes : List String) × (respect_maximums hundredths rounded_shares strata
            5
          ≡ respected after notes)
        × (total_of after ≡ 5)
        × All (Within hundredths maximum_of after) strata)
respect_maximums_lem_example =
    respect_maximums_lem hundredths maximum_of rounded_shares strata 5
      ((first_there, refl), ((second_there, refl), tt)) add_up

abbrev five_items : ConstraintConfig hundredths
five_items = record {
  total_items = 5;
  branch_minimums = [];
  branch_maximums = [];
  fairness_floor = none;
  fairness_ceiling = none;
  observed_prevalence = [];
  mixing_parameter = 0;
  allocation_strategy = "uniform";
  fallback_strategy = "uniform";
}

abbrev equal_weights : Dict ℕ
equal_weights = ("s1", 100) ∷ ("s2", 100) ∷ []

are_weighed : compute_weights hundredths strata "uniform" ≡ ok equal_weights
unfolding compute_weights Quotas.weights_into Quotas.weight_of Strategies.sum_from Dict.put
are_weighed = refl

-- The shares before the rounding
share_code : Unit {0}
unfolding shares Quotas.shares_of Quotas.apply_prevalence_mixing Quotas.raise_to_minimums
    Strategies.sum_from Strategies.rescale Strategies.scaled Strategies.effective_branch_thresholds
    Strategies.apply_branch_thresholds Strategies.raise_branches Strategies.lower_branches Dict.get
    Dict.put
share_code = tt

equal_shares : (shares hundredths strata five_items equal_weights).0 ≡ uniform_shares
unfolding share_code
equal_shares = refl

shares-IsClose : IsClose hundredths (shares hundredths strata five_items equal_weights).0 5
shares-IsClose = rw equal_shares (floors_below, floors_near)

allocate_with_strategy_lem_example :
    (allocate_with_strategy hundredths strata five_items ≡ raised unable_to_redistribute)
    ⊎ ((r : AllocationResult hundredths) × (allocate_with_strategy hundredths strata five_items
          ≡ ok r)
        × (total_of r.rounded ≡ 5)
        × All (Within hundredths maximum_of r.rounded) strata)
allocate_with_strategy_lem_example =
    allocate_with_strategy_lem hundredths maximum_of strata five_items equal_weights
      (refl, (refl, tt)) are_weighed shares-IsClose

abbrev by_cost : ConstraintConfig hundredths
by_cost = record five_items {
  allocation_strategy = "cost_constrained";
  branch_minimums = ("b", 2) ∷ [];
}

abbrev no_solver : Solver hundredths
no_solver inputs minimums maximums = failed "PuLP solver is not installed"

asks-allocate_quotas_example : asks (allocate_quotas hundredths no_solver strata by_cost) ≡ false
asks-allocate_quotas_example = asks-allocate_quotas hundredths no_solver strata by_cost
