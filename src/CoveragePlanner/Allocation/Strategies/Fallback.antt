-- ===== src/CoveragePlanner/Allocation/Strategies/Fallback.antt =====
-- The fallback behind a solver that fails never asks for the solver again.
use domain_determine.Base.{
  ℕ, String, ◌≡◌, inl, inr, refl, Bool, true, false, not, ◌&&◌, List, [], ◌∷◌, arith, ◌==◌, nat_eq,
  string_eq, nat_beq, if◌then◌else◌, Bool-cases, truthy,
}
use domain_determine.Base.Dict
use domain_determine.Base.Dict.{
  Dict, get-put, get-put_self, get-put_ne, get-remove, size-put, size-put_new, size-put_old,
  put_new, values-append,
}
use domain_determine.CoveragePlanner.Allocation.{Floats, largest_remainder}
use domain_determine.CoveragePlanner.Allocation.Maximums.{
  Respected, respected, value_error, out_of_rounds, respect_maximums,
}
use domain_determine.CoveragePlanner.Allocation.Strategies.{
  some_float, total_items_not_positive, mixing_out_of_range, floor_negative, ceiling_not_positive,
  AllocationError, needs_solver, same_fallback, Result, ok, raised, ◌>>=◌, raise_if, Input,
  ConstraintConfig, AllocationResult,
}
use domain_determine.CoveragePlanner.Allocation.Strategies.Quotas.{
  validate_constraints, weight_of, weights_into, compute_weights, shares, result_of, rounded_result,
  allocate_with_strategy,
}
use domain_determine.CoveragePlanner.Allocation.Strategies.Solver.{
  Solved, optimal, failed, Solver, fallback_of, after_solving, allocate_cost_constrained,
  allocate_quotas,
}

abbrev pub asks_for_solver : AllocationError → Bool
asks_for_solver needs_solver = true
asks_for_solver _ = false

abbrev pub asks : {A : Type 0} → Result A → Bool
asks (ok a) = false
asks (raised e) = asks_for_solver e

asks-bind :
    {A B : Type 0} (r : Result A) (f : A → Result B)
    → asks r ≡ false
    → ((a : A) → asks (f a) ≡ false)
    → asks (r >>= f) ≡ false
asks-bind (ok a) f h g = g a
asks-bind (raised e) f h g = h

asks-if :
    {A : Type 0} (test : Bool) (r s : Result A)
    → asks r ≡ false
    → asks s ≡ false
    → asks (if test then r else s) ≡ false
asks-if true r s h g = h
asks-if false r s h g = g

asks-when :
    {A : Type 0} (test : Bool) (r s : Result A)
    → (test ≡ true → asks r ≡ false)
    → (test ≡ false → asks s ≡ false)
    → asks (if test then r else s) ≡ false
asks-when true r s h g = h refl
asks-when false r s h g = g refl

-- A chain behind five checks asks only where the last check passes.
asks-checks :
    {A : Type 0} (t1 t2 t3 t4 t5 : Bool) (f : Unit {0} → Result A)
    → (t5 ≡ false → asks (f tt) ≡ false)
    → asks (
        (raise_if t1 total_items_not_positive >>= λ _. raise_if t2 mixing_out_of_range >>= λ _.
        raise_if t3 floor_negative >>= λ _.
        raise_if t4 ceiling_not_positive >>= λ _. raise_if t5 same_fallback)
        >>= f)
      ≡ false
asks-checks true t2 t3 t4 t5 f g = refl
asks-checks false true t3 t4 t5 f g = refl
asks-checks false false true t4 t5 f g = refl
asks-checks false false false true t5 f g = refl
asks-checks false false false false true f g = refl
asks-checks false false false false false f g = g refl

module _ (floats : Floats) where
  open floats use {Float, zero, one, tiny, times, le}

  asks-weight_of :
      (strategy : String) (e : Input floats) → asks (weight_of floats strategy e) ≡ false
  unfolding weight_of
  asks-weight_of strategy e =
      asks-bind _ _
        (asks-if (strategy == "uniform") _ _ refl (
          asks-if (strategy == "proportional") _ _ refl
            (asks-if (strategy == "neyman") _ _ refl refl)))
        (λ w. refl)

  asks-weights_into :
      (strategy : String) (es : List (Input floats)) (d : Dict Float)
      → asks (weights_into floats strategy es d) ≡ false
  unfolding weights_into
  asks-weights_into strategy [] d = refl
  asks-weights_into strategy (e ∷ es) d =
      asks-bind _ _ (asks-weight_of strategy e)
        (λ w. asks-weights_into strategy es (Dict.put d e.stratum_id w))

  asks-rounded_result :
      (inputs : List (Input floats)) (total : ℕ) (strategy : String) (s : Dict Float × List String)
      → asks (rounded_result floats inputs total strategy s) ≡ false
  unfolding rounded_result
  asks-rounded_result inputs total strategy (raw, notes) =
      of_respected raw (largest_remainder floats raw total) notes strategy
        (respect_maximums floats (largest_remainder floats raw total) inputs total)
    where
      of_respected :
          (raw : Dict Float) (rounded : Dict ℕ) (notes : List String) (strategy : String)
          (r : Respected)
          → asks (result_of floats raw rounded notes strategy r) ≡ false
      of_respected raw rounded notes strategy (respected q n) = refl
      of_respected raw rounded notes strategy value_error = refl
      of_respected raw rounded notes strategy out_of_rounds = refl

  asks-allocate_with_strategy :
      (inputs : List (Input floats)) (c : ConstraintConfig floats)
      → (c.allocation_strategy == "cost_constrained") ≡ false
      → asks (allocate_with_strategy floats inputs c) ≡ false
  unfolding allocate_with_strategy compute_weights
  asks-allocate_with_strategy inputs c other =
      asks-bind _ _
        (rw other (asks-bind _ _ (asks-weights_into c.allocation_strategy inputs []) (λ w. refl)))
        (λ w.
          asks-rounded_result inputs c.total_items c.allocation_strategy (shares floats inputs c w))

  fallback-other :
      (c : ConstraintConfig floats)
      → (c.fallback_strategy == "cost_constrained") ≡ false
      → (fallback_of floats c == "cost_constrained") ≡ false
  fallback-other c other = elim (Bool-cases (truthy c.fallback_strategy)) [
    | inl given ↦ rw given other
    | inr blank ↦ rw blank refl
  ]

  asks-after_solving :
      (solved : Solved floats) (inputs : List (Input floats)) (c : ConstraintConfig floats)
      (minimums maximums : Dict ℕ)
      → (c.fallback_strategy == "cost_constrained") ≡ false
      → asks (after_solving floats solved inputs c minimums maximums) ≡ false
  unfolding after_solving
  asks-after_solving (failed reason) inputs c minimums maximums other =
      asks-bind _ _
        (asks-allocate_with_strategy inputs
          (record c { allocation_strategy = fallback_of floats c }) (fallback-other c other))
        (λ r. refl)
  asks-after_solving (optimal values notes) inputs c minimums maximums other =
      asks-rounded_result inputs c.total_items "cost_constrained" _

  -- Whatever the solver answers, `allocate_quotas` never raises the ValueError that the cost-constrained
  -- strategy must be solved by the linear program: the validated fallback does not lead back to it.
  pub asks-allocate_quotas :
      (solve : Solver floats) (inputs : List (Input floats)) (c : ConstraintConfig floats)
      → asks (allocate_quotas floats solve inputs c) ≡ false
  unfolding allocate_quotas validate_constraints allocate_cost_constrained
  asks-allocate_quotas solve inputs c =
      let chosen : Result (AllocationResult floats) =
        if c.allocation_strategy == "cost_constrained"
        then allocate_cost_constrained floats solve inputs c
        else allocate_with_strategy floats inputs c in
      asks-checks (nat_beq c.total_items 0)
        (not (le zero c.mixing_parameter && le c.mixing_parameter one))
        (some_float (λ f. floats.is_nonzero f && floats.lt f zero) c.fairness_floor)
        (some_float (λ f. floats.is_nonzero f && le f zero) c.fairness_ceiling)
        (c.allocation_strategy == "cost_constrained" && c.fallback_strategy == "cost_constrained")
        (λ _. chosen)
        (λ differ.
          asks-when (c.allocation_strategy == "cost_constrained") _ _
            (λ constrained. asks-after_solving _ inputs c _ _ (ground (arith, constrained, differ)))
            (λ other. asks-allocate_with_strategy inputs c other))
