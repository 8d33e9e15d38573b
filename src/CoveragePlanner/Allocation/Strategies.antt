-- ===== src/CoveragePlanner/Allocation/Strategies.antt =====
-- src/DomainDetermine/coverage_planner/allocation.py: the weights, the thresholds of the branches and the
-- allocation by each strategy; `ConstraintConfig.validate` of coverage_planner/models.py. The linear
-- program and its solver are an argument. A ValueError is a value.
pub mod Quotas
pub mod Solver
pub mod Fallback
pub mod Strata
pub mod Weights
pub mod Totals
use domain_determine.Base.{
  ℕ, zero, suc, ◌+◌, ◌-◌, ◌*◌, ◌/◌, ◌%◌, ◌≤◌, ◌<◌, String, ◌≡◌, ◌≢◌, ◌↔◌, ◌⊎◌, inl, inr, refl, sym,
  ap, ◌∙◌, Bool, true, false, not, ◌&&◌, ◌||◌, Option, none, some, List, [], ◌∷◌, ◌++◌, map, arith,
  Eq, ◌==◌, nat_eq, string_eq, nat_beq, eq_of_discrete, if◌then◌else◌, ltb, leb, is_some, get_or,
  Bool-cases, Option-cases, absurd_bool, none_some, some_inj, or_left, or_right, length, keep,
  every, some_of, contains, add, to_set, subset, meets, insert_sorted, sorted, text_le, All,
  length-append, contains-append, contains-add, contains-to_set, contains_of_subset, subset_mono,
  contains-sorted, show, ◌<>◌, emit, digit, value, code-digit, value-show, show-injective,
  numbered-injective, truthy, truthy_opt, is_space, strip_left, strip_right, strip, prepend, split,
  split_once, eq_iff,
}
use domain_determine.Base.Dict
use domain_determine.Base.Dict.{
  Dict, get-put, get-put_self, get-put_ne, get-remove, size-put, size-put_new, size-put_old,
  put_new, values-append,
}
use mathlib.Core.Option
use domain_determine.CoveragePlanner.Allocation.{
  Floats, StratumAllocationInput, total_of, at, floors, largest_remainder,
}
use domain_determine.CoveragePlanner.Allocation.Maximums.{
  Respected, respected, value_error, out_of_rounds, respect_maximums,
}

pub data AllocationError : Type 0 where
  total_items_not_positive mixing_out_of_range floor_negative ceiling_not_positive : AllocationError
  same_fallback needs_solver unable_to_redistribute more_rounds : AllocationError
  unknown_strategy : String → AllocationError

pub data Result {ℓ} (A : Type ℓ) : Type ℓ where
  ok : A → Result A
  raised : AllocationError → Result A

infixl 5 ◌>>=◌
abbrev pub ◌>>=◌ {ℓ κ} : {A : Type ℓ} {B : Type κ} → Result A → (A → Result B) → Result B
raised e >>= f = raised e
ok a >>= f = f a

-- if test: raise e
abbrev pub raise_if : Bool → AllocationError → Result (Unit {0})
raise_if true e = raised e
raise_if false e = ok tt

-- A given value that passes a test
abbrev pub some_float {ℓ} : {A : Type ℓ} → (A → Bool) → Option A → Bool
some_float test none = false
some_float test (some f) = test f

abbrev pub is_nil {ℓ} : {A : Type ℓ} → List A → Bool
is_nil [] = true
is_nil (x ∷ xs) = false

-- d.setdefault(k, v)
abbrev pub put_default {ℓ} : {V : Type ℓ} → Dict V → String → V → Dict V
put_default d k v = if Dict.has d k then d else Dict.put d k v

module _ (floats : Floats) where
  open floats use {
    Float, zero, one, tiny, of_int, add, subtract, times, divided, absolute, is_nonzero, lt, le,
    floor, ceil, shown,
  }

  abbrev pub Input : Type 0
  Input = StratumAllocationInput floats

  pub record ConstraintConfig : Type 0 where
    pub total_items : ℕ
    pub branch_minimums : Dict ℕ
    pub branch_maximums : Dict ℕ
    pub fairness_floor : Option Float
    pub fairness_ceiling : Option Float
    pub observed_prevalence : Dict Float
    pub mixing_parameter : Float
    pub allocation_strategy : String
    pub fallback_strategy : String

  pub record AllocationResult : Type 0 where
    pub pre_round : Dict Float
    pub rounded : Dict ℕ
    pub rounding_delta : Dict Float
    pub fairness_notes : List String
    pub deviations : List String
    pub strategy_used : String
    -- the reason in the failure manifest
    pub failure : Option String

  abbrev pub float_at : Dict Float → String → Float
  float_at d k = get_or (Dict.get d k) zero

  -- max(a, b)
  abbrev pub max_of : Float → Float → Float
  max_of a b = if lt a b then b else a

  -- sum(d.values()) and sum(raw[e.stratum_id] for e in es)
  unfoldable pub sum_from : Float → Dict Float → Float
  sum_from total [] = total
  sum_from total ((k, v) ∷ d) = sum_from (add total v) d

  abbrev pub sum_of : Dict Float → Float
  sum_of d = sum_from zero d

  unfoldable pub branch_sum : Dict Float → Float → List Input → Float
  branch_sum raw total [] = total
  branch_sum raw total (e ∷ es) = branch_sum raw (add total (float_at raw e.stratum_id)) es

  -- {k: v * factor}
  unfoldable pub scaled : Float → Dict Float → Dict Float
  scaled factor [] = []
  scaled factor ((k, v) ∷ d) = (k, times v factor) ∷ scaled factor d

  -- _rescale
  unfoldable pub rescale : Dict Float → ℕ → Dict Float
  unfolding sum_from scaled
  rescale values total =
      let sum = sum_of values in
      scaled (if is_nonzero sum then divided (of_int total) sum else zero) values

  -- minimums.setdefault(entry.branch_id, n), for each entry
  unfoldable pub default_all : ℕ → List Input → Dict ℕ → Dict ℕ
  default_all n [] d = d
  default_all n (e ∷ es) d = default_all n es (put_default d e.branch_id n)

  abbrev pub with_defaults : Option ℕ → List Input → Dict ℕ → Dict ℕ
  with_defaults none inputs d = d
  with_defaults (some n) inputs d = default_all n inputs d

  -- _effective_branch_thresholds
  unfoldable pub effective_branch_thresholds : List Input → ConstraintConfig → Dict ℕ × Dict ℕ
  unfolding default_all
  effective_branch_thresholds inputs c =
      let share = λ (f : Float). times (of_int c.total_items) f in
      (
        with_defaults (Option.map (λ f. floor (share f)) c.fairness_floor) inputs c.branch_minimums,
        with_defaults (Option.map (λ f. ceil (share f)) c.fairness_ceiling) inputs
            c.branch_maximums,
      )

  -- branch_map.get(branch, [])
  abbrev pub members : List Input → String → List Input
  members inputs branch = keep (λ (e : Input). e.branch_id == branch) inputs

  abbrev pub at_least_one : ℕ → ℕ
  at_least_one n = if nat_beq n 0 then 1 else n

  -- raw[entry.stratum_id] += per_stratum, for each entry
  unfoldable pub raise_members : Float → List Input → Dict Float → Dict Float
  raise_members amount [] raw = raw
  raise_members amount (e ∷ es) raw =
      raise_members amount es (Dict.put raw e.stratum_id (add (float_at raw e.stratum_id) amount))

  -- raw[entry.stratum_id] = max(0.0, raw[entry.stratum_id] - per_stratum), for each entry
  unfoldable pub lower_members : Float → List Input → Dict Float → Dict Float
  lower_members amount [] raw = raw
  lower_members amount (e ∷ es) raw =
      lower_members amount es
        (Dict.put raw e.stratum_id (max_of zero (subtract (float_at raw e.stratum_id) amount)))

  -- The loop over the minimums, and the loop over the maximums: the shares and the notes
  unfoldable pub raise_branches :
      List Input → Dict ℕ → Dict Float × List String → Dict Float × List String
  unfolding branch_sum keep raise_members
  raise_branches inputs [] s = s
  raise_branches inputs ((branch, minimum) ∷ rest) (raw, notes) =
      let group = members inputs branch in
      let current = branch_sum raw zero group in
      let shortfall = subtract (of_int minimum) current in
      let next = if le (of_int minimum) current then (raw, notes) else (
        raise_members (divided shortfall (of_int (at_least_one (length group)))) group raw,
        notes
            ++ ("Raised branch " <> branch <> " by " <> shown shortfall <> " items to meet minimum")
              ∷ [],
      ) in
      raise_branches inputs rest next

  unfoldable pub lower_branches :
      List Input → Dict ℕ → Dict Float × List String → Dict Float × List String
  unfolding branch_sum keep lower_members
  lower_branches inputs [] s = s
  lower_branches inputs ((branch, maximum) ∷ rest) (raw, notes) =
      let group = members inputs branch in
      let current = branch_sum raw zero group in
      let excess = subtract current (of_int maximum) in
      let next = if le current (of_int maximum) then (raw, notes) else (
        lower_members (divided excess (of_int (at_least_one (length group)))) group raw,
        notes
            ++ ("Reduced branch " <> branch <> " by " <> shown excess <> " items to honor maximum")
              ∷ [],
      ) in
      lower_branches inputs rest next

  -- _apply_branch_thresholds
  unfoldable pub apply_branch_thresholds :
      Dict Float → List Input → Dict ℕ → Dict ℕ → ℕ → Dict Float × List String
  unfolding raise_branches lower_branches rescale
  apply_branch_thresholds raw inputs minimums maximums total =
      let (higher, notes) = raise_branches inputs minimums (raw, []) in
      let (lower, notes') = lower_branches inputs maximums (rescale higher total, notes) in
      (rescale lower total, notes')
