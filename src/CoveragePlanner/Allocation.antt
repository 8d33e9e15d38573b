-- ===== src/CoveragePlanner/Allocation.antt =====
-- src/DomainDetermine/coverage_planner/allocation.py. Here: the strata and the rounding of their shares.
-- Floats are the interface `Floats`; quotas are natural numbers, since shares are never negative.
pub mod Rounding
pub mod Maximums
pub mod Strategies
use domain_determine.Base.{
  ℕ, zero, suc, ◌+◌, ◌-◌, ◌*◌, ◌/◌, ◌%◌, ◌≤◌, ◌<◌, String, ◌≡◌, ◌≢◌, ◌↔◌, ◌⊎◌, inl, inr, refl, sym,
  ap, ◌∙◌, Bool, true, false, not, ◌&&◌, ◌||◌, Option, none, some, List, [], ◌∷◌, ◌++◌, map, arith,
  Eq, ◌==◌, nat_eq, string_eq, nat_beq, eq_of_discrete, if◌then◌else◌, ltb, leb, is_some, get_or,
  Bool-cases, Option-cases, absurd_bool, none_some, some_inj, or_left, or_right, length, keep,
  every, some_of, contains, add, to_set, subset, meets, insert_sorted, sorted, text_le, All,
  length-append, contains-append, contains-add, contains-to_set, contains_of_subset, subset_mono,
  contains-sorted, show, ◌<>◌, emit, digit, value, code-digit, value-show, show-injective,
  numbered-injective, truthy, truthy_opt, is_space, strip_left, strip_right, strip, prepend, split,
  split_once, eq_iff,
}
use domain_determine.Base.Dict
use domain_determine.Base.Dict.{
  Dict, get-put, get-put_self, get-put_ne, get-remove, size-put, size-put_new, size-put_old,
  put_new, values-append,
}

-- What the module does with floats
pub record Floats : Type 1 where
  pub Float : Type 0
  pub zero : Float
  pub one : Float
  -- 1e-6
  pub tiny : Float
  pub of_int : ℕ → Float
  pub add : Float → Float → Float
  pub subtract : Float → Float → Float
  pub times : Float → Float → Float
  pub divided : Float → Float → Float
  pub absolute : Float → Float
  -- bool(x)
  pub is_nonzero : Float → Bool
  pub lt : Float → Float → Bool
  pub le : Float → Float → Bool
  pub floor : Float → ℕ
  pub ceil : Float → ℕ
  -- the text of a float in an f-string
  pub shown : Float → String

-- sum(d.values()), of whole numbers
unfoldable pub total_of : Dict ℕ → ℕ
total_of [] = 0
total_of ((k, n) ∷ d) = n + total_of d

-- d[k], for a key that is there
abbrev pub at : Dict ℕ → String → ℕ
at d k = get_or (Dict.get d k) 0

-- xs[:n]
unfoldable pub take {ℓ} : {A : Type ℓ} → ℕ → List A → List A
take zero xs = []
take (suc n) [] = []
take (suc n) (x ∷ xs) = x ∷ take n xs

-- allocations[k] += 1, for each k
unfoldable pub raise_each : List String → Dict ℕ → Dict ℕ
raise_each [] d = d
raise_each (k ∷ ks) d = raise_each ks (Dict.put d k (at d k + 1))

module _ (floats : Floats) where
  open floats use {Float, subtract, of_int, lt, floor}

  unfoldable pub floors : Dict Float → Dict ℕ
  floors [] = []
  floors ((k, v) ∷ d) = (k, floor v) ∷ floors d

  -- The sort key (-remainder, stratum_id)
  abbrev pub ranked_le : Float × String → Float × String → Bool
  ranked_le (x, s) (y, t) = lt y x || (not (lt x y) && text_le s t)

  unfoldable pub insert_ranked : Float × String → List (Float × String) → List (Float × String)
  insert_ranked p [] = p ∷ []
  insert_ranked p (q ∷ qs) = if ranked_le p q then p ∷ q ∷ qs else q ∷ insert_ranked p qs

  unfoldable pub ranked : Dict Float → List (Float × String)
  unfolding insert_ranked
  ranked [] = []
  ranked ((k, v) ∷ d) = insert_ranked (subtract v (of_int (floor v)), k) (ranked d)

  abbrev pub names : List (Float × String) → List String
  names ps = map (λ (p : Float × String). p.1) ps

  -- _largest_remainder; `ranked[:max(remainder, 0)]` with a remainder that stops at 0
  unfoldable pub largest_remainder : Dict Float → ℕ → Dict ℕ
  unfolding floors ranked take raise_each total_of
  largest_remainder targets total =
      raise_each (take (total - total_of (floors targets)) (names (ranked targets)))
        (floors targets)

  pub record StratumAllocationInput : Type 0 where
    pub stratum_id : String
    pub branch_id : String
    pub concept_id : String
    pub size_weight : Float
    pub variance : Option Float
    pub cost_weight : Option Float
    pub risk_weight : Option Float
    pub minimum : ℕ
    pub maximum : Option ℕ
    pub policy_flags : List String
    pub observed_prevalence : Option Float
