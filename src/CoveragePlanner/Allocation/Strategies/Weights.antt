-- ===== src/CoveragePlanner/Allocation/Strategies/Weights.antt =====
-- The weights and the shares have a distinct key for each stratum.
use domain_determine.Base.{
  ℕ, String, ◌≡◌, ◌⊎◌, inl, inr, refl, sym, ap, ◌∙◌, true, false, List, [], ◌∷◌, arith, ◌==◌,
  nat_eq, string_eq, if◌then◌else◌, is_some, Bool-cases, absurd_bool, All,
}
use domain_determine.Base.Dict
use domain_determine.Base.Dict.{
  Dict, get-put, get-put_self, get-put_ne, get-remove, size-put, size-put_new, size-put_old,
  put_new, values-append,
}
use mathlib.Core.Path.{subst}
use domain_determine.CoveragePlanner.Allocation.{Floats}
use domain_determine.CoveragePlanner.Allocation.Rounding.{count}
use domain_determine.CoveragePlanner.Allocation.Maximums.Kept.{All-map}
use domain_determine.CoveragePlanner.Allocation.Strategies.{
  Result, ok, raised, AllocationError, needs_solver, Input, ConstraintConfig, float_at, sum_of,
  effective_branch_thresholds,
}
use domain_determine.CoveragePlanner.Allocation.Strategies.Quotas.{
  weight_of, weights_into, ones, compute_weights, blend, apply_prevalence_mixing, raise_to_minimums,
  shares_of, shares,
}
use domain_determine.CoveragePlanner.Allocation.Strategies.Strata.{
  Distinct, Grows, Grows-refl, Grows-trans, Grows-put, Grows-rescale, Grows-apply_branch_thresholds,
  Grows-if,
}

module _ (floats : Floats) where
  open floats use {Float, zero, one, of_int, add, subtract, times, divided, lt, le}

  Grows-blend :
      (mix : Float) (prevalence : Dict Float) (total : Float) (es : List (Input floats))
      (d : Dict Float)
      → Grows floats d (blend floats mix prevalence total es d)
  unfolding blend
  Grows-blend mix prevalence total [] d = Grows-refl floats d
  Grows-blend mix prevalence total (e ∷ es) d =
      Grows-trans floats (Grows-put floats d e.stratum_id _) (Grows-blend mix prevalence total es _)

  Grows-apply_prevalence_mixing :
      (d : Dict Float) (inputs : List (Input floats)) (c : ConstraintConfig floats)
      → Grows floats d (apply_prevalence_mixing floats d inputs c)
  unfolding apply_prevalence_mixing
  Grows-apply_prevalence_mixing d inputs c =
      Grows-if floats _ (Grows-refl floats d) (Grows-blend c.mixing_parameter _ _ inputs d)

  Grows-raise_to_minimums :
      (es : List (Input floats)) (d : Dict Float) → Grows floats d (raise_to_minimums floats es d)
  unfolding raise_to_minimums
  Grows-raise_to_minimums [] d = Grows-refl floats d
  Grows-raise_to_minimums (e ∷ es) d =
      Grows-trans floats
        (Grows-if floats (lt (float_at floats d e.stratum_id) (of_int e.minimum))
          (Grows-put floats d e.stratum_id _) (Grows-refl floats d))
        (Grows-raise_to_minimums es _)

  keys-shares_of :
      (total : ℕ) (denominator : Float) (d : Dict Float)
      → Dict.keys (shares_of floats total denominator d) ≡ Dict.keys d
  unfolding Dict.keys shares_of
  keys-shares_of total denominator [] = refl
  keys-shares_of total denominator ((k, w) ∷ d) =
      ap (λ ks. k ∷ ks) (keys-shares_of total denominator d)

  has-shares_of :
      (total : ℕ) (denominator : Float) (d : Dict Float) (k : String)
      → Dict.has (shares_of floats total denominator d) k ≡ Dict.has d k
  unfolding Dict.get shares_of
  has-shares_of total denominator [] k = refl
  has-shares_of total denominator ((j, w) ∷ d) k =
      ground (arith, has-shares_of total denominator d k)

  pub Grows-shares :
      (inputs : List (Input floats)) (c : ConstraintConfig floats) (weights : Dict Float)
      → Grows floats weights (shares floats inputs c weights).0
  unfolding shares
  Grows-shares inputs c weights =
      let first : Grows floats weights
          (shares_of floats c.total_items (sum_of floats weights) weights) =
        record {
          distinct =
              λ once k. rw (keys-shares_of c.total_items (sum_of floats weights) weights) (once k);
          has_all =
              λ k there. has-shares_of c.total_items (sum_of floats weights) weights k ∙ there;
        } in
      Grows-trans floats first (
        Grows-trans floats (Grows-apply_prevalence_mixing _ inputs c) (
          Grows-trans floats (Grows-raise_to_minimums inputs _) (
            Grows-trans floats (Grows-rescale floats _ c.total_items) (
              Grows-apply_branch_thresholds floats _ inputs
                (effective_branch_thresholds floats inputs c).0
                (effective_branch_thresholds floats inputs c).1 c.total_items))))

  -- The weights of all strata, under distinct keys
  abbrev pub Covers : List (Input floats) → Dict Float → Type 0
  Covers inputs d = All (λ (e : Input floats). Dict.has d e.stratum_id ≡ true) inputs

  pub Covers-Grows :
      {d e : Dict Float}
      → Grows floats d e
      → (inputs : List (Input floats)) → Covers inputs d
      → Covers inputs e
  Covers-Grows g inputs h =
      All-map (λ (x : Input floats) there. g.has_all x.stratum_id there) inputs h

  has-put_self : (d : Dict Float) (k : String) (v : Float) → Dict.has (Dict.put d k v) k ≡ true
  has-put_self d k v = ap is_some (get-put_self d k v)

  ones-lem :
      (es : List (Input floats)) (d : Dict Float)
      → Grows floats d (ones floats es d) × Covers es (ones floats es d)
  unfolding ones
  ones-lem [] d = (Grows-refl floats d, tt)
  ones-lem (e ∷ es) d =
      let (grows, covers) = ones-lem es (Dict.put d e.stratum_id one) in
      (
        Grows-trans floats (Grows-put floats d e.stratum_id one) grows,
        (grows.has_all e.stratum_id (has-put_self d e.stratum_id one), covers),
      )

  abbrev Weights : Type 0
  Weights = Result (Dict Float)

  ok_inj : (a b : Dict Float) → ok a ≡ ok b → a ≡ b
  ok_inj a b h = ap (λ (r : Weights). elim r [ ok d ↦ d | raised e ↦ a ]) h

  raised_ok : {P : Type 0} (e : AllocationError) (a : Dict Float) → raised e ≡ ok a → P
  raised_ok e a h = absurd_bool (ap (λ (r : Weights). elim r [ ok d ↦ false | raised e ↦ true ]) h)

  Result-cases :
      {A : Type 0} (r : Result A)
      → ((a : A) × (r ≡ ok a)) ⊎ ((e : AllocationError) × (r ≡ raised e))
  Result-cases (ok a) = inl (a, refl)
  Result-cases (raised e) = inr (e, refl)

  weights_into-lem :
      (strategy : String) (es : List (Input floats)) (d w : Dict Float)
      → weights_into floats strategy es d ≡ ok w
      → Grows floats d w × Covers es w
  unfolding weights_into
  weights_into-lem strategy [] d w h =
      (subst (λ x. Grows floats d x) (ok_inj d w h) (Grows-refl floats d), tt)
  weights_into-lem strategy (e ∷ es) d w h = elim (Result-cases (weight_of floats strategy e)) [
    | inl (v, weighed) ↦
        let rest : weights_into floats strategy es (Dict.put d e.stratum_id v) ≡ ok w =
          sym (rw (weights_into, weighed) refl) ∙ h in
        let (grows, covers) = weights_into-lem strategy es (Dict.put d e.stratum_id v) w rest in
        (
          Grows-trans floats (Grows-put floats d e.stratum_id v) grows,
          (grows.has_all e.stratum_id (has-put_self d e.stratum_id v), covers),
        )
    | inr (x, unknown) ↦
        let stops : weights_into floats strategy (e ∷ es) d ≡ raised x =
          rw (weights_into, unknown) refl in
        raised_ok x w (sym stops ∙ h)
  ]

  no_keys : Distinct floats []
  unfolding count Dict.keys
  no_keys k = omega arith

  pub compute_weights-lem :
      (inputs : List (Input floats)) (strategy : String) (w : Dict Float)
      → compute_weights floats inputs strategy ≡ ok w
      → Distinct floats w × Covers inputs w
  unfolding compute_weights
  compute_weights-lem inputs strategy w h = elim (Bool-cases (strategy == "cost_constrained")) [
    | inl constrained ↦
        let stops : compute_weights floats inputs strategy ≡ raised needs_solver =
          rw (compute_weights, constrained) refl in
        raised_ok needs_solver w (sym stops ∙ h)
    | inr other ↦ elim (Result-cases (weights_into floats strategy inputs [])) [
      | inr (x, unknown) ↦
          let stops : compute_weights floats inputs strategy ≡ raised x =
            rw (compute_weights, other, unknown) refl in
          raised_ok x w (sym stops ∙ h)
      | inl (v, weighed) ↦
          let (grows, covers) = weights_into-lem strategy inputs [] v weighed in
          let (grows', covers') = ones-lem inputs [] in
          let test = le (sum_of floats v) zero in
          let result : compute_weights floats inputs strategy
              ≡ ok (if test then ones floats inputs [] else v) =
            rw (compute_weights, other, weighed) refl in
          let same = ok_inj _ w (sym result ∙ h) in
          subst (λ x. Distinct floats x × Covers inputs x) same
            (elim (Bool-cases test) [
              | inl nothing ↦ rw nothing (grows'.distinct no_keys, covers')
              | inr something ↦ rw something (grows.distinct no_keys, covers)
            ])
    ]
  ]
