-- ===== src/Readiness/Pipeline/Runs.antt =====
-- ReadinessPipeline.run: what an overall pass means.
use domain_determine.Base.{
  ℕ, String, ◌≡◌, inl, inr, refl, sym, ap, ◌∙◌, Bool, true, false, not, ◌&&◌, ◌||◌, some, List, [],
  ◌∷◌, arith, nat_eq, string_eq, Bool-cases, some_inj, every, All, if◌then◌else◌,
}
use domain_determine.Base.{◌⊎◌}
use domain_determine.Readiness.Pipeline.{PipelineError}
use domain_determine.Readiness.Pipeline.{
  Clock, ReadinessReport, ReadinessSuiteResult, Ran, ran, raised, tries, attempt_loop, suite_result,
  run_suite, Planned, run_planned, before, after_suite, run_suites, suite_blocking, tolerated,
  report_of, run_pipeline,
}

module _ (clock : Clock) where
  -- The suite types of a plan each have one setting of `blocking`.
  abbrev pub Agrees : List (Planned clock) → List (Planned clock) → Type 0
  Agrees plan = All (λ (p : Planned clock). suite_blocking clock plan p.0.suite ≡ p.0.blocking)

  -- The suite returns a result, and has passed.
  abbrev pub passes : Ran (ReadinessSuiteResult clock) → Bool
  passes (raised e) = false
  passes (ran result) = result.passed

  abbrev pub acceptable : Planned clock → Bool
  acceptable p = not p.0.blocking || passes (run_planned clock p)

  otherwise {ℓ} : {A : Type ℓ} (b : Bool) (x y : A) → b ≡ false → (if b then x else y) ≡ y
  otherwise b x y h = ground (arith, h)

  ran_inj {ℓ} : {A : Type ℓ} (a b : A) → ran a ≡ ran b → a ≡ b
  ran_inj {A = A} a b e =
      some_inj a b (ap (λ (r : Ran A). elim r [ raised x ↦ some a | ran y ↦ some y ]) e)

  before-ran :
      {r : ReadinessSuiteResult clock} {results : List (ReadinessSuiteResult clock)}
      (rest : Ran (List (ReadinessSuiteResult clock)))
      → before clock r rest ≡ ran results
      → (rs : List (ReadinessSuiteResult clock)) × (rest ≡ ran rs) × (r ∷ rs ≡ results)
  before-ran (raised x) e = cc
  before-ran (ran rs) e = (rs, refl, ran_inj _ _ e)

  module _ (plan : List (Planned clock)) (r : ReadinessSuiteResult clock) (others : Bool)
      (rest : Ran (List (ReadinessSuiteResult clock)))
      (behind : (results : List (ReadinessSuiteResult clock))
        → rest ≡ ran results
        → every (tolerated clock plan) results ≡ others)
      (results : List (ReadinessSuiteResult clock)) where
    tolerated-before :
        tolerated clock plan r ≡ true
        → before clock r rest ≡ ran results
        → every (tolerated clock plan) results ≡ others
    unfolding every
    tolerated-before t e =
        let (rs, from, is) = before-ran rest e in rw (sym is) (ground (arith, t, behind rs from))

    tolerated-after_suite :
        (blocking : Bool)
        → suite_blocking clock plan r.suite ≡ blocking
        → after_suite clock blocking (ran r) rest ≡ ran results
        → every (tolerated clock plan) results ≡ ((not blocking || r.passed) && others)
    unfolding every
    tolerated-after_suite false same e = tolerated-before (ground (arith, same)) e
    tolerated-after_suite true same e = elim (Bool-cases r.passed) [
      | inl passed ↦ rw passed (
          tolerated-before (ground (arith, passed))
            (sym (otherwise (not r.passed) _ _ (ap not passed)) ∙ e))
      | inr failed ↦
          let is : r ∷ [] ≡ results = ran_inj (r ∷ []) results (ground (arith, failed, e)) in
          rw (sym is) (ground (arith, same, failed))
    ]

  tolerated-suite_result :
      (plan : List (Planned clock)) (p : Planned clock) (others : Bool) (start finished : ℕ)
      (loop : Ran (ℕ × Bool × String)) (rest : Ran (List (ReadinessSuiteResult clock)))
      → suite_blocking clock plan p.0.suite ≡ p.0.blocking
      → ((results : List (ReadinessSuiteResult clock))
          → rest ≡ ran results
          → every (tolerated clock plan) results ≡ others)
      → (results : List (ReadinessSuiteResult clock))
      → after_suite clock p.0.blocking (suite_result clock p.0 start finished loop) rest
        ≡ ran results
      → every (tolerated clock plan) results
        ≡ ((not p.0.blocking || passes (suite_result clock p.0 start finished loop)) && others)
  unfolding suite_result
  tolerated-suite_result plan p others start finished (raised x) rest same behind results e = cc
  tolerated-suite_result plan p others start finished (ran (n, succeeds, last)) rest same behind
        results e =
      tolerated-after_suite plan _ others rest behind results p.0.blocking same e

  tolerated-run_suites :
      (plan ps : List (Planned clock))
      → Agrees plan ps
      → (results : List (ReadinessSuiteResult clock)) → run_suites clock ps ≡ ran results
      → every (tolerated clock plan) results ≡ every acceptable ps
  unfolding every run_suites run_suite
  tolerated-run_suites plan [] a results e = rw (sym (ran_inj [] results e)) refl
  tolerated-run_suites plan ((config, attempt, start, finished) ∷ ps) (same, a) results e =
      tolerated-suite_result plan (config, attempt, start, finished) (every acceptable ps) start
        finished (attempt_loop clock attempt (tries config.retries) 0 "") (run_suites clock ps) same
        (tolerated-run_suites plan ps a) results e

  -- The run of some suite of the plan ends in the error.
  abbrev pub SomeRaises : PipelineError → List (Planned clock) → Type 0
  SomeRaises x [] = ⊥
  SomeRaises x (p ∷ ps) = (run_planned clock p ≡ raised x) ⊎ SomeRaises x ps

  raised-before :
      (r : ReadinessSuiteResult clock) {x : PipelineError}
      (rest : Ran (List (ReadinessSuiteResult clock)))
      → before clock r rest ≡ raised x
      → rest ≡ raised x
  raised-before r (raised y) e = ground (arith, e)
  raised-before r (ran rs) e = absurd (ground (arith, e))

  raised-after_suite :
      (blocking : Bool) (one : Ran (ReadinessSuiteResult clock))
      (rest : Ran (List (ReadinessSuiteResult clock))) (x : PipelineError)
      → after_suite clock blocking one rest ≡ raised x
      → (one ≡ raised x) ⊎ (rest ≡ raised x)
  raised-after_suite blocking (raised y) rest x e = inl (ground (arith, e))
  raised-after_suite blocking (ran result) rest x e =
      elim (Bool-cases (blocking && not result.passed)) [
        | inl stops ↦ absurd (ground (arith, stops, e))
        | inr goes_on ↦ inr (raised-before result rest (sym (otherwise _ _ _ goes_on) ∙ e))
      ]

  SomeRaises-run_suites :
      (ps : List (Planned clock)) (x : PipelineError)
      → run_suites clock ps ≡ raised x
      → SomeRaises x ps
  unfolding run_suites
  SomeRaises-run_suites [] x e = absurd (ground (arith, e))
  SomeRaises-run_suites (p ∷ ps) x e =
      elim (raised-after_suite p.0.blocking (run_planned clock p) (run_suites clock ps) x e) [
        | inl here ↦ inl here
        | inr behind ↦ inr (SomeRaises-run_suites ps x behind)
      ]

  Ran-cases {ℓ} :
      {A : Type ℓ} (r : Ran A) → ((a : A) × (r ≡ ran a)) ⊎ ((x : PipelineError) × (r ≡ raised x))
  Ran-cases (ran a) = inl (a, refl)
  Ran-cases (raised x) = inr (x, refl)

  -- A run of at least one suite returns a report, or ends in the error in which the run of one of its
  -- suites ends. The report has passed exactly if every blocking suite of the plan passes when it is run,
  -- also those behind the first blocking failure, at which the run stops. The plan gives each suite type
  -- one setting of `blocking`.
  pub run_pipeline_lem :
      (run_id : String) (p : Planned clock) (ps : List (Planned clock))
      → Agrees (p ∷ ps) (p ∷ ps)
      → ((report : ReadinessReport clock) × (run_pipeline clock run_id (p ∷ ps) ≡ ran report)
          × (report.overall_passed ≡ every acceptable (p ∷ ps)))
        ⊎ ((x : PipelineError) × (run_pipeline clock run_id (p ∷ ps) ≡ raised x)
            × SomeRaises x (p ∷ ps))
  unfolding run_pipeline
  run_pipeline_lem run_id p ps a = elim (Ran-cases (run_suites clock (p ∷ ps))) [
    | inl (results, e) ↦ inl (
      _,
      ap (report_of clock run_id (p ∷ ps)) e,
      tolerated-run_suites (p ∷ ps) (p ∷ ps) a results e,
    )
    | inr (x, e) ↦
        inr (x, ap (report_of clock run_id (p ∷ ps)) e, SomeRaises-run_suites (p ∷ ps) x e)
  ]
