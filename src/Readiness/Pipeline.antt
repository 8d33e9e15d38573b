-- ===== src/Readiness/Pipeline.antt =====
-- src/DomainDetermine/readiness/models.py and readiness/pipeline.py. A run of a suite's command is an
-- argument, `attempt`, from the command and the number of the attempt to how the process ended. Floats are
-- the interface `Clock`. The metrics, spans and the files of the logs are left out.
pub mod Attempts
pub mod Runs
use domain_determine.Base.{
  ℕ, zero, suc, ◌+◌, ◌-◌, ◌*◌, ◌/◌, ◌%◌, ◌≤◌, ◌<◌, String, ◌≡◌, ◌≢◌, ◌↔◌, ◌⊎◌, inl, inr, refl, sym,
  ap, ◌∙◌, Bool, true, false, not, ◌&&◌, ◌||◌, Option, none, some, List, [], ◌∷◌, ◌++◌, map, arith,
  Eq, ◌==◌, nat_eq, string_eq, nat_beq, eq_of_discrete, if◌then◌else◌, ltb, leb, is_some, get_or,
  Bool-cases, Option-cases, absurd_bool, none_some, some_inj, or_left, or_right, length, keep,
  every, some_of, contains, add, to_set, subset, meets, insert_sorted, sorted, text_le, All,
  length-append, contains-append, contains-add, contains-to_set, contains_of_subset, subset_mono,
  contains-sorted, show, ◌<>◌, emit, digit, value, code-digit, value-show, show-injective,
  numbered-injective, truthy, truthy_opt, is_space, strip_left, strip_right, strip, prepend, split,
  split_once, eq_iff,
}
use mathlib.Core.Option
use domain_determine.Base.Int.{ℤ, pos, negsuc}

pub data SuiteType : Type 0 where
  unit integration end_to_end performance security : SuiteType

abbrev pub suite_beq : SuiteType → SuiteType → Bool
suite_beq unit unit = true
suite_beq integration integration = true
suite_beq end_to_end end_to_end = true
suite_beq performance performance = true
suite_beq security security = true
suite_beq _ _ = false

-- How a call of subprocess.run ended: with the code 0, with another code or by the time limit, with the
-- error's text, or in an OSError, as for a command that is not found
pub data Ended : Type 0 where
  succeeded : Ended
  called_process_error timeout_expired os_failure : String → Ended

-- What leaves the pipeline as an exception: the ValueError of a pipeline without suites, and OSError
pub data PipelineError : Type 0 where
  no_suites : PipelineError
  os_error : String → PipelineError

pub data Ran {ℓ} (A : Type ℓ) : Type ℓ where
  ran : A → Ran A
  raised : PipelineError → Ran A

-- `attempts <= retries`, from 0 on, holds so often; never, for a negative number of retries.
abbrev pub tries : ℤ → ℕ
tries (pos n) = suc n
tries (negsuc n) = 0

-- What the pipeline does with floats: durations between two times, numbers as floats, and `>`.
pub record Clock : Type 1 where
  pub Float : Type 0
  pub seconds_between : ℕ → ℕ → Float
  pub of_number : ℕ → Float
  pub gt : Float → Float → Bool

module _ (clock : Clock) where
  open clock use {Float, seconds_between, of_number, gt}

  pub record SuiteThresholds : Type 0 where
    pub max_duration_seconds : Option Float
    pub max_flake_rate : Option Float
    pub min_success_rate : Option Float
    pub max_error_budget_burn : Option Float

  pub record SuiteConfig : Type 0 where
    pub suite : SuiteType
    pub command : List String
    pub blocking : Bool
    pub retries : ℤ
    pub thresholds : Option SuiteThresholds

  -- The metrics of a suite's run: `success_rate`, `flake_rate` and `error_budget_burn` are optional.
  pub record Metrics : Type 0 where
    pub duration_seconds : Float
    pub attempts : Float
    pub success_rate : Option Float
    pub flake_rate : Option Float
    pub error_budget_burn : Option Float

  pub record ReadinessSuiteResult : Type 0 where
    pub suite : SuiteType
    pub passed : Bool
    pub started_at : ℕ
    pub finished_at : ℕ
    pub command : List String
    pub attempts : ℕ
    pub metrics : Metrics
    pub notes : String
    pub threshold_violations : List String

  pub record ReadinessReport : Type 0 where
    pub run_id : String
    pub suites : List ReadinessSuiteResult
    pub overall_passed : Bool
    pub total_suites : ℕ
    pub passed_suites : ℕ
    pub failures : List SuiteType

  -- Both are given, and the first is above the second.
  abbrev pub exceeds : Option Float → Option Float → Bool
  exceeds (some value) (some limit) = gt value limit
  exceeds _ _ = false

  -- ReadinessPipeline._evaluate_thresholds; the texts of the violations are their kinds.
  unfoldable pub evaluate_thresholds : Option SuiteThresholds → Metrics → List String
  evaluate_thresholds none m = []
  evaluate_thresholds (some t) m =
      (if exceeds (some m.duration_seconds) t.max_duration_seconds then "duration" ∷ [] else [])
      ++ ((if exceeds t.min_success_rate m.success_rate then "success rate" ∷ [] else [])
          ++ ((if exceeds m.flake_rate t.max_flake_rate then "flake rate" ∷ [] else [])
              ++ (if exceeds m.error_budget_burn t.max_error_budget_burn
                  then "error budget burn" ∷ []
                  else [])))

  -- `while attempts <= config.retries and not passed`, with the attempts that are left: the attempts made,
  -- whether the last one succeeded, and its error.
  abbrev pub after_attempt : Ended → Ran (ℕ × Bool × String) → ℕ → Ran (ℕ × Bool × String)
  after_attempt succeeded later made = ran (made, true, "")
  after_attempt (called_process_error e) later made = later
  after_attempt (timeout_expired e) later made = later
  after_attempt (os_failure e) later made = raised (os_error e)

  abbrev pub error_of : Ended → String → String
  error_of succeeded last_error = last_error
  error_of (called_process_error e) last_error = e
  error_of (timeout_expired e) last_error = e
  error_of (os_failure e) last_error = last_error

  unfoldable pub attempt_loop : (ℕ → Ended) → ℕ → ℕ → String → Ran (ℕ × Bool × String)
  attempt_loop attempt zero made last_error = ran (made, false, last_error)
  attempt_loop attempt (suc left) made last_error =
      let ended = attempt (suc made) in
      let later = attempt_loop attempt left (suc made) (error_of ended last_error) in
      after_attempt ended later (suc made)

  abbrev pub metrics_of : ℕ → ℕ → ℕ → Metrics
  metrics_of start finished attempts = record {
    duration_seconds = seconds_between start finished;
    attempts = of_number attempts;
    success_rate = none;
    flake_rate = none;
    error_budget_burn = none;
  }

  abbrev pub is_empty : List String → Bool
  is_empty [] = true
  is_empty (s ∷ ss) = false

  -- The result of a suite, behind the loop
  unfoldable pub suite_result :
      SuiteConfig → ℕ → ℕ → Ran (ℕ × Bool × String) → Ran ReadinessSuiteResult
  unfolding evaluate_thresholds
  suite_result config start finished (raised e) = raised e
  suite_result config start finished (ran (attempts, succeeds, last_error)) =
      let metrics = metrics_of start finished attempts in
      let violations = evaluate_thresholds config.thresholds metrics in
      ran (record {
        suite = config.suite;
        passed = succeeds && is_empty violations;
        started_at = start;
        finished_at = finished;
        command = config.command;
        attempts = attempts;
        metrics = metrics;
        notes = if succeeds then "" else last_error;
        threshold_violations = violations;
      })

  -- ReadinessPipeline._run_suite
  unfoldable pub run_suite : (ℕ → Ended) → SuiteConfig → ℕ → ℕ → Ran ReadinessSuiteResult
  unfolding attempt_loop suite_result
  run_suite attempt config start finished =
      suite_result config start finished (attempt_loop attempt (tries config.retries) 0 "")

  -- The loop over the suites; each comes with what its command does and its two readings of the clock.
  abbrev pub Planned : Type 0
  Planned = SuiteConfig × (ℕ → Ended) × ℕ × ℕ

  abbrev pub run_planned : Planned → Ran ReadinessSuiteResult
  run_planned (config, attempt, start, finished) = run_suite attempt config start finished

  abbrev pub before :
      ReadinessSuiteResult → Ran (List ReadinessSuiteResult) → Ran (List ReadinessSuiteResult)
  before result (raised e) = raised e
  before result (ran results) = ran (result ∷ results)

  -- `results.append(result)`, and `break` at a blocking failure
  abbrev pub after_suite :
      Bool
      → Ran ReadinessSuiteResult
      → Ran (List ReadinessSuiteResult)
      → Ran (List ReadinessSuiteResult)
  after_suite blocking (raised e) rest = raised e
  after_suite blocking (ran result) rest =
      if blocking && not result.passed then ran (result ∷ []) else before result rest

  unfoldable pub run_suites : List Planned → Ran (List ReadinessSuiteResult)
  unfolding run_suite
  run_suites [] = ran []
  run_suites (p ∷ ps) = let rest = run_suites ps in after_suite p.0.blocking (run_planned p) rest

  -- ReadinessPipeline._suite_blocking: of the first configuration with the suite
  unfoldable pub suite_blocking : List Planned → SuiteType → Bool
  suite_blocking [] suite = true
  suite_blocking (p ∷ ps) suite =
      let rest = suite_blocking ps suite in if suite_beq p.0.suite suite then p.0.blocking else rest

  abbrev pub tolerated : List Planned → ReadinessSuiteResult → Bool
  tolerated plan result = result.passed || not (suite_blocking plan result.suite)

  abbrev pub failed_suites : List ReadinessSuiteResult → List SuiteType
  failed_suites results =
      map (λ (x : ReadinessSuiteResult). x.suite)
        (keep (λ (x : ReadinessSuiteResult). not x.passed) results)

  abbrev pub report_of :
      String → List Planned → Ran (List ReadinessSuiteResult) → Ran ReadinessReport
  report_of run_id plan (raised e) = raised e
  report_of run_id plan (ran results) = ran (record {
    run_id = run_id;
    suites = results;
    overall_passed = every (tolerated plan) results;
    total_suites = length results;
    passed_suites = length (keep (λ (x : ReadinessSuiteResult). x.passed) results);
    failures = failed_suites results;
  })

  -- ReadinessPipeline.run, and the ValueError of a pipeline without suites
  unfoldable pub run_pipeline : String → List Planned → Ran ReadinessReport
  unfolding run_suites suite_blocking every keep
  run_pipeline run_id [] = raised no_suites
  run_pipeline run_id (p ∷ ps) = report_of run_id (p ∷ ps) (run_suites (p ∷ ps))

  -- ReadinessReport.blocking_failures
  unfoldable pub blocking_failures : ReadinessReport → List ReadinessSuiteResult
  unfolding keep
  blocking_failures report = keep (λ (x : ReadinessSuiteResult). not x.passed) report.suites
