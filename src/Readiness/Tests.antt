-- ===== src/Readiness/Tests.antt =====
-- Readiness on small inputs.
use domain_determine.Base.{
  ℕ, zero, suc, ◌-◌, String, ◌≡◌, refl, true, false, not, ◌&&◌, ◌||◌, Option, none, some, List, [],
  ◌∷◌, nat_eq, string_eq, ltb, keep, every, subset, truthy,
}
use domain_determine.Base.Dict
use domain_determine.Base.Dict.{
  Dict, get-put, get-put_self, get-put_ne, get-remove, size-put, size-put_new, size-put_old,
  put_new, values-append,
}
use domain_determine.Samples.{sample_codec, sample_hashing, empty_governance}
use domain_determine.Governance.Versioning.{ChangeImpact, next_version}
use domain_determine.Governance.Versioning
use domain_determine.Governance.Registry.{
  ◌>>◌, ok, get, version_of, validate_dependencies, validate_prompt_templates, register_if,
  published,
}
use domain_determine.Readiness.Pipeline.{
  Clock, SuiteConfig, integration, Ended, succeeded, timeout_expired, Planned, run_suite,
  run_suites, run_pipeline, ReadinessReport, evaluate_thresholds, attempt_loop, suite_blocking,
  ReadinessSuiteResult, metrics_of, suite_result, ran, raised, PipelineError,
}
use domain_determine.Base.Int.{pos, negsuc}
use domain_determine.Base.{◌⊎◌}
use domain_determine.Readiness.Pipeline.Runs.{run_pipeline_lem, SomeRaises, Agrees, acceptable}
use domain_determine.Readiness.Gate.{
  GateConfig, GateManifest, evaluate_gate, evaluate_gate_lem, is_open, is_fresh, roles_of,
  parse_datetime, Timestamp, aware, naive, closed, type_error, extract_approvals, approvals_into,
  missing_roles,
}
use domain_determine.Readiness.Manifest.{
  ReleaseManifest, Registration, generate_release_manifest, unsigned, sealed, register_manifest,
  parse_all,
}
use domain_determine.Readiness.Manifest.Accepted.{register_manifest_lem}

abbrev whole_seconds : Clock
whole_seconds = record {
  Float = ℕ;
  seconds_between = λ s t. t - s;
  of_number = λ n. n;
  gt = λ m n. ltb n m;
}

-- It fails once and succeeds then.
abbrev flaky : ℕ → Ended
flaky zero = succeeded
flaky (suc zero) = timeout_expired "too slow"
flaky (suc (suc n)) = succeeded

abbrev integration_suite : SuiteConfig whole_seconds
integration_suite = record {
  suite = integration;
  command = "pytest" ∷ [];
  blocking = true;
  retries = pos 1;
  thresholds = none;
}

abbrev second_try : ReadinessSuiteResult whole_seconds
second_try = record {
  suite = integration;
  passed = true;
  started_at = 10;
  finished_at = 20;
  command = "pytest" ∷ [];
  attempts = 2;
  metrics = metrics_of whole_seconds 10 20 2;
  notes = "";
  threshold_violations = [];
}

-- Without any attempt, the suite fails.
no_attempt :
    run_suite whole_seconds flaky (record integration_suite { retries = negsuc 0 }) 10 20
    ≡ ran (record second_try {
      passed = false;
      attempts = 0;
      metrics = metrics_of whole_seconds 10 20 0;
    })
unfolding run_suite attempt_loop suite_result evaluate_thresholds
no_attempt = refl

abbrev planned_suite : Planned whole_seconds
planned_suite = (integration_suite, flaky, 10, 20)

abbrev passed_report : ReadinessReport whole_seconds
passed_report = record {
  run_id = "r1";
  suites = second_try ∷ [];
  overall_passed = true;
  total_suites = 1;
  passed_suites = 1;
  failures = [];
}

it-Agrees : Agrees whole_seconds (planned_suite ∷ []) (planned_suite ∷ [])
unfolding suite_blocking
it-Agrees = (refl, tt)

it_passes : run_pipeline whole_seconds "r1" (planned_suite ∷ []) ≡ ran passed_report
unfolding run_pipeline run_suites run_suite suite_result attempt_loop evaluate_thresholds
    suite_blocking every keep
it_passes = refl

run_pipeline_lem_example :
    ((report : ReadinessReport whole_seconds) × (run_pipeline whole_seconds "r1"
          (planned_suite ∷ [])
        ≡ ran report)
      × (report.overall_passed ≡ every (acceptable whole_seconds) (planned_suite ∷ [])))
    ⊎ ((x : PipelineError) × (run_pipeline whole_seconds "r1" (planned_suite ∷ []) ≡ raised x)
        × SomeRaises whole_seconds x (planned_suite ∷ []))
run_pipeline_lem_example = run_pipeline_lem whole_seconds "r1" planned_suite [] it-Agrees

abbrev signed_off : GateManifest
signed_off = record {
  approvals = record { role = "qa"; actor = "ann"; timestamp = "5" } ∷ [];
  rehearsed_at = some "7";
  has_waivers = false;
}

abbrev gate_config : GateConfig
gate_config = record {
  required_roles = "qa" ∷ [];
  enforce_approvals = true;
  require_rehearsal = true;
  max_rehearsal_age_days = 30;
  disallow_waivers = true;
}

abbrev always_seven : String → Option Timestamp
always_seven s = some (aware 7)

evaluate_gate_lem_example : is_open (evaluate_gate always_seven signed_off gate_config 9) ≡ (
    (not true || subset ("qa" ∷ []) (roles_of signed_off.approvals))
    && ((not true || is_fresh (parse_datetime always_seven (some "7")) 30 9)
        && (not (true && false))))
evaluate_gate_lem_example = evaluate_gate_lem always_seven signed_off gate_config 9

-- A time of the rehearsal without an offset does not open the gate.
no_offset : evaluate_gate (λ s. some (naive 7)) signed_off gate_config 9 ≡ closed type_error
unfolding evaluate_gate extract_approvals approvals_into missing_roles parse_datetime Dict.get
    Dict.put
no_offset = refl

abbrev release_manifest : ReleaseManifest
release_manifest =
    generate_release_manifest
      (record {
        release = "2025.1";
        artifacts = record { name = "api"; version = "1.0.0"; hash = "3f5a" } ∷ [];
        scorecard_path = "scorecard.json";
        readiness_run_id = "r1";
        feature_flags = none;
        secrets = none;
        migrations = none;
        approvals = some signed_off.approvals;
        rollback_plan = none;
        metadata = none;
      })
      9

abbrev registration : Registration
registration = record {
  artifact_type = "release";
  change_impact = ChangeImpact.minor;
  tenant_id = "t1";
  license_tag = "L";
  policy_pack_hash = "p";
  change_reason = "release";
  created_by = "ann";
  title = none;
  summary = none;
  dependencies = [];
  reviewers = "bob" ∷ [];
  waivers = [];
  environment_fingerprint = none;
  prompt_templates = [];
  artifact_id = some "RL-000001";
}

digest_is_text : (chunks : List String) → truthy "3f5a" ≡ true
digest_is_text chunks = refl

first_release :
    next_version
      (version_of sample_codec sample_hashing
        (get sample_codec sample_hashing "RL-000001" empty_governance))
      ChangeImpact.minor
    ≡ some "0.1.0"
unfolding get Dict.get next_version Versioning.initial_version
first_release = refl

nothing_referred_to : parse_all [] ≡ ok tt
unfolding parse_all
nothing_referred_to = refl

register_manifest_lem_example :
    let metadata =
      sealed sample_codec sample_hashing
        (unsigned sample_codec sample_hashing release_manifest registration "RL-000001" "0.1.0" 9)
        none in
    register_manifest sample_codec sample_hashing release_manifest registration 9 empty_governance
    ≡ register_if sample_codec sample_hashing
        (validate_dependencies sample_codec sample_hashing [] empty_governance
          >> validate_prompt_templates sample_codec sample_hashing [] empty_governance)
        metadata
        empty_governance
        (published sample_codec sample_hashing "release" metadata ChangeImpact.minor [] none none 9
          empty_governance)
register_manifest_lem_example =
    register_manifest_lem sample_codec sample_hashing digest_is_text release_manifest registration 9
      empty_governance "RL-000001" "0.1.0" refl first_release nothing_referred_to
