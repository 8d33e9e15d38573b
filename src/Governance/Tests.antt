-- ===== src/Governance/Tests.antt =====
-- Governance on small inputs.
use domain_determine.Base.{
  String, ◌≡◌, ◌⊎◌, refl, true, not, ◌&&◌, ◌||◌, none, some, [], ◌∷◌, ◌++◌, ◌==◌, nat_eq, string_eq,
  if◌then◌else◌, contains, add, to_set, subset, sorted, show, split,
}
use domain_determine.Base.Dict
use domain_determine.Base.Dict.{
  Dict, get-put, get-put_self, get-put_ne, get-remove, size-put, size-put_new, size-put_old,
  put_new, values-append,
}
use domain_determine.Samples.{sample_codec, empty_log, sample_hashing, Governed, empty_governance}
use domain_determine.Base.Json.{end, field, str}
use domain_determine.Governance.Versioning
use domain_determine.Base.Int
use domain_determine.Governance.Registry
use domain_determine.Governance.Models.{role_eq, reviewer, approver, ArtifactRef, ArtifactMetadata}
use domain_determine.Governance.EventLog
use domain_determine.Governance.EventLog.{
  GovernanceEvent, service_job_failed, service_job_enqueued, append, query, new_event, value_of,
}
use domain_determine.Governance.EventLog.Query.{query-append, selected, normal}
use domain_determine.Governance.Versioning.{
  ChangeImpact, next_version, split_version, render, Hashing, compute_hash, manifest_payload,
}
use domain_determine.Governance.Versioning.RoundTrip.{
  split_version-render, next_version_lem, semver, text_of, Below,
}
use domain_determine.Governance.Rbac.{
  AccessManager, no_access, assign_role, set_license_policy, check_access, roles_of, allows_export,
  license_denied,
}
use domain_determine.Governance.Rbac.Access.{assign_role_lem}
use domain_determine.Governance.Registry.{
  GovernanceRegistry, RegistryError, ok, err, register, validate, get, dependents, parents_of,
  missing_dependency,
}
use domain_determine.Governance.Registry.Publishing.{register_lem, IsPublishable}
use domain_determine.Governance.Registry.Lineage.{IsLinked, register-lineage, register-IsLinked}

abbrev upstream_ref : ArtifactRef
upstream_ref = record { artifact_id = "DS-000001"; version = "1.0.0"; hash = "3f5a" }

abbrev failure : GovernanceEvent
failure =
    new_event service_job_failed upstream_ref "ann" (field "z" (str "1") (field "a" (str "2") end))
      7

query-append_example :
    query sample_codec (some "DS-000001") none (append sample_codec failure empty_log).1
    ≡ EventLog.◌>>=◌ (query sample_codec (some "DS-000001") none empty_log) (λ es. EventLog.ok (
        if selected (some "DS-000001") none failure
        then es ++ normal (append sample_codec failure empty_log).0 ∷ []
        else es))
query-append_example = query-append sample_codec (some "DS-000001") none failure empty_log

split_version-render_example : split_version (render (semver 1 12 0)) ≡ some (semver 1 12 0)
split_version-render_example = split_version-render 1 12 0

next_version_lem_example :
    (next_version (some (text_of (1, 12, 3))) ChangeImpact.minor ≡ some (text_of (1, 13, 0)))
    × Below (1, 12, 3) (1, 13, 0)
next_version_lem_example = next_version_lem 1 12 3 ChangeImpact.minor

abbrev access : AccessManager
access =
    set_license_policy "DS-000001" (record { license_tag = "L"; export_policy = "ids_only" })
      (assign_role "ann" reviewer no_access)

only_ids :
    (check_access "ann" "t1" [] (some "DS-000001") (some "full") access).reason
    ≡ some license_denied
unfolding check_access set_license_policy assign_role roles_of subset contains add Dict.get Dict.put
    allows_export
only_ids = refl

assign_role_lem_example :
    let m' = assign_role "bob" approver access in
    (contains (roles_of m' "bob") approver ≡ true)
    × ((not (check_access "ann" "t1" (reviewer ∷ []) none none access).allowed
          || (check_access "ann" "t1" (reviewer ∷ []) none none m').allowed)
        ≡ true)
assign_role_lem_example = assign_role_lem "bob" approver access "ann" "t1" (reviewer ∷ []) none none

abbrev dataset : ArtifactMetadata
dataset = record {
  artifact_id = "DS-000001";
  artifact_type = "dataset";
  version = "1.0.0";
  hash = "3f5a";
  signature = "";
  title = "t";
  summary = "s";
  tenant_id = "t1";
  license_tag = "L";
  policy_pack_hash = "p";
  change_reason = "r";
  created_by = "ann";
  created_at = 1;
  upstream = [];
  reviewers = [];
  approvals = [];
  waivers = [];
  environment_fingerprint = [];
  prompt_templates = [];
}

abbrev derived : ArtifactMetadata
derived = record dataset { artifact_id = "DS-000002" }

abbrev with_dataset : Governed
with_dataset =
    (register sample_codec sample_hashing "dataset" dataset ChangeImpact.major [] none none 2
      empty_governance).1

abbrev linked_registry : Governed
linked_registry =
    (register sample_codec sample_hashing "dataset" derived ChangeImpact.major (upstream_ref ∷ [])
      none none 3 with_dataset).1

-- What the runs below compute with.
registry_code : Unit {0}
unfolding register validate get dependents parents_of Dict.get Dict.put Dict.keys Dict.values
    Registry.validate_dependencies Registry.validate_prompt_templates Registry.validate_signature
    Registry.validate_version Registry.published Registry.store Registry.append_event
    Registry.parent_ids Registry.add_to_parents Registry.add_child Registry.set_default compute_hash
    next_version Versioning.initial_version to_set add sorted split_version split Int.parse_int
    render Versioning.bump show
registry_code = tt

derived_is_registered :
    (register sample_codec sample_hashing "dataset" derived ChangeImpact.major
      (upstream_ref ∷ [])
      none
      none
      3
      with_dataset).0
    ≡ ok derived
unfolding registry_code
derived_is_registered = refl

-- A dependency that is not registered is refused.
nothing_to_depend_on :
    (register sample_codec sample_hashing "dataset" derived ChangeImpact.major
      (upstream_ref ∷ [])
      none
      none
      3
      empty_governance).0
    ≡ err (missing_dependency "DS-000001")
unfolding registry_code
nothing_to_depend_on = refl

-- The next version has no dependency any more, but is still among the dependents of the old one.
stale_dependent :
    let g =
      (register sample_codec sample_hashing "dataset"
        (record derived { version = "1.0.1" })
        ChangeImpact.patch
        []
        none
        none
        4
        linked_registry).1 in
    (parents_of sample_codec sample_hashing "DS-000002" g ≡ [])
    × (dependents sample_codec sample_hashing "DS-000001" g ≡ "DS-000002" ∷ [])
unfolding registry_code
stale_dependent = (refl, refl)

register_lem_example :
    let (result, after) =
      register sample_codec sample_hashing "dataset" derived ChangeImpact.major
        (upstream_ref ∷ [])
        none
        none
        3
        with_dataset in
    ((result ≡ ok derived)
      × IsPublishable sample_codec sample_hashing derived ChangeImpact.major
          (upstream_ref ∷ [])
          with_dataset
      × ((k : String)
          → get sample_codec sample_hashing k after ≡ (
              if derived.artifact_id == k
              then some derived
              else get sample_codec sample_hashing k with_dataset)))
    ⊎ ((e : RegistryError) × (result ≡ err e)
        × (validate sample_codec sample_hashing derived ChangeImpact.major
              (upstream_ref ∷ [])
              with_dataset
            ≡ err e)
        × (after ≡ with_dataset))
register_lem_example =
    register_lem sample_codec sample_hashing "dataset" derived ChangeImpact.major
      (upstream_ref ∷ []) none none 3 with_dataset

register-lineage_example :
    (contains (parents_of sample_codec sample_hashing "DS-000001" linked_registry) "DS-000002" ≡ (
      if derived.artifact_id == "DS-000001"
      then contains {A = String} ("DS-000001" ∷ []) "DS-000002"
      else contains (parents_of sample_codec sample_hashing "DS-000001" with_dataset) "DS-000002"))
    × (contains (dependents sample_codec sample_hashing "DS-000001" linked_registry) "DS-000002" ≡ (
        contains (dependents sample_codec sample_hashing "DS-000001" with_dataset) "DS-000002"
        || (contains {A = String} ("DS-000001" ∷ []) "DS-000001"
            && derived.artifact_id == "DS-000002")))
register-lineage_example =
    register-lineage sample_codec sample_hashing "dataset" derived ChangeImpact.major
      (upstream_ref ∷ []) none none 3 with_dataset derived_is_registered "DS-000001" "DS-000002"

nothing-IsLinked : IsLinked sample_codec sample_hashing empty_governance
unfolding parents_of Dict.get sorted contains
nothing-IsLinked = record { linked = λ k a h. cc }

register-IsLinked_example : IsLinked sample_codec sample_hashing with_dataset
register-IsLinked_example =
    register-IsLinked sample_codec sample_hashing "dataset" dataset ChangeImpact.major [] none none
      2 empty_governance nothing-IsLinked
