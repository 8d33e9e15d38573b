-- ===== src/Readiness/Manifest.antt =====
-- src/DomainDetermine/readiness/manifest.py: the release manifest and its registration with the governance
-- registry. The reading and writing of files and the command line are left out. The ValueError of an
-- invalid prompt reference is the registry's error of the same reference.
pub mod Accepted
use domain_determine.Base.{
  ℕ, zero, suc, ◌+◌, ◌-◌, ◌*◌, ◌/◌, ◌%◌, ◌≤◌, ◌<◌, String, ◌≡◌, ◌≢◌, ◌↔◌, ◌⊎◌, inl, inr, refl, sym,
  ap, ◌∙◌, Bool, true, false, not, ◌&&◌, ◌||◌, Option, none, some, List, [], ◌∷◌, ◌++◌, map, arith,
  Eq, ◌==◌, nat_eq, string_eq, nat_beq, eq_of_discrete, if◌then◌else◌, ltb, leb, is_some, get_or,
  Bool-cases, Option-cases, absurd_bool, none_some, some_inj, or_left, or_right, length, keep,
  every, some_of, contains, add, to_set, subset, meets, insert_sorted, sorted, text_le, All,
  length-append, contains-append, contains-add, contains-to_set, contains_of_subset, subset_mono,
  contains-sorted, show, ◌<>◌, emit, digit, value, code-digit, value-show, show-injective,
  numbered-injective, truthy, truthy_opt, is_space, strip_left, strip_right, strip, prepend, split,
  split_once, eq_iff,
}
use domain_determine.Base.Dict
use domain_determine.Base.Dict.{Dict}
use domain_determine.Base.Json.{Json, Fields, Items, str, array, object, nil, item, end, field}
use domain_determine.Governance.Models.{ArtifactRef, ArtifactMetadata}
use domain_determine.Governance.EventLog.{Codec}
use domain_determine.Governance.Versioning.{
  ChangeImpact, next_version, Hashing, compute_hash, manifest_payload, sign,
}
use domain_determine.Governance.Registry
use domain_determine.Governance.Registry.{
  GovernanceRegistry, RegistryError, invalid_version, prompt_error, Result, ok, err, ◌>>=◌,
  assign_identifier, version_of, register,
}
use domain_determine.PromptPack.Registry as Prompts
use domain_determine.PromptPack.Registry.{parse_prompt_reference}
use domain_determine.Readiness.Gate.{ApprovalRecord}

pub record ReleaseArtifact : Type 0 where
  pub name : String
  pub version : String
  pub hash : String

pub record ReleaseManifest : Type 0 where
  pub release : String
  pub generated_at : ℕ
  pub artifacts : List ReleaseArtifact
  pub scorecard_path : String
  pub readiness_run_id : String
  pub feature_flags : List Fields
  pub secrets : List Fields
  pub migrations : List Fields
  pub approvals : List ApprovalRecord
  pub rollback_plan : Fields
  pub metadata : Fields

-- asdict(artifact) and asdict(approval), in lists
unfoldable pub artifact_items : List ReleaseArtifact → Items
artifact_items [] = nil
artifact_items (a ∷ rest) =
    item
      (object (
        field "name" (str a.name)
          (field "version" (str a.version) (field "hash" (str a.hash) end))))
      (artifact_items rest)

unfoldable pub approval_items : List ApprovalRecord → Items
approval_items [] = nil
approval_items (a ∷ rest) =
    item
      (object (
        field "role" (str a.role)
          (field "actor" (str a.actor) (field "timestamp" (str a.timestamp) end))))
      (approval_items rest)

unfoldable pub object_items : List Fields → Items
object_items [] = nil
object_items (d ∷ rest) = item (object d) (object_items rest)

-- ReleaseManifest.to_dict
unfoldable pub release_dict : (ℕ → String) → ReleaseManifest → Fields
unfolding artifact_items approval_items object_items
release_dict isoformat m = field "release" (str m.release) (
    field "generated_at" (str (isoformat m.generated_at)) (
      field "artifacts" (array (artifact_items m.artifacts)) (
        field "scorecard_path" (str m.scorecard_path) (
          field "readiness_run_id" (str m.readiness_run_id) (
            field "feature_flags" (array (object_items m.feature_flags)) (
              field "secrets" (array (object_items m.secrets)) (
                field "migrations" (array (object_items m.migrations)) (
                  field "approvals" (array (approval_items m.approvals)) (
                    field "rollback_plan" (object m.rollback_plan)
                      (field "metadata" (object m.metadata) end))))))))))

-- The arguments of `generate_release_manifest`; an absent one is `none`.
pub record ReleaseParts : Type 0 where
  pub release : String
  pub artifacts : List ReleaseArtifact
  pub scorecard_path : String
  pub readiness_run_id : String
  pub feature_flags : Option (List Fields)
  pub secrets : Option (List Fields)
  pub migrations : Option (List Fields)
  pub approvals : Option (List ApprovalRecord)
  pub rollback_plan : Option Fields
  pub metadata : Option Fields

-- generate_release_manifest
unfoldable pub generate_release_manifest : ReleaseParts → ℕ → ReleaseManifest
generate_release_manifest p now = record {
  release = p.release;
  generated_at = now;
  artifacts = p.artifacts;
  scorecard_path = p.scorecard_path;
  readiness_run_id = p.readiness_run_id;
  feature_flags = get_or p.feature_flags [];
  secrets = get_or p.secrets [];
  migrations = get_or p.migrations [];
  approvals = get_or p.approvals [];
  rollback_plan = get_or p.rollback_plan end;
  metadata = get_or p.metadata end;
}

-- The arguments of `register_manifest`
pub record Registration : Type 0 where
  pub artifact_type : String
  pub change_impact : ChangeImpact
  pub tenant_id : String
  pub license_tag : String
  pub policy_pack_hash : String
  pub change_reason : String
  pub created_by : String
  pub title : Option String
  pub summary : Option String
  pub dependencies : List ArtifactRef
  pub reviewers : List String
  pub waivers : List String
  pub environment_fingerprint : Option (Dict String)
  pub prompt_templates : List String
  pub artifact_id : Option String

abbrev pub or_text : Option String → String → String
or_text o d = if truthy_opt o then get_or o d else d

-- fingerprint.setdefault(k, v)
unfoldable pub set_default : Dict String → String → String → Dict String
set_default d k v = if Dict.has d k then d else Dict.put d k v

-- The loop that parses each prompt reference
unfoldable pub parse_all : List String → Result (Unit {0})
unfolding parse_prompt_reference
parse_all [] = ok tt
parse_all (reference ∷ references) =
    let rest = parse_all references in
    elim (parse_prompt_reference reference) [
      | Prompts.ok r ↦ rest
      | Prompts.err e ↦ err (prompt_error e)
    ]

module _ (codec : Codec) (hashing : Hashing) where
  open hashing use {isoformat}

  abbrev pub State : Type 0
  State = GovernanceRegistry codec hashing

  -- The identifier, the version before it and the registry behind the choice of the identifier
  unfoldable pub choose_identifier : Registration → State → Result (String × Option String) × State
  unfolding assign_identifier
  choose_identifier p g = elim p.artifact_id [
    | some id ↦ (ok (id, version_of codec hashing (Dict.get g.artifacts id)), g)
    | none ↦
        let (assigned, g') = assign_identifier codec hashing p.artifact_type g in
        (assigned >>= λ id. ok (id, none), g')
  ]

  -- The metadata without hash and signature
  unfoldable pub unsigned : ReleaseManifest → Registration → String → String → ℕ → ArtifactMetadata
  unfolding set_default compute_hash release_dict
  unsigned m p artifact_id version now = record {
    artifact_id = artifact_id;
    artifact_type = p.artifact_type;
    version = version;
    hash = "";
    signature = "";
    title = or_text p.title ("Release " <> m.release);
    summary = or_text p.summary ("Readiness manifest for release " <> m.release);
    tenant_id = p.tenant_id;
    license_tag = p.license_tag;
    policy_pack_hash = p.policy_pack_hash;
    change_reason = p.change_reason;
    created_by = p.created_by;
    created_at = now;
    upstream = p.dependencies;
    reviewers = p.reviewers;
    approvals = map (λ (a : ApprovalRecord). a.actor) m.approvals;
    waivers = p.waivers;
    environment_fingerprint =
        set_default (get_or p.environment_fingerprint []) "manifest_hash"
          (compute_hash hashing (object (release_dict isoformat m)));
    prompt_templates = p.prompt_templates;
  }

  abbrev pub signature_of : Option String → String → String → String → String
  signature_of none hash artifact_id version = ""
  signature_of (some secret) hash artifact_id version =
      sign hashing secret hash (artifact_id ∷ version ∷ [])

  -- metadata.hash = ..., metadata.signature = ...
  unfoldable pub sealed : ArtifactMetadata → Option String → ArtifactMetadata
  unfolding compute_hash manifest_payload sign
  sealed metadata secret =
      let hash = compute_hash hashing (manifest_payload hashing metadata) in
      record metadata {
        hash = hash;
        signature = signature_of secret hash metadata.artifact_id metadata.version;
      }

  unfoldable pub submit_manifest :
      ReleaseManifest
      → Registration
      → String
      → Option String
      → ℕ
      → State
      → Result ArtifactMetadata × State
  unfolding parse_all sealed unsigned next_version
  submit_manifest m p artifact_id previous now g = elim (next_version previous p.change_impact) [
    | none ↦ (err invalid_version, g)
    | some version ↦ elim (parse_all p.prompt_templates) [
      | err e ↦ (err e, g)
      | ok _ ↦
          register codec hashing p.artifact_type
            (sealed (unsigned m p artifact_id version now) g.signature_manager) p.change_impact
            p.dependencies none none now g
    ]
  ]

  -- register_manifest
  unfoldable pub register_manifest :
      ReleaseManifest → Registration → ℕ → State → Result ArtifactMetadata × State
  unfolding choose_identifier submit_manifest
  register_manifest m p now g =
      let (chosen, g') = choose_identifier p g in
      elim chosen [ err e ↦ (err e, g') | ok c ↦ submit_manifest m p c.0 c.1 now g' ]
