-- ===== src/Governance/Models.antt =====
-- src/DomainDetermine/governance/models.py
use domain_determine.Base.{
  ℕ, String, Bool, true, Option, none, some, List, [], ◌∷◌, Eq, ◌==◌, nat_eq, string_eq,
  eq_of_discrete, if◌then◌else◌, contains, value, truthy,
}
use domain_determine.Base.Dict.{Dict}
use domain_determine.Base.Json.{Json, str, object, array, Fields, Items, end, field, nil, item}

pub data Role : Type 0 where
  creator reviewer approver auditor reader : Role

Role-discrete : Discrete Role
Role-discrete = hlevel

instance abbrev pub role_eq : Eq Role
unfolding Role-discrete
role_eq = eq_of_discrete Role-discrete

pub record TenantPolicy : Type 0 where
  pub tenant_id : String
  pub shared_with : List String

-- TenantPolicy.allows
unfoldable pub allows : TenantPolicy → String → Bool
allows policy requester_tenant =
    if requester_tenant == policy.tenant_id
    then true
    else contains policy.shared_with requester_tenant

pub record ArtifactRef : Type 0 where
  pub artifact_id : String
  pub version : String
  pub hash : String

pub record ArtifactMetadata : Type 0 where
  pub artifact_id : String
  pub artifact_type : String
  pub version : String
  pub hash : String
  pub signature : String
  pub title : String
  pub summary : String
  pub tenant_id : String
  pub license_tag : String
  pub policy_pack_hash : String
  pub change_reason : String
  pub created_by : String
  pub created_at : ℕ
  pub upstream : List ArtifactRef
  pub reviewers : List String
  pub approvals : List String
  pub waivers : List String
  pub environment_fingerprint : Dict String
  pub prompt_templates : List String

-- The validator of `version`: an empty version is refused.
unfoldable pub version_not_empty : String → Option String
version_not_empty value = if truthy value then some value else none

-- ArtifactRef.model_dump()
unfoldable pub ref_to_dict : ArtifactRef → Json
ref_to_dict ref = object (
    field "artifact_id" (str ref.artifact_id)
      (field "version" (str ref.version) (field "hash" (str ref.hash) end)))

unfoldable pub texts : List String → Items
texts [] = nil
texts (s ∷ ts) = item (str s) (texts ts)

unfoldable pub refs : List ArtifactRef → Items
unfolding ref_to_dict
refs [] = nil
refs (r ∷ rs) = item (ref_to_dict r) (refs rs)

unfoldable pub text_fields : Dict String → Fields
text_fields [] = end
text_fields ((k, v) ∷ d) = field k (str v) (text_fields d)

-- ArtifactMetadata.to_dict, given the clock's text form of a time.
unfoldable pub to_dict : (ℕ → String) → ArtifactMetadata → Fields
unfolding texts refs text_fields
to_dict isoformat m = field "artifact_id" (str m.artifact_id) (
    field "artifact_type" (str m.artifact_type) (
      field "version" (str m.version) (
        field "hash" (str m.hash) (
          field "signature" (str m.signature) (
            field "title" (str m.title) (
              field "summary" (str m.summary) (
                field "tenant_id" (str m.tenant_id) (
                  field "license_tag" (str m.license_tag) (
                    field "policy_pack_hash" (str m.policy_pack_hash) (
                      field "change_reason" (str m.change_reason) (
                        field "created_by" (str m.created_by) (
                          field "created_at" (str (isoformat m.created_at)) (
                            field "upstream" (array (refs m.upstream)) (
                              field "reviewers" (array (texts m.reviewers)) (
                                field "approvals" (array (texts m.approvals)) (
                                  field "waivers" (array (texts m.waivers)) (
                                    field "environment_fingerprint"
                                      (object (text_fields m.environment_fingerprint))
                                      (field "prompt_templates" (array (texts m.prompt_templates))
                                        end))))))))))))))))))

pub record LlmArtifact : Type 0 where
  pub engine_hash : String
  pub engine_version : String
  pub tokenizer_hash : String
  pub schema_registry_path : String
  pub config_path : String

-- LLMArtifact.to_payload
unfoldable pub to_payload : LlmArtifact → Fields
to_payload a = field "engine_hash" (str a.engine_hash) (
    field "engine_version" (str a.engine_version) (
      field "tokenizer_hash" (str a.tokenizer_hash) (
        field "schema_registry_path" (str a.schema_registry_path)
          (field "config_path" (str a.config_path) end))))
