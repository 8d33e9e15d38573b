-- ===== src/Governance/Rbac.antt =====
-- src/DomainDetermine/governance/rbac.py and governance/waivers.py: roles, tenants, licences, waivers.
pub mod Access
use domain_determine.Base.{
  ℕ, zero, suc, ◌+◌, ◌-◌, ◌*◌, ◌/◌, ◌%◌, ◌≤◌, ◌<◌, String, ◌≡◌, ◌≢◌, ◌↔◌, ◌⊎◌, inl, inr, refl, sym,
  ap, ◌∙◌, Bool, true, false, not, ◌&&◌, ◌||◌, Option, none, some, List, [], ◌∷◌, ◌++◌, map, arith,
  Eq, ◌==◌, nat_eq, string_eq, nat_beq, eq_of_discrete, if◌then◌else◌, ltb, leb, is_some, get_or,
  Bool-cases, Option-cases, length, keep, every, some_of, contains, add, to_set, subset, meets,
  insert_sorted, sorted, text_le, All, length-append, contains-append, contains-add,
  contains-to_set, contains_of_subset, subset_mono, contains-sorted, show, ◌<>◌, emit, digit, value,
  code-digit, value-show, show-injective, numbered-injective, truthy, truthy_opt, is_space,
  strip_left, strip_right, strip, prepend, split, split_once, eq_iff,
}
use domain_determine.Base.Dict
use domain_determine.Base.Dict.{
  Dict, get-put, get-put_self, get-put_ne, get-remove, size-put, size-put_new, size-put_old,
  put_new, values-append,
}
use domain_determine.Governance.Models.{Role, role_eq, TenantPolicy, allows}

pub record LicensePolicy : Type 0 where
  pub license_tag : String
  pub export_policy : String

-- LicensePolicy.allows_export
unfoldable pub allows_export : LicensePolicy → String → Bool
allows_export policy export_type =
    if policy.export_policy == "no_export"
    then false
    else if policy.export_policy == "ids_only" && not (export_type == "ids_only")
    then false
    else true

pub data Reason : Type 0 where
  role_missing tenant_denied license_denied : Reason

pub record AccessDecision : Type 0 where
  pub allowed : Bool
  pub reason : Option Reason

abbrev pub granted : AccessDecision
granted = record { allowed = true; reason = none }

abbrev pub denied : Reason → AccessDecision
denied r = record { allowed = false; reason = some r }

pub record AccessManager : Type 0 where
  pub user_roles : Dict (List Role)
  pub tenant_policies : Dict TenantPolicy
  pub license_policies : Dict LicensePolicy

-- AccessManager()
abbrev pub no_access : AccessManager
no_access = record { user_roles = []; tenant_policies = []; license_policies = [] }

unfoldable pub roles_of : AccessManager → String → List Role
roles_of m user = get_or (Dict.get m.user_roles user) []

-- AccessManager.assign_role
unfoldable pub assign_role : String → Role → AccessManager → AccessManager
unfolding roles_of
assign_role user role m = record m {
  user_roles = Dict.put m.user_roles user (add (roles_of m user) role);
}

-- AccessManager.set_tenant_policy
unfoldable pub set_tenant_policy : String → TenantPolicy → AccessManager → AccessManager
set_tenant_policy artifact_id policy m = record m {
  tenant_policies = Dict.put m.tenant_policies artifact_id policy;
}

-- AccessManager.set_license_policy
unfoldable pub set_license_policy : String → LicensePolicy → AccessManager → AccessManager
set_license_policy artifact_id policy m = record m {
  license_policies = Dict.put m.license_policies artifact_id policy;
}

abbrev pub tenant_allows : Option TenantPolicy → String → Bool
tenant_allows none tenant_id = true
tenant_allows (some policy) tenant_id = allows policy tenant_id

-- `export_type and license_policy and not license_policy.allows_export(export_type)`, negated
abbrev pub license_allows : Option LicensePolicy → Option String → Bool
license_allows none export_type = true
license_allows (some policy) none = true
license_allows (some policy) (some export_type) =
    not (truthy export_type) || allows_export policy export_type

-- AccessManager.check_access
unfoldable pub check_access :
    String → String → List Role → Option String → Option String → AccessManager → AccessDecision
unfolding roles_of
check_access user tenant_id required_roles artifact_id export_type m =
    if subset required_roles (roles_of m user)
    then (let artifact = get_or artifact_id "" in
        if truthy artifact
        then (if tenant_allows (Dict.get m.tenant_policies artifact) tenant_id
            then (if license_allows (Dict.get m.license_policies artifact) export_type
                then granted
                else denied license_denied)
            else denied tenant_denied)
        else granted)
    else denied role_missing

unfoldable pub users_from : Dict (List Role) → Role → List String
users_from [] role = []
users_from ((user, roles) ∷ d) role =
    let rest = users_from d role in if contains roles role then user ∷ rest else rest

-- AccessManager.users_with_role
unfoldable pub users_with_role : Role → AccessManager → List String
unfolding users_from
users_with_role role m = users_from m.user_roles role

-- Times are the clock's readings.
pub record WaiverRecord : Type 0 where
  pub waiver_id : String
  pub owner : String
  pub justification : String
  pub expires_at : ℕ
  pub advisories : List String
  pub mitigation_plan : String

-- WaiverRecord.active
unfoldable pub active : ℕ → WaiverRecord → Bool
active now w = ltb now w.expires_at

-- WaiverRegistry.add
unfoldable pub add_waiver : WaiverRecord → Dict WaiverRecord → Dict WaiverRecord
add_waiver w records = Dict.put records w.waiver_id w

abbrev pub unexpired : ℕ → Option WaiverRecord → Option WaiverRecord
unexpired now none = none
unexpired now (some w) = if active now w then some w else none

-- WaiverRegistry.get
unfoldable pub get_waiver : ℕ → String → Dict WaiverRecord → Option WaiverRecord
unfolding active
get_waiver now waiver_id records = unexpired now (Dict.get records waiver_id)

unfoldable pub validate_into : Dict Bool → ℕ → List String → Dict WaiverRecord → Dict Bool
unfolding get_waiver
validate_into verdicts now [] records = verdicts
validate_into verdicts now (w ∷ ws) records =
    validate_into (Dict.put verdicts w (is_some (get_waiver now w records))) now ws records

-- WaiverRegistry.validate. The clock is read at each id; here all readings are one.
unfoldable pub validate_waivers : ℕ → List String → Dict WaiverRecord → Dict Bool
unfolding validate_into
validate_waivers = validate_into []
