-- ===== src/Governance/Rbac/Access.antt =====
-- What an access decision means, and that more roles never take access away.
use domain_determine.Base.{
  String, ◌≡◌, inl, inr, refl, Bool, true, false, not, ◌||◌, Option, List, arith, ◌==◌, nat_eq,
  string_eq, if◌then◌else◌, Bool-cases, contains, add, contains-add, subset_mono, eq_iff,
}
use domain_determine.Base.Dict
use domain_determine.Base.Dict.{
  Dict, get-put, get-put_self, get-put_ne, get-remove, size-put, size-put_new, size-put_old,
  put_new, values-append,
}
use domain_determine.Governance.Models.{Role, role_eq}
use domain_determine.Governance.Rbac.{AccessManager, roles_of, assign_role, check_access}

or_true : (a b : Bool) → b ≡ true → (a || b) ≡ true
or_true true b h = refl
or_true false b h = h

roles_of-assign_role :
    (user other : String) (role : Role) (m : AccessManager)
    → roles_of (assign_role user role m) other
      ≡ (if user == other then add (roles_of m user) role else roles_of m other)
unfolding roles_of assign_role
roles_of-assign_role user other role m =
    ground (arith, get-put m.user_roles user other (add (roles_of m user) role))

roles-kept :
    (user other : String) (role r : Role) (m : AccessManager)
    → contains (roles_of m other) r ≡ true
    → contains (roles_of (assign_role user role m) other) r ≡ true
roles-kept user other role r m h = elim (Bool-cases (user == other)) [
  | inl same ↦
      let here : user ≡ other = (eq_iff user other).0 same in
      rw (roles_of-assign_role, same, contains-add, here) (or_true _ _ h)
  | inr differs ↦ rw (roles_of-assign_role, differs) h
]

granted_mono :
    (user : String) (role : Role) (m : AccessManager) (other tenant_id : String)
    (required : List Role) (artifact_id export_type : Option String)
    → (check_access other tenant_id required artifact_id export_type m).allowed ≡ true
    → (check_access other tenant_id required artifact_id export_type
        (assign_role user role m)).allowed
      ≡ true
unfolding check_access assign_role
granted_mono user role m other tenant_id required artifact_id export_type h =
    let more =
      subset_mono required (roles_of m other) (roles_of (assign_role user role m) other)
        (λ r. roles-kept user other role r m) in
    ground (arith, more)

implied : (a b : Bool) → (a ≡ true → b ≡ true) → (not a || b) ≡ true
implied true b h = h refl
implied false b h = refl

-- Giving a user a role gives that user the role, and turns no access that was granted, to anybody, into a
-- denial.
pub assign_role_lem :
    (user : String) (role : Role) (m : AccessManager) (other tenant_id : String)
    (required : List Role) (artifact_id export_type : Option String)
    → let m' = assign_role user role m in
      (contains (roles_of m' user) role ≡ true)
      × ((not (check_access other tenant_id required artifact_id export_type m).allowed
            || (check_access other tenant_id required artifact_id export_type m').allowed)
          ≡ true)
assign_role_lem user role m other tenant_id required artifact_id export_type = (
  ground (
    arith,
    roles_of-assign_role user user role m,
    contains-add (roles_of m user) role role,
    eq_iff user user,
    role_eq.same_iff role role,
  ),
  implied _ _ (granted_mono user role m other tenant_id required artifact_id export_type),
)
