-- ===== src/Service/Auth.antt =====
-- src/DomainDetermine/service/auth.py: the caller's context from the request's headers, and the check
-- of its roles. An HTTPException is a value.
use domain_determine.Base.{
  String, ◌≡◌, ◌⊎◌, inl, inr, refl, sym, ap, ◌∙◌, Bool, true, false, ◌&&◌, Option, none, List, [],
  ◌∷◌, map, arith, ◌==◌, nat_eq, string_eq, if◌then◌else◌, get_or, Bool-cases, keep, contains,
  to_set, meets, contains-to_set, truthy, truthy_opt, strip, split, eq_iff,
}

pub record AuthSettings : Type 0 where
  pub issuer : Option String
  pub audience : Option String
  pub jwks_url : Option String
  pub mtls_enabled : Bool

pub record AuthContext : Type 0 where
  pub actor : String
  pub roles : List String
  pub tenant : String
  pub reason : String

-- The three refusals: 401 for missing headers, 403 for no role at all and for no role that is allowed.
pub data HttpError : Type 0 where
  missing_headers no_roles lacks_role : HttpError

pub data Outcome {ℓ} (A : Type ℓ) : Type ℓ where
  accepted : A → Outcome A
  refused : HttpError → Outcome A

unfoldable pub parse_roles : Option String → List String
unfolding keep split
parse_roles raw_roles =
    if truthy_opt raw_roles then keep truthy (map strip (split b',' (get_or raw_roles ""))) else []

abbrev pub context_of : List String → String → String → String → Outcome AuthContext
context_of [] actor tenant reason = refused no_roles
context_of (role ∷ roles) actor tenant reason =
    accepted (record { actor = actor; roles = role ∷ roles; tenant = tenant; reason = reason })

unfoldable pub get_auth_context :
    (x_actor x_roles x_tenant x_reason : Option String) → Outcome AuthContext
get_auth_context x_actor x_roles x_tenant x_reason =
    if truthy_opt x_actor && truthy_opt x_roles && truthy_opt x_tenant
    then context_of (parse_roles x_roles) (get_or x_actor "") (get_or x_tenant "")
        (if truthy_opt x_reason then get_or x_reason "" else "unspecified")
    else refused missing_headers

unfoldable pub require_roles : AuthContext → List String → Outcome (Unit {0})
unfolding meets to_set
require_roles context allowed_roles =
    if meets (to_set context.roles) (to_set allowed_roles) then accepted tt else refused lacks_role

unfoldable pub get_auth_settings : AuthSettings
get_auth_settings = record { issuer = none; audience = none; jwks_url = none; mtls_enabled = false }

-- The two lists share a role.
abbrev pub Share : List String → List String → Type 0
Share roles allowed = (r : String) × (contains roles r ≡ true) × (contains allowed r ≡ true)

meets_cases :
    (xs ys : List String)
    → ((meets xs ys ≡ true) × Share xs ys)
      ⊎ ((meets xs ys ≡ false) × ((r : String) → (contains xs r && contains ys r) ≡ false))
unfolding meets contains
meets_cases [] ys = inr (refl, λ r. refl)
meets_cases (x ∷ xs) ys = elim (Bool-cases (contains ys x)) [
  | inl shared ↦ inl (rw shared refl, (x, ground (arith, eq_iff x x), shared))
  | inr apart ↦ elim (meets_cases xs ys) [
    | inl (later, (r, mine, theirs)) ↦ inl (rw apart later, (r, ground (arith, mine), theirs))
    | inr (never, none_shared) ↦ inr (
      rw apart never,
      λ r. elim (Bool-cases (x == r)) [
        | inl same ↦
            let here : contains ys r ≡ false =
              ap (contains ys) (sym ((eq_iff x r).0 same)) ∙ apart in
            rw (same, here) refl
        | inr differs ↦ rw differs (none_shared r)
      ],
    )
  ]
]

-- The caller passes exactly if one of its roles is allowed.
pub require_roles_lem :
    (c : AuthContext) (allowed : List String)
    → ((require_roles c allowed ≡ accepted tt) × Share c.roles allowed)
      ⊎ ((require_roles c allowed ≡ refused lacks_role)
          × ((r : String) → (contains c.roles r && contains allowed r) ≡ false))
unfolding require_roles
require_roles_lem c allowed = elim (meets_cases (to_set c.roles) (to_set allowed)) [
  | inl (yes_meets, (r, mine, theirs)) ↦ inl (
    rw yes_meets refl,
    (r, sym (contains-to_set c.roles r) ∙ mine, sym (contains-to_set allowed r) ∙ theirs),
  )
  | inr (no_meets, apart) ↦ inr (
    rw no_meets refl,
    λ r. rw (sym (contains-to_set c.roles r), sym (contains-to_set allowed r)) (apart r),
  )
]
