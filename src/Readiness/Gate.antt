-- ===== src/Readiness/Gate.antt =====
-- src/DomainDetermine/readiness/gate.py, on a manifest and a configuration that are read already. The
-- clock, which has an offset, counts seconds; the telemetry of the rehearsal check is left out, and the
-- age limit is a natural number.
use domain_determine.Base.{
  ℕ, ◌-◌, ◌/◌, String, ◌≡◌, refl, Bool, true, false, not, ◌&&◌, ◌||◌, Option, none, some, List, [],
  ◌∷◌, map, arith, ◌==◌, nat_eq, string_eq, if◌then◌else◌, ltb, leb, get_or, contains, subset,
  sorted, value, truthy_opt,
}
use domain_determine.Base.Dict
use domain_determine.Base.Dict.{Dict, get-put}

pub record ApprovalRecord : Type 0 where
  pub role : String
  pub actor : String
  pub timestamp : String

-- The configuration, with the defaults of `config.get` put in
pub record GateConfig : Type 0 where
  pub required_roles : List String
  pub enforce_approvals : Bool
  pub require_rehearsal : Bool
  pub max_rehearsal_age_days : ℕ
  pub disallow_waivers : Bool

-- What the gate reads of a release manifest
pub record GateManifest : Type 0 where
  pub approvals : List ApprovalRecord
  pub rehearsed_at : Option String
  pub has_waivers : Bool

pub data GateError : Type 0 where
  missing_approvals : List String → GateError
  rehearsal_missing waivers_disallowed : GateError
  rehearsal_stale : (max_age days : ℕ) → GateError
  -- the TypeError of subtracting a time without an offset from one with an offset
  type_error : GateError

pub data Gate : Type 0 where
  open_gate : Gate
  closed : GateError → Gate

abbrev pub behind : Gate → Gate → Gate
behind open_gate g = g
behind (closed e) g = closed e

-- _extract_approvals, into a dict that has some
unfoldable pub approvals_into : Dict String → List ApprovalRecord → Dict String
approvals_into approvals [] = approvals
approvals_into approvals (a ∷ as') = approvals_into (Dict.put approvals a.role a.actor) as'

unfoldable pub extract_approvals : List ApprovalRecord → Dict String
unfolding approvals_into
extract_approvals approvals = approvals_into [] approvals

-- [role for role in required_roles if role not in approvals_map]
unfoldable pub missing_roles : Dict String → List String → List String
missing_roles approvals [] = []
missing_roles approvals (role ∷ roles) =
    let rest = missing_roles approvals roles in
    if Dict.has approvals role then rest else role ∷ rest

-- A datetime with an offset from UTC, in seconds of the clock, or without one
pub data Timestamp : Type 0 where
  aware naive : ℕ → Timestamp

-- _parse_datetime
unfoldable pub parse_datetime : (String → Option Timestamp) → Option String → Option Timestamp
parse_datetime fromisoformat value =
    if truthy_opt value then fromisoformat (get_or value "") else none

abbrev pub approvals_gate : List String → Bool → Gate
approvals_gate [] enforced = open_gate
approvals_gate (role ∷ roles) enforced =
    if enforced then closed (missing_approvals (sorted (role ∷ roles))) else open_gate

abbrev pub age_days : ℕ → ℕ → ℕ
age_days now rehearsed_at = (now - rehearsed_at) / 86400

abbrev pub rehearsal_gate : Option Timestamp → ℕ → ℕ → Gate
rehearsal_gate none max_age now = closed rehearsal_missing
rehearsal_gate (some (naive at)) max_age now = closed type_error
rehearsal_gate (some (aware at)) max_age now =
    if ltb max_age (age_days now at)
    then closed (rehearsal_stale max_age (age_days now at))
    else open_gate

-- evaluate_gate
unfoldable pub evaluate_gate : (String → Option Timestamp) → GateManifest → GateConfig → ℕ → Gate
unfolding extract_approvals missing_roles parse_datetime
evaluate_gate fromisoformat manifest config now =
    behind
      (approvals_gate (missing_roles (extract_approvals manifest.approvals) config.required_roles)
        config.enforce_approvals)
      (behind
        (if config.require_rehearsal
          then rehearsal_gate (parse_datetime fromisoformat manifest.rehearsed_at)
              config.max_rehearsal_age_days now
          else open_gate)
        (if config.disallow_waivers && manifest.has_waivers
          then closed waivers_disallowed
          else open_gate))

-- The roles that approved
abbrev pub roles_of : List ApprovalRecord → List String
roles_of approvals = map (λ (a : ApprovalRecord). a.role) approvals

has-put :
    (d : Dict String) (k j v : String) → Dict.has (Dict.put d k v) j ≡ (k == j || Dict.has d j)
has-put d k j v = ground (arith, get-put d k j v)

has-approvals_into :
    (as' : List ApprovalRecord) (d : Dict String) (j : String)
    → Dict.has (approvals_into d as') j ≡ (contains (roles_of as') j || Dict.has d j)
unfolding approvals_into contains
has-approvals_into [] d j = refl
has-approvals_into (a ∷ as') d j =
    ground (arith, has-approvals_into as' (Dict.put d a.role a.actor) j, has-put d a.role j a.actor)

abbrev none_missing : List String → Bool
none_missing [] = true
none_missing (r ∷ rs) = false

none_missing-missing_roles :
    (as' : List ApprovalRecord) (roles : List String)
    → none_missing (missing_roles (extract_approvals as') roles) ≡ subset roles (roles_of as')
unfolding missing_roles subset extract_approvals Dict.get
none_missing-missing_roles as' [] = refl
none_missing-missing_roles as' (role ∷ roles) =
    ground (arith, none_missing-missing_roles as' roles, has-approvals_into as' [] role)

abbrev pub is_open : Gate → Bool
is_open open_gate = true
is_open (closed e) = false

is_open-behind : (g h : Gate) → is_open (behind g h) ≡ (is_open g && is_open h)
is_open-behind open_gate h = refl
is_open-behind (closed e) h = refl

is_open-approvals_gate :
    (roles : List String) (enforced : Bool)
    → is_open (approvals_gate roles enforced) ≡ (not enforced || none_missing roles)
is_open-approvals_gate [] enforced = ground arith
is_open-approvals_gate (r ∷ rs) enforced = ground arith

-- A rehearsal whose time is known, with its offset, and not too old
abbrev pub is_fresh : Option Timestamp → ℕ → ℕ → Bool
is_fresh none max_age now = false
is_fresh (some (naive at)) max_age now = false
is_fresh (some (aware at)) max_age now = leb (age_days now at) max_age

is_open-rehearsal_gate :
    (at : Option Timestamp) (max_age now : ℕ)
    → is_open (rehearsal_gate at max_age now) ≡ is_fresh at max_age now
is_open-rehearsal_gate none max_age now = refl
is_open-rehearsal_gate (some (naive at)) max_age now = refl
is_open-rehearsal_gate (some (aware at)) max_age now = ground arith

-- The gate opens exactly if every required role is among those that approved, unless that is not
-- enforced, the rehearsal's time can be read, has an offset from UTC and is not older than the limit,
-- unless no rehearsal is required, and there is no waiver where waivers are disallowed. Otherwise the
-- gate raises, also for a rehearsal's time without an offset.
pub evaluate_gate_lem :
    (fromisoformat : String → Option Timestamp) (manifest : GateManifest) (config : GateConfig)
    (now : ℕ)
    → is_open (evaluate_gate fromisoformat manifest config now) ≡ (
        (not config.enforce_approvals || subset config.required_roles (roles_of manifest.approvals))
        && ((not config.require_rehearsal
              || is_fresh
                  (parse_datetime fromisoformat manifest.rehearsed_at)
                  config.max_rehearsal_age_days
                  now)
            && not (config.disallow_waivers && manifest.has_waivers)))
unfolding evaluate_gate
evaluate_gate_lem fromisoformat manifest config now =
    let roles = missing_roles (extract_approvals manifest.approvals) config.required_roles in
    let at = parse_datetime fromisoformat manifest.rehearsed_at in
    rw (is_open-behind, is_open-behind)
      (ground (
        arith,
        is_open-approvals_gate roles config.enforce_approvals,
        none_missing-missing_roles manifest.approvals config.required_roles,
        is_open-rehearsal_gate at config.max_rehearsal_age_days now,
      ))
