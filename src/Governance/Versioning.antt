-- ===== src/Governance/Versioning.antt =====
-- src/DomainDetermine/governance/versioning.py: semantic versions, hashes and signatures. Versions are
-- ASCII texts; Python's limit on the length of a numeral is not modelled. The JSON encoder and SHA-256
-- are the interface `Hashing`.
use domain_determine.Base.{
  ℕ, zero, suc, ◌+◌, ◌-◌, ◌*◌, ◌/◌, ◌%◌, ◌≤◌, ◌<◌, String, ◌≡◌, ◌≢◌, ◌↔◌, ◌⊎◌, inl, inr, refl, sym,
  ap, ◌∙◌, Bool, true, false, not, ◌&&◌, ◌||◌, Option, none, some, List, [], ◌∷◌, ◌++◌, map, arith,
  Eq, ◌==◌, nat_eq, string_eq, nat_beq, eq_of_discrete, if◌then◌else◌, ltb, leb, is_some, get_or,
  Bool-cases, Option-cases, length, keep, every, some_of, contains, add, to_set, subset, meets,
  insert_sorted, sorted, text_le, All, length-append, contains-append, contains-add,
  contains-to_set, contains_of_subset, subset_mono, contains-sorted, show, ◌<>◌, emit, digit, value,
  code-digit, value-show, show-injective, numbered-injective, truthy, truthy_opt, is_space,
  strip_left, strip_right, strip, prepend, split, split_once, eq_iff,
}
use domain_determine.Base.Dict
use domain_determine.Base.Dict.{
  Dict, get-put, get-put_self, get-put_ne, get-remove, size-put, size-put_new, size-put_old,
  put_new, values-append,
}
use mathlib.Core.Option
pub mod RoundTrip
use domain_determine.Base.Int.{ℤ, pos, show_int, increment, parse_int}
use domain_determine.Base.Json.{Json, object}
use domain_determine.Governance.Models.{ArtifactMetadata, to_dict}

pub data ChangeImpact : Type 0 where
  major minor patch : ChangeImpact

-- impact.value
unfoldable pub impact_value : ChangeImpact → String
impact_value major = "major"
impact_value minor = "minor"
impact_value patch = "patch"

pub record Version : Type 0 where
  pub major : ℤ
  pub minor : ℤ
  pub patch : ℤ

-- f"{major}.{minor}.{patch}"
unfoldable pub render : Version → String
unfolding show_int
render v = show_int v.major <> "." <> show_int v.minor <> "." <> show_int v.patch

abbrev pub three : Option ℤ → Option ℤ → Option ℤ → Option Version
three (some a) (some b) (some c) = some (record { major = a; minor = b; patch = c })
three _ _ _ = none

abbrev pub version_of : List String → Option Version
version_of (a ∷ b ∷ c ∷ []) = three (parse_int a) (parse_int b) (parse_int c)
version_of _ = none

-- SemanticVersioner._split, `none` for the ValueError
unfoldable pub split_version : String → Option Version
split_version version = version_of (split b'.' version)

unfoldable pub bump : Version → ChangeImpact → Version
unfolding increment
bump v ChangeImpact.major = record { major = increment v.major; minor = pos 0; patch = pos 0 }
bump v ChangeImpact.minor = record v { minor = increment v.minor; patch = pos 0 }
bump v ChangeImpact.patch = record v { patch = increment v.patch }

-- SemanticVersioner._initial_version
unfoldable pub initial_version : ChangeImpact → String
initial_version ChangeImpact.major = "1.0.0"
initial_version ChangeImpact.minor = "0.1.0"
initial_version ChangeImpact.patch = "0.0.1"

-- SemanticVersioner.next_version, `none` for the ValueError of a malformed version
unfoldable pub next_version : Option String → ChangeImpact → Option String
next_version none impact = some (initial_version impact)
next_version (some previous) impact =
    Option.map (λ v. render (bump v impact)) (split_version previous)

pub record Hashing : Type 1 where
  pub Text : Type 0
  -- json.dumps(_, sort_keys=True, separators=(",", ":")).encode("utf-8")
  pub canonical : Json → Text
  -- s.encode("utf-8")
  pub encode : String → Text
  -- the hexadecimal SHA-256 of texts in sequence
  pub sha256 : List Text → String
  pub isoformat : ℕ → String

module _ (hashing : Hashing) where
  open hashing use {canonical, encode, sha256, isoformat}

  unfoldable pub compute_hash : Json → String
  compute_hash payload = sha256 (canonical payload ∷ [])

  -- The dict of the manifest, its hash and its signature blank.
  unfoldable pub manifest_payload : ArtifactMetadata → Json
  unfolding to_dict
  manifest_payload metadata =
      object (to_dict isoformat (record metadata { hash = ""; signature = "" }))

  -- SignatureManager.sign and SignatureManager.verify, with the manager's secret
  unfoldable pub sign : String → String → List String → String
  sign secret payload_hash context =
      sha256 (encode secret ∷ encode payload_hash ∷ map encode context)

  unfoldable pub verify : String → String → String → List String → Bool
  unfolding sign
  verify secret payload_hash signature context = sign secret payload_hash context == signature
