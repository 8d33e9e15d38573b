-- ===== src/PromptPack/Registry.antt =====
-- src/DomainDetermine/prompt_pack/registry.py. `value_error` is the ValueError of an unpacking that
-- gets one text where two are wanted; the other errors are PromptRegistryError.
pub mod References
use domain_determine.Base.{
  ℕ, zero, suc, ◌+◌, ◌-◌, ◌*◌, ◌/◌, ◌%◌, ◌≤◌, ◌<◌, String, ◌≡◌, ◌≢◌, ◌↔◌, ◌⊎◌, inl, inr, refl, sym,
  ap, ◌∙◌, Bool, true, false, not, ◌&&◌, ◌||◌, Option, none, some, List, [], ◌∷◌, ◌++◌, map, arith,
  Eq, ◌==◌, nat_eq, string_eq, nat_beq, eq_of_discrete, if◌then◌else◌, ltb, leb, is_some, get_or,
  Bool-cases, Option-cases, length, keep, every, some_of, contains, add, to_set, subset, meets,
  insert_sorted, sorted, text_le, All, length-append, contains-append, contains-add,
  contains-to_set, contains_of_subset, subset_mono, contains-sorted, show, ◌<>◌, emit, digit, value,
  code-digit, value-show, show-injective, numbered-injective, truthy, truthy_opt, is_space,
  strip_left, strip_right, strip, prepend, split, split_once, eq_iff,
}
use domain_determine.Base.Dict
use domain_determine.Base.Dict.{
  Dict, get-put, get-put_self, get-put_ne, get-remove, size-put, size-put_new, size-put_old,
  put_new, values-append,
}
use domain_determine.Base.Int.{ℤ, ltb_ℤ}
use domain_determine.Governance.Versioning.{Version, split_version}

pub data PromptError : Type 0 where
  not_registered : String → String → PromptError
  invalid_version : String → PromptError
  bad_format : PromptError
  empty_segment : PromptError
  value_error : PromptError

pub data Result {ℓ} (A : Type ℓ) : Type ℓ where
  ok : A → Result A
  err : PromptError → Result A

infixl 5 ◌>>=◌
abbrev pub ◌>>=◌ {ℓ κ} : {A : Type ℓ} {B : Type κ} → Result A → (A → Result B) → Result B
err e >>= f = err e
ok a >>= f = f a

pub record PromptManifest : Type 0 where
  pub template_id : String
  pub version : String
  pub schema_id : String
  pub policy_id : String
  pub hash : String

-- PromptRegistry: its dict of entries
abbrev pub PromptRegistry : Type 0
PromptRegistry = Dict PromptManifest

unfoldable pub registry_key : String → String → String
registry_key template_id version = template_id <> String.◌∷◌ ":" version

unfoldable pub register : PromptManifest → PromptRegistry → PromptRegistry
register manifest entries =
    Dict.put entries (registry_key manifest.template_id manifest.version) manifest

unfoldable pub resolve : String → String → PromptRegistry → Option PromptManifest
resolve template_id version entries = Dict.get entries (registry_key template_id version)

-- PromptRegistry.get
unfoldable pub get_manifest : String → String → PromptRegistry → Result PromptManifest
unfolding resolve
get_manifest template_id version entries = elim (resolve template_id version entries) [
  | none ↦ err (not_registered template_id version)
  | some manifest ↦ ok manifest
]

unfoldable pub list_all : PromptRegistry → PromptRegistry
list_all entries = entries

unfoldable pub version_key : String → Result Version
version_key version = elim (split_version version) [
  | none ↦ err (invalid_version version)
  | some v ↦ ok v
]

-- `<` on the tuples of three integers
unfoldable pub key_lt : Version → Version → Bool
key_lt v w =
    if ltb_ℤ v.major w.major
    then true
    else if ltb_ℤ w.major v.major
    then false
    else if ltb_ℤ v.minor w.minor
    then true
    else if ltb_ℤ w.minor v.minor
    then false
    else ltb_ℤ v.patch w.patch

unfoldable pub versions_of : String → List PromptManifest → List String
versions_of template_id [] = []
versions_of template_id (m ∷ ms) =
    let rest = versions_of template_id ms in
    if m.template_id == template_id then m.version ∷ rest else rest

-- max(versions, key=_version_key), from a best one and its key: the first of the largest
unfoldable pub max_version : String → Version → List String → Result String
unfolding version_key key_lt
max_version best key [] = ok best
max_version best key (v ∷ vs) = do
  k ← version_key v
  let better = key_lt key k
  max_version (if better then v else best) (if better then k else key) vs

abbrev pub latest_of : List String → Result (Option String)
latest_of [] = ok none
latest_of (v ∷ vs) = do k ← version_key v; best ← max_version v k vs; ok (some best)

unfoldable pub latest_version : String → PromptRegistry → Result (Option String)
unfolding versions_of max_version version_key
latest_version template_id entries = latest_of (versions_of template_id (Dict.values entries))

unfoldable pub format_prompt_reference : PromptManifest → String
unfolding registry_key
format_prompt_reference manifest =
    registry_key manifest.template_id manifest.version <> String.◌∷◌ "#" manifest.hash

abbrev pub Reference : Type 0
Reference = String × String × String

abbrev pub checked : String → String → String → Result Reference
checked template_id version hash_value =
    if truthy template_id && truthy version && truthy hash_value
    then ok (template_id, version, hash_value)
    else err empty_segment

-- template_id, version = identity.split(":", 1)
abbrev pub with_identity : Option (String × String) → String → Result Reference
with_identity none hash_value = err value_error
with_identity (some (template_id, version)) hash_value =
    checked (strip template_id) (strip version) (strip hash_value)

-- identity, hash_value = reference.split("#", 1)
abbrev pub with_hash : Option (String × String) → Result Reference
with_hash none = err bad_format
with_hash (some (identity, hash_value)) = with_identity (split_once b':' identity) hash_value

unfoldable pub parse_prompt_reference : String → Result Reference
parse_prompt_reference reference =
    if is_some (split_once b':' reference)
    then with_hash (split_once b'#' reference)
    else err bad_format

unfoldable pub build_reference : String → String → PromptRegistry → Result String
unfolding resolve format_prompt_reference
build_reference template_id version entries = elim (resolve template_id version entries) [
  | none ↦ err (not_registered template_id version)
  | some manifest ↦ ok (format_prompt_reference manifest)
]

abbrev pub keyed : String → Result (Version × String)
keyed reference = do
  parts ← parse_prompt_reference reference
  key ← version_key parts.1
  ok (key, reference)

unfoldable pub insert_keyed : Version × String → List (Version × String) → List (Version × String)
unfolding key_lt
insert_keyed x [] = x ∷ []
insert_keyed x (y ∷ ys) = if key_lt y.0 x.0 then y ∷ insert_keyed x ys else x ∷ y ∷ ys

-- The references of a template with their keys, in the order of the keys; equal keys keep their order.
unfoldable pub keyed_references : String → List PromptManifest → Result (List (Version × String))
unfolding format_prompt_reference parse_prompt_reference version_key insert_keyed
keyed_references template_id [] = ok []
keyed_references template_id (m ∷ ms) =
    let rest = keyed_references template_id ms in
    if m.template_id == template_id
    then (keyed (format_prompt_reference m) >>= λ x. rest >>= λ ys. ok (insert_keyed x ys))
    else rest

-- PromptRegistry.references_for
unfoldable pub references_for : String → PromptRegistry → Result (List String)
unfolding keyed_references
references_for template_id entries =
    keyed_references template_id (Dict.values entries) >>= λ ys. ok (map (λ y. y.1) ys)
