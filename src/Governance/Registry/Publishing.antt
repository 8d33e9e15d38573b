-- ===== src/Governance/Registry/Publishing.antt =====
-- What a publication checks and stores.
use domain_determine.Base.{
  ℕ, String, ◌≡◌, ◌⊎◌, inl, inr, refl, sym, ap, Bool, true, false, Option, none, some, List, arith,
  ◌==◌, nat_eq, string_eq, if◌then◌else◌, eq_iff,
}
use domain_determine.Base.Dict
use domain_determine.Base.Dict.{
  Dict, get-put, get-put_self, get-put_ne, get-remove, size-put, size-put_new, size-put_old,
  put_new, values-append,
}
use domain_determine.Governance.Models.{ArtifactRef, ArtifactMetadata}
use domain_determine.Governance.EventLog.{Codec}
use domain_determine.Governance.Versioning.{
  ChangeImpact, next_version, Hashing, compute_hash, manifest_payload,
}
use domain_determine.Governance.Registry.{
  GovernanceRegistry, RegistryError, Result, ok, err, hash_mismatch, version_mismatch,
  invalid_version, ◌>>◌, require, parent_ids, add_to_parents, set_default, validate_dependencies,
  validate_prompt_templates, validate_signature, validate_version, validate, version_of,
  append_event, store, published, register, get,
}

then-ok : (a b : Result (Unit {0})) → (a >> b) ≡ ok tt → (a ≡ ok tt) × (b ≡ ok tt)
then-ok (ok tt) b h = (refl, h)
then-ok (err e) b h = cc

pub Result-cases : (r : Result (Unit {0})) → (r ≡ ok tt) ⊎ ((e : RegistryError) × (r ≡ err e))
Result-cases (ok tt) = inl refl
Result-cases (err e) = inr (e, refl)

require-ok : (b : Bool) (e : RegistryError) → require b e ≡ ok tt → b ≡ true
require-ok true e h = refl
require-ok false e h = cc

module _ (codec : Codec) (hashing : Hashing) where
  abbrev Registry : Type 0
  Registry = GovernanceRegistry codec hashing

  -- What a manifest that passes all checks satisfies.
  pub record IsPublishable (m : ArtifactMetadata) (impact : ChangeImpact)
      (dependencies : List ArtifactRef) (g : Registry) : Type 0 where
    pub dependencies_ok : validate_dependencies codec hashing dependencies g ≡ ok tt
    pub prompts_ok : validate_prompt_templates codec hashing m.prompt_templates g ≡ ok tt
    pub hash_ok : compute_hash hashing (manifest_payload hashing m) ≡ m.hash
    pub signature_ok : validate_signature codec hashing m g.signature_manager ≡ ok tt
    pub version_ok :
        next_version (version_of codec hashing (get codec hashing m.artifact_id g)) impact
        ≡ some m.version

  version-ok :
      (m : ArtifactMetadata) (o : Option String)
      → (elim o [
        | none ↦ err invalid_version
        | some expected ↦ require (m.version == expected) version_mismatch
      ])
        ≡ ok tt
      → o ≡ some m.version
  version-ok m none h = cc
  version-ok m (some expected) h = ap some (sym ((eq_iff _ _).0 (require-ok _ version_mismatch h)))

  module _ (m : ArtifactMetadata) (impact : ChangeImpact) (dependencies : List ArtifactRef)
      (g : Registry) where
    validate-IsPublishable :
        validate codec hashing m impact dependencies g ≡ ok tt
        → IsPublishable m impact dependencies g
    unfolding validate validate_version get
    validate-IsPublishable h =
        let deps = validate_dependencies codec hashing dependencies g in
        let prompts = validate_prompt_templates codec hashing m.prompt_templates g in
        let hash =
          require (compute_hash hashing (manifest_payload hashing m) == m.hash) hash_mismatch in
        let signature = validate_signature codec hashing m g.signature_manager in
        let (four, version_checked) = then-ok (deps >> prompts >> hash >> signature) _ h in
        let (three, signature_checked) = then-ok (deps >> prompts >> hash) signature four in
        let (two, hash_checked) = then-ok (deps >> prompts) hash three in
        let (deps_checked, prompts_checked) = then-ok deps prompts two in
        record {
          dependencies_ok = deps_checked;
          prompts_ok = prompts_checked;
          hash_ok = (eq_iff _ _).0 (require-ok _ hash_mismatch hash_checked);
          signature_ok = signature_checked;
          version_ok = version-ok m _ version_checked;
        }

  module _ (t : String) (m : ArtifactMetadata) (impact : ChangeImpact)
      (dependencies : List ArtifactRef) (actor : Option String) (proposed_at : Option ℕ) (now : ℕ)
      (g : Registry) where
    abbrev g' : Registry
    g' = published codec hashing t m impact dependencies actor proposed_at now g

    artifacts-published : g'.artifacts ≡ Dict.put g.artifacts m.artifact_id m
    unfolding published append_event store
    artifacts-published = ground arith

    pub parents-published : g'.parents ≡ Dict.put g.parents m.artifact_id (parent_ids dependencies)
    unfolding published append_event store
    parents-published = ground arith

    pub children-published :
        g'.children
        ≡ set_default m.artifact_id
            (add_to_parents (parent_ids dependencies) m.artifact_id g.children)
    unfolding published append_event store
    children-published = ground arith

    get-published :
        (k : String)
        → get codec hashing k g' ≡ (if m.artifact_id == k then some m else get codec hashing k g)
    unfolding get
    get-published k = rw (artifacts-published, get-put)

    -- A registration either passes every check and stores the manifest under its id, leaving the other
    -- manifests, or raises and leaves the registry as it was. The checks are those of the
    -- dependencies, the prompt templates, the hash, the signature and the version, and the manifest is
    -- returned.
    pub register_lem :
        let (result, after) =
          register codec hashing t m impact dependencies actor proposed_at now g in
        ((result ≡ ok m)
          × IsPublishable m impact dependencies g
          × ((k : String)
              → get codec hashing k after
                ≡ (if m.artifact_id == k then some m else get codec hashing k g)))
        ⊎ ((e : RegistryError) × (result ≡ err e)
            × (validate codec hashing m impact dependencies g ≡ err e)
            × (after ≡ g))
    unfolding register
    register_lem = elim (Result-cases (validate codec hashing m impact dependencies g)) [
      | inl passes ↦ inl (
        rw passes,
        validate-IsPublishable m impact dependencies g passes,
        rw passes get-published,
      )
      | inr (e, raises) ↦ inr (e, rw raises, raises, rw raises)
    ]
