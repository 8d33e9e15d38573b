-- ===== src/Readiness/Manifest/Accepted.antt =====
-- What the registry does with the metadata that the registration of a release manifest builds.
use domain_determine.Base.{
  ℕ, String, ◌≡◌, refl, ap, Bool, true, Option, none, some, List, [], ◌∷◌, ◌==◌, nat_eq, string_eq,
  truthy, eq_iff,
}
use domain_determine.Governance.Models.{ArtifactRef, ArtifactMetadata}
use domain_determine.Governance.EventLog.{Codec}
use domain_determine.Governance.Versioning.{
  ChangeImpact, next_version, Hashing, compute_hash, manifest_payload, sign, verify,
}
use domain_determine.Governance.Registry.{
  GovernanceRegistry, RegistryError, Result, ok, err, ◌>>◌, require, hash_mismatch,
  signature_required, invalid_signature, version_mismatch, validate_dependencies,
  validate_prompt_templates, validate_signature, validate_version, validate, version_of, published,
  register, register_if, get,
}
use domain_determine.Readiness.Manifest.{
  ReleaseManifest, Registration, parse_all, choose_identifier, unsigned, sealed, submit_manifest,
  register_manifest,
}

beq_refl : (s : String) → (s == s) ≡ true
beq_refl s = (eq_iff s s).1 refl

require-true : {b : Bool} (e : RegistryError) → b ≡ true → require b e ≡ ok tt
require-true e h = cc

both_ok : (a b : Result (Unit {0})) → a ≡ ok tt → b ≡ ok tt → (a >> b) ≡ ok tt
both_ok (ok tt) b ha hb = hb
both_ok (err e) b ha hb = cc

three_ok :
    (checks a b c : Result (Unit {0}))
    → a ≡ ok tt
    → b ≡ ok tt
    → c ≡ ok tt
    → (checks >> a >> b >> c) ≡ checks
three_ok (err e) a b c ha hb hc = refl
three_ok (ok tt) a b c ha hb hc = both_ok _ _ (both_ok _ _ ha hb) hc

module _ (codec : Codec) (hashing : Hashing) where
  open hashing use {encode, sha256}

  abbrev Registry : Type 0
  Registry = GovernanceRegistry codec hashing

  sealed-hash :
      (u : ArtifactMetadata) (secret : Option String)
      → compute_hash hashing (manifest_payload hashing (sealed codec hashing u secret))
        ≡ (sealed codec hashing u secret).hash
  unfolding sealed manifest_payload
  sealed-hash u secret = refl

  sealed-signature :
      ((chunks : List hashing.Text) → truthy (sha256 chunks) ≡ true)
      → (u : ArtifactMetadata) (secret : Option String)
      → validate_signature codec hashing (sealed codec hashing u secret) secret ≡ ok tt
  unfolding sealed validate_signature sign verify
  sealed-signature digests u none = refl
  sealed-signature digests u (some secret) =
      let chunks =
        encode secret
        ∷ encode (compute_hash hashing (manifest_payload hashing u))
        ∷ encode u.artifact_id
        ∷ encode u.version
        ∷ [] in
      let signed = require-true signature_required (digests chunks) in
      let same = require-true invalid_signature (beq_refl (sha256 chunks)) in
      both_ok _ _ signed same

  sealed-version :
      (u : ArtifactMetadata) (secret : Option String) (impact : ChangeImpact) (g : Registry)
      → next_version (version_of codec hashing (get codec hashing u.artifact_id g)) impact
        ≡ some u.version
      → validate_version codec hashing (sealed codec hashing u secret) impact g ≡ ok tt
  unfolding sealed validate_version get
  sealed-version u secret impact g h =
      rw (h, validate_version, get) (require-true version_mismatch (beq_refl u.version))

  sealed-validate :
      ((chunks : List hashing.Text) → truthy (sha256 chunks) ≡ true)
      → (u : ArtifactMetadata) (impact : ChangeImpact) (dependencies : List ArtifactRef)
        (g : Registry)
      → next_version (version_of codec hashing (get codec hashing u.artifact_id g)) impact
        ≡ some u.version
      → validate codec hashing (sealed codec hashing u g.signature_manager) impact dependencies g
        ≡ (validate_dependencies codec hashing dependencies g
            >> validate_prompt_templates codec hashing u.prompt_templates g)
  unfolding validate sealed
  sealed-validate digests u impact dependencies g h =
      three_ok
        (validate_dependencies codec hashing dependencies g
          >> validate_prompt_templates codec hashing u.prompt_templates g)
        _ _ _ (require-true hash_mismatch (beq_refl _))
        (sealed-signature digests u g.signature_manager)
        (sealed-version u g.signature_manager impact g h)

  submit_manifest_lem :
      ((chunks : List hashing.Text) → truthy (sha256 chunks) ≡ true)
      → (m : ReleaseManifest) (p : Registration) (now : ℕ) (g : Registry) (id version : String)
      → next_version (version_of codec hashing (get codec hashing id g)) p.change_impact
        ≡ some version
      → parse_all p.prompt_templates ≡ ok tt
      → (let metadata =
            sealed codec hashing (unsigned codec hashing m p id version now) g.signature_manager in
          submit_manifest codec hashing m p id
            (version_of codec hashing (get codec hashing id g))
            now
            g
          ≡ register_if codec hashing
              (validate_dependencies codec hashing p.dependencies g
                >> validate_prompt_templates codec hashing p.prompt_templates g)
              metadata
              g
              (published codec hashing p.artifact_type metadata p.change_impact p.dependencies none
                none now g))
  unfolding register unsigned submit_manifest get
  submit_manifest_lem digests m p now g id version next parse =
      let u = unsigned codec hashing m p id version now in
      let metadata = sealed codec hashing u g.signature_manager in
      let checks = sealed-validate digests u p.change_impact p.dependencies g next in
      let after =
        published codec hashing p.artifact_type metadata p.change_impact p.dependencies none none
          now g in
      rw (submit_manifest, next, parse)
        (ap (λ checked. register_if codec hashing checked metadata g after) checks)

  -- Registering a release manifest under a given identifier, where the digest is never the empty text, the
  -- next version exists and every prompt reference parses: the hash, signature and version that the function
  -- computes always pass the registry's own checks, so the outcome is that of the checks of the dependencies
  -- and of the prompt references, and on success the sealed metadata is published.
  pub register_manifest_lem :
      ((chunks : List hashing.Text) → truthy (sha256 chunks) ≡ true)
      → (m : ReleaseManifest) (p : Registration) (now : ℕ) (g : Registry) (id version : String)
      → p.artifact_id ≡ some id
      → next_version (version_of codec hashing (get codec hashing id g)) p.change_impact
        ≡ some version
      → parse_all p.prompt_templates ≡ ok tt
      → (let metadata =
            sealed codec hashing (unsigned codec hashing m p id version now) g.signature_manager in
          register_manifest codec hashing m p now g
          ≡ register_if codec hashing
              (validate_dependencies codec hashing p.dependencies g
                >> validate_prompt_templates codec hashing p.prompt_templates g)
              metadata
              g
              (published codec hashing p.artifact_type metadata p.change_impact p.dependencies none
                none now g))
  unfolding register_manifest choose_identifier get
  register_manifest_lem digests m p now g id version given next parse =
      rw given (submit_manifest_lem digests m p now g id version next parse)
