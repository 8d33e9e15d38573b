-- ===== src/PromptPack/Versioning/Publishing.antt =====
-- What a release of a prompt template checks and changes.
use domain_determine.Base.{
  ℕ, String, ◌≡◌, ◌≢◌, ◌⊎◌, inl, inr, refl, sym, ap, ◌∙◌, Bool, true, false, ◌&&◌, Option, none,
  some, List, [], ◌==◌, nat_eq, string_eq, get_or, absurd_bool, truthy_opt, eq_iff,
}
use domain_determine.Base.Dict
use domain_determine.Base.Dict.{
  Dict, get-put, get-put_self, get-put_ne, get-remove, size-put, size-put_new, size-put_old,
  put_new, values-append,
}
use mathlib.Core.Path.{subst}
use domain_determine.Governance.EventLog.{Codec}
use domain_determine.Governance.Versioning.{ChangeImpact, next_version, Hashing}
use domain_determine.PromptPack.Registry.{
  PromptManifest, PromptRegistry, register, resolve, latest_version, registry_key,
}
use domain_determine.PromptPack.Registry as Prompts
use domain_determine.PromptPack.Versioning.{
  TemplateRecord, Texts, Release, Result, ok, err, PublishError, ◌>>=◌, require, found, lifted,
  records_of, compute_prompt_hash, manifest_of, check_identifiers, check_version, check_next,
  check_record, check_release, template_not_found, version_missing, malformed_version,
  unexpected_version, identifiers_missing,
}
use domain_determine.PromptPack.Versioning.Manager.{Manager, after_release, publish}

Result-cases :
    {A : Type 0} (r : Result A) → ((a : A) × (r ≡ ok a)) ⊎ ((e : PublishError) × (r ≡ err e))
Result-cases (ok a) = inl (a, refl)
Result-cases (err e) = inr (e, refl)

abbrev ok_or : {A : Type 0} → Result A → A → A
ok_or (ok a) b = a
ok_or (err e) b = b

abbrev is_ok : {A : Type 0} → Result A → Bool
is_ok (ok a) = true
is_ok (err e) = false

ok_inj : {A : Type 0} (a b : A) → ok a ≡ ok b → a ≡ b
ok_inj a b h = ap (λ r. ok_or r a) h

err_ok : {A P : Type 0} (e : PublishError) (a : A) → err e ≡ ok a → P
err_ok e a h = absurd_bool (sym (ap is_ok h))

-- A chain that gives a value has given one at each link.
bind-ok :
    {A B : Type 0} (r : Result A) (f : A → Result B) (b : B)
    → (r >>= f) ≡ ok b
    → (a : A) × (r ≡ ok a) × (f a ≡ ok b)
bind-ok (ok a) f b h = (a, refl, h)
bind-ok (err e) f b h = err_ok e b h

require-bind :
    {B : Type 0} (test : Bool) (e : PublishError) (f : Unit {0} → Result B) (b : B)
    → (require test e >>= f) ≡ ok b
    → (test ≡ true) × (f tt ≡ ok b)
require-bind true e f b h = (refl, h)
require-bind false e f b h = err_ok e b h

found-ok : {A : Type 0} (o : Option A) (e : PublishError) (a : A) → found o e ≡ ok a → o ≡ some a
found-ok none e a h = err_ok e a h
found-ok (some b) e a h = ap some (ok_inj b a h)

lifted-ok : {A : Type 0} (r : Prompts.Result A) (a : A) → lifted r ≡ ok a → r ≡ Prompts.ok a
lifted-ok (Prompts.ok b) a h = ap Prompts.ok (ok_inj b a h)
lifted-ok (Prompts.err e) a h = err_ok _ a h

module _ (codec : Codec) (hashing : Hashing) (t : Texts) where
  -- What the checks have found where they give a manifest
  pub record IsReleasable (template_id : String) (impact : ChangeImpact)
      (discovered : List (String × TemplateRecord)) (registry : PromptRegistry) (m : PromptManifest)
      : Type 0 where
    pub template : TemplateRecord
    pub previous : Option String
    pub is_discovered : Dict.get (records_of discovered []) template_id ≡ some template
    pub is_latest : latest_version template_id registry ≡ Prompts.ok previous
    pub is_next : next_version previous impact ≡ some m.version
    pub same_template : m.template_id ≡ template_id
    pub same_hash : m.hash ≡ compute_prompt_hash codec hashing t template
    pub has_identifiers : (truthy_opt template.schema && truthy_opt template.policy) ≡ true

  check_release-IsReleasable :
      (template_id : String) (impact : ChangeImpact) (discovered : List (String × TemplateRecord))
      (registry : PromptRegistry) (m : PromptManifest)
      → check_release codec hashing t template_id impact discovered registry ≡ ok m
      → IsReleasable template_id impact discovered registry m
  unfolding check_release manifest_of
  check_release-IsReleasable template_id impact discovered registry m h =
      let (r, is_there, recorded) =
        bind-ok (found (Dict.get (records_of discovered []) template_id) template_not_found)
          (check_record codec hashing t template_id impact registry) m h in
      let (_, versioned) =
        require-bind (truthy_opt r.version) version_missing
          (λ _.
            lifted (latest_version template_id registry)
            >>= check_next codec hashing t template_id impact r)
          m recorded in
      let (previous, latest, bumped) =
        bind-ok (lifted (latest_version template_id registry))
          (check_next codec hashing t template_id impact r) m versioned in
      let (expected, next, compared) =
        bind-ok (found (next_version previous impact) malformed_version)
          (check_version codec hashing t template_id r) m bumped in
      let (declared, identified) =
        require-bind (get_or r.version "" == expected) unexpected_version
          (λ _. check_identifiers codec hashing t template_id r) m compared in
      let (identifiers, given) =
        require-bind (truthy_opt r.schema && truthy_opt r.policy) identifiers_missing
          (λ _. ok (manifest_of codec hashing t template_id r)) m identified in
      let same = ok_inj (manifest_of codec hashing t template_id r) m given in
      let version_is_expected = (eq_iff (get_or r.version "") expected).0 declared in
      record {
        template = r;
        previous = previous;
        is_discovered =
            found-ok (Dict.get (records_of discovered []) template_id) template_not_found r
              is_there;
        is_latest = lifted-ok (latest_version template_id registry) previous latest;
        is_next =
            found-ok (next_version previous impact) malformed_version expected next
            ∙ ap some (sym version_is_expected ∙ ap (λ (x : PromptManifest). x.version) same);
        same_template = ap (λ (x : PromptManifest). x.template_id) (sym same);
        same_hash = ap (λ (x : PromptManifest). x.hash) (sym same);
        has_identifiers = identifiers;
      }

  -- A publication returns a manifest only for a discovered template that has identifiers of its schema and
  -- its policy; the manifest has the next version after the latest one and the hash of the template, it is
  -- resolved by the registry then, and every other key of the registry resolves as before. Any other
  -- publication raises and changes neither the registry nor the files nor the event log.
  pub publish_lem :
      (template_id : String) (p : Release) (discovered : List (String × TemplateRecord)) (now : ℕ)
      (s : Manager codec hashing t)
      → ((m : PromptManifest) × (publish codec hashing t template_id p discovered now s
            ≡ (ok m, after_release codec hashing t m p now s))
          × IsReleasable template_id p.impact discovered s.registry m
          × (resolve template_id m.version (after_release codec hashing t m p now s).registry
              ≡ some m)
          × ((k : String)
              → k ≢ registry_key m.template_id m.version
              → Dict.get (after_release codec hashing t m p now s).registry k
                ≡ Dict.get s.registry k))
        ⊎ ((e : PublishError) × (publish codec hashing t template_id p discovered now s
              ≡ (err e, s)))
  unfolding publish after_release resolve
  publish_lem template_id p discovered now s =
      elim (Result-cases
        (check_release codec hashing t template_id p.impact discovered s.registry)) [
          | inr (e, stops) ↦ inr (e, rw stops refl)
          | inl (m, passes) ↦
              let sound =
                check_release-IsReleasable template_id p.impact discovered s.registry m passes in
              inl (
                m,
                rw passes refl,
                sound,
                subst (λ id. Dict.get (register m s.registry) (registry_key id m.version) ≡ some m)
                    sound.same_template
                    (get-put_self s.registry (registry_key m.template_id m.version) m),
                λ k other.
                    get-put_ne s.registry (registry_key m.template_id m.version) k m
                      (λ same. other (sym same)),
              )
        ]
