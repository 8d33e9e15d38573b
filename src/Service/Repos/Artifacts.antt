-- ===== src/Service/Repos/Artifacts.antt =====
-- The artifact half of service/repos.py: what creating, updating and deleting do to the store.
use domain_determine.Base.{
  ℕ, String, ◌≡◌, ◌⊎◌, inl, inr, refl, ap, Option, some, none, arith, nat_eq, string_eq,
  if◌then◌else◌, is_some, Option-cases, Bool-cases, ◌==◌, eq_iff, ◌∙◌, get_or,
}
use domain_determine.Base.Dict
use domain_determine.Base.Dict.{
  Dict, get-put, get-put_self, get-put_ne, get-remove, size-put_new, size-put_old, put_new,
  values-append,
}
use domain_determine.Service.Repos.{
  ArtifactEntry, InMemoryRegistry, key_error, ok, err, found, update_artifact, get_artifact,
  updated_entry,
}

updated_entry_fields :
    (metadata : Dict String) (content content_type : Option String) (now : ℕ) (e : ArtifactEntry)
    → updated_entry metadata content content_type now e ≡ record e {
      metadata = metadata;
      updated_at = now;
      content = if is_some content then content else e.content;
      content_type = get_or content_type e.content_type;
    }
unfolding updated_entry
updated_entry_fields metadata none content_type now e = refl
updated_entry_fields metadata (some c) content_type now e = refl

-- An update of a stored entry returns, and changes that entry only: it keeps its id, name, type and
-- creation time, has the new metadata and the time of the update, and the new content and content
-- type exactly where they were given; the other ids, the number of entries and the rest of the
-- registry stay as they were. A missing id raises KeyError and changes nothing.
pub update_artifact_effect :
    (artifact_id : String) (metadata : Dict String) (content content_type : Option String) (now : ℕ)
    (r : InMemoryRegistry)
    → let (result, r') = update_artifact artifact_id metadata content content_type now r in
      ((result ≡ err (key_error artifact_id))
        × (get_artifact artifact_id r ≡ err (key_error artifact_id))
        × (r' ≡ r))
      ⊎ ((e : ArtifactEntry) × (e' : ArtifactEntry) × (get_artifact artifact_id r ≡ ok e)
          × (result ≡ ok tt)
          × (get_artifact artifact_id r' ≡ ok e')
          × (e' ≡ record e {
            metadata = metadata;
            updated_at = now;
            content = if is_some content then content else e.content;
            content_type = get_or content_type e.content_type;
          })
          × ((j : String) → (artifact_id ≡ j) ⊎ (get_artifact j r' ≡ get_artifact j r))
          × (Dict.size r'.artifacts ≡ Dict.size r.artifacts)
          × (r' ≡ record r { artifacts = r'.artifacts }))
unfolding update_artifact get_artifact
update_artifact_effect artifact_id metadata content content_type now r =
    elim (Option-cases (Dict.get r.artifacts artifact_id)) [
      | inl missing ↦ inl (ground arith, ground arith, ground arith)
      | inr (e, present) ↦
          let e' = updated_entry metadata content content_type now e in
          let new = get-put_self r.artifacts artifact_id e' in
          inr (
            e,
            e',
            ground arith,
            ground arith,
            ground (arith, new),
            updated_entry_fields metadata content content_type now e,
            (λ j. elim (Bool-cases (artifact_id == j)) [
              | inl same ↦ inl ((eq_iff artifact_id j).0 same)
              | inr differs ↦ inr (
                  rw (update_artifact, present)
                    (ap (found j) (get-put r.artifacts artifact_id j e' ∙ rw differs)))
            ]),
            rw (update_artifact, present) (size-put_old r.artifacts artifact_id e' e present),
            rw (update_artifact, present) refl,
          )
    ]
