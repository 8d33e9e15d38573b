-- ===== src/Governance/Registry/Lineage.antt =====
-- The lineage of the registry: which edges a publication adds, and which it leaves.
use domain_determine.Base.{
  ℕ, String, ◌≡◌, inl, inr, sym, ap, ◌∙◌, Bool, true, ◌&&◌, ◌||◌, Option, List, [], ◌∷◌, map, arith,
  ◌==◌, nat_eq, string_eq, if◌then◌else◌, get_or, Bool-cases, contains, contains-add,
  contains-to_set, contains-sorted, eq_iff,
}
use domain_determine.Base.Dict
use domain_determine.Base.Dict.{
  Dict, get-put, get-put_self, get-put_ne, get-remove, size-put, size-put_new, size-put_old,
  put_new, values-append,
}
use domain_determine.Governance.Models.{ArtifactRef, ArtifactMetadata}
use domain_determine.Governance.EventLog.{Codec}
use domain_determine.Governance.Registry.Publishing.{
  parents-published, children-published, Result-cases,
}
use domain_determine.Governance.Versioning.{ChangeImpact, Hashing}
use domain_determine.Governance.Registry.{
  GovernanceRegistry, RegistryError, ok, err, parent_ids, add_child, add_to_parents, set_default,
  validate, published, register_if, register, dependents, parents_of,
}

-- The parents and the children on record, as sets.
abbrev pub edges : Dict (List String) → String → List String
edges d k = get_or (Dict.get d k) []

or_comm : (a b : Bool) → (a || b) ≡ (b || a)
or_comm a b = ground arith

edges-add_child :
    (p c : String) (d : Dict (List String)) (k a : String)
    → contains (edges (add_child p c d) k) a ≡ (contains (edges d k) a || (p == k && c == a))
unfolding add_child
edges-add_child p c d k a = elim (Bool-cases (p == k)) [
  | inl same ↦
      let here : p ≡ k = (eq_iff p k).0 same in
      rw (get-put, same, contains-add, here) (or_comm (c == a) (contains (edges d k) a))
  | inr differs ↦ rw (get-put, differs) (ground arith)
]

edges-add_to_parents :
    (ps : List String) (c : String) (d : Dict (List String)) (k a : String)
    → contains (edges (add_to_parents ps c d) k) a
      ≡ (contains (edges d k) a || (contains ps k && c == a))
unfolding add_to_parents contains
edges-add_to_parents [] c d k a = ground arith
edges-add_to_parents (p ∷ ps) c d k a =
    ground (arith, edges-add_to_parents ps c (add_child p c d) k a, edges-add_child p c d k a)

edges-set_default :
    (i : String) (d : Dict (List String)) (k : String) → edges (set_default i d) k ≡ edges d k
unfolding set_default
edges-set_default i d k = ground (arith, get-put d i k [], eq_iff i k)

contains-parent_ids :
    (refs : List ArtifactRef) (k : String)
    → contains (parent_ids refs) k ≡ contains (map (λ (ref : ArtifactRef). ref.artifact_id) refs) k
unfolding parent_ids
contains-parent_ids refs k = contains-to_set (map (λ ref. ref.artifact_id) refs) k

absurd_result : {A : Type 0} {P : Type 0} {a : A} {e : RegistryError} → err e ≡ ok a → P
absurd_result h = cc

-- Every recorded parent of an artifact has the artifact among its dependents.
module _ (codec : Codec) (hashing : Hashing) where
  pub record IsLinked (g : GovernanceRegistry codec hashing) : Type 0 where
    pub linked :
        (k a : String)
        → contains (parents_of codec hashing k g) a ≡ true
        → contains (dependents codec hashing a g) k ≡ true

  module _ (t : String) (m : ArtifactMetadata) (impact : ChangeImpact)
      (dependencies : List ArtifactRef) (actor : Option String) (proposed_at : Option ℕ) (now : ℕ)
      (g : GovernanceRegistry codec hashing) where
    abbrev ids : List String
    ids = map (λ (ref : ArtifactRef). ref.artifact_id) dependencies

    abbrev stored : GovernanceRegistry codec hashing
    stored = published codec hashing t m impact dependencies actor proposed_at now g

    parents_of-stored :
        (k a : String)
        → contains (parents_of codec hashing k stored) a ≡ (
            if m.artifact_id == k
            then contains ids a
            else contains (parents_of codec hashing k g) a)
    unfolding parents_of
    parents_of-stored k a = elim (Bool-cases (m.artifact_id == k)) [
      | inl same ↦
          rw
            (
              parents-published codec hashing t m impact dependencies actor proposed_at now g,
              get-put,
              same,
              contains-sorted,
            )
            (contains-parent_ids dependencies a)
      | inr differs ↦ rw (
        parents-published codec hashing t m impact dependencies actor proposed_at now g,
        get-put,
        differs,
      )
    ]

    dependents-stored :
        (k a : String)
        → contains (dependents codec hashing k stored) a
          ≡ (contains (dependents codec hashing k g) a || (contains ids k && m.artifact_id == a))
    unfolding dependents
    dependents-stored k a =
        rw
          (
            children-published codec hashing t m impact dependencies actor proposed_at now g,
            contains-sorted,
            contains-sorted,
          )
          (ap (λ s. contains s a) (edges-set_default m.artifact_id _ k)
            ∙ edges-add_to_parents (parent_ids dependencies) m.artifact_id g.children k a
            ∙ ap (λ b. contains (edges g.children k) a || (b && m.artifact_id == a))
                (contains-parent_ids dependencies k))

    -- A registration that succeeds makes the ids of the dependencies the parents of the artifact and
    -- leaves the parents of the others. It adds the artifact to the dependents of each dependency and
    -- takes no dependent away, also where an earlier version of the artifact had other dependencies.
    pub register-lineage :
        (register codec hashing t m impact dependencies actor proposed_at now g).0 ≡ ok m
        → (k a : String)
        → let after = (register codec hashing t m impact dependencies actor proposed_at now g).1 in
          (contains (parents_of codec hashing k after) a ≡ (
            if m.artifact_id == k
            then contains ids a
            else contains (parents_of codec hashing k g) a))
          × (contains (dependents codec hashing k after) a ≡ (
              contains (dependents codec hashing k g) a || (contains ids k && m.artifact_id == a)))
    unfolding register
    register-lineage done k a =
        elim (Result-cases (validate codec hashing m impact dependencies g)) [
          | inl passes ↦ rw passes (parents_of-stored k a, dependents-stored k a)
          | inr (e, raises) ↦
              absurd_result
                (sym (ap (λ r. (register_if codec hashing r m g stored).0) raises) ∙ done)
        ]

    still_linked :
        IsLinked g
        → (k a : String) → contains (parents_of codec hashing k stored) a ≡ true
        → contains (dependents codec hashing a stored) k ≡ true
    still_linked r k a parent =
        let before = r.linked k a in ground (arith, parents_of-stored k a, dependents-stored a k)

    -- A registration, successful or not, keeps every parent's dependents complete: each artifact that
    -- has a parent on record is among the parent's dependents.
    pub register-IsLinked :
        IsLinked g
        → IsLinked (register codec hashing t m impact dependencies actor proposed_at now g).1
    unfolding register
    register-IsLinked r = elim (Result-cases (validate codec hashing m impact dependencies g)) [
      | inl passes ↦ rw passes (record { linked = still_linked r })
      | inr (e, raises) ↦ rw raises r
    ]
