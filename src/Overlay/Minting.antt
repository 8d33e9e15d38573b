-- ===== src/Overlay/Minting.antt =====
-- src/DomainDetermine/overlay/lifecycle.py: `_slugify`, `OverlayIdGenerator` and
-- `OverlayRegistry.register_candidate`. What comes before the two regular expressions of `_slugify`, the
-- decomposition and the case tables of Unicode, is the parameter `fold`.
pub mod Identifiers
pub mod Registration
use domain_determine.Base.{
  ℕ, zero, suc, ◌+◌, ◌-◌, ◌*◌, ◌/◌, ◌%◌, ◌≤◌, ◌<◌, String, ◌≡◌, ◌≢◌, ◌↔◌, ◌⊎◌, inl, inr, refl, sym,
  ap, ◌∙◌, Bool, true, false, not, ◌&&◌, ◌||◌, Option, none, some, List, [], ◌∷◌, ◌++◌, map, arith,
  Eq, ◌==◌, nat_eq, string_eq, nat_beq, eq_of_discrete, if◌then◌else◌, ltb, leb, is_some, get_or,
  Bool-cases, Option-cases, absurd_bool, none_some, some_inj, or_left, or_right, length, keep,
  every, some_of, contains, add, to_set, subset, meets, insert_sorted, sorted, text_le, All,
  length-append, contains-append, contains-add, contains-to_set, contains_of_subset, subset_mono,
  contains-sorted, show, ◌<>◌, emit, digit, value, code-digit, value-show, show-injective,
  numbered-injective, truthy, truthy_opt, is_space, strip_left, strip_right, strip, prepend, split,
  split_once, eq_iff,
}
use domain_determine.Base.Dict
use domain_determine.Base.Dict.{Dict}
use Prim.Native.Char.{Char, code}
use domain_determine.Overlay.Models.{
  candidate, EvidencePack, OverlayProvenance, OverlayNode, guardrail_allows, PolicyGuardrail,
  OverlayLifecycleEvent,
}
use domain_determine.Overlay.Lifecycle.{
  OverlayRegistry, OverlayError, identifier_collision, policy_violation, Outcome, done, raise,
  append_lifecycle, reserve,
}

-- [a-z0-9]
unfoldable pub is_slug_char : ℕ → Bool
is_slug_char c = (leb b'a' c && leb c b'z') || (leb b'0' c && leb c b'9')

-- re.sub(r"[^a-z0-9]+", "-", s); `inside` says that the run at hand has its dash.
unfoldable pub dashed : Bool → String → String
unfolding is_slug_char
dashed inside String.[] = ""
dashed inside (String.◌∷◌ c s) =
    let plain = is_slug_char (code c) in
    let rest = dashed (not plain) s in
    if plain then String.◌∷◌ c rest else if inside then rest else String.◌∷◌ "-" rest

-- s.lstrip("-") and s.rstrip("-")
unfoldable pub left_stripped : String → String
left_stripped String.[] = ""
left_stripped (String.◌∷◌ c s) =
    let rest = left_stripped s in if nat_beq (code c) b'-' then rest else String.◌∷◌ c s

unfoldable pub right_stripped : String → String
right_stripped String.[] = ""
right_stripped (String.◌∷◌ c s) =
    let rest = right_stripped s in
    if nat_beq (code c) b'-' && not (truthy rest) then "" else String.◌∷◌ c rest

-- re.sub(r"-+", "-", s)
unfoldable pub single_dashes : Bool → String → String
single_dashes inside String.[] = ""
single_dashes inside (String.◌∷◌ c s) =
    let dash = nat_beq (code c) b'-' in
    let rest = single_dashes dash s in if dash && inside then rest else String.◌∷◌ c rest

-- _slugify
unfoldable pub slugify : (String → String) → String → String
unfolding dashed left_stripped right_stripped single_dashes
slugify fold value =
    let slug = single_dashes false (right_stripped (left_stripped (dashed false (fold value)))) in
    if truthy slug then slug else "concept"

-- The identifier of a counter
unfoldable pub identifier : String → String → ℕ → String
identifier namespace slug counter =
    let base = namespace <> String.◌∷◌ ":" slug in
    if nat_beq counter 0 then base else base <> String.◌∷◌ "-" (show counter)

-- OverlayIdGenerator.generate: the first identifier that is not issued, on fuel for its recursion, with
-- no limit on the depth as Python has one
unfoldable pub generate : ℕ → String → String → ℕ → List String → Option String
unfolding identifier
generate zero namespace slug counter issued = none
generate (suc fuel) namespace slug counter issued =
    let rest = generate fuel namespace slug (suc counter) issued in
    if contains issued (identifier namespace slug counter)
    then rest
    else some (identifier namespace slug counter)

-- The arguments of `register_candidate`
pub record Candidate : Type 0 where
  pub base_concept_id : String
  pub preferred_labels : Dict String
  pub alt_labels : Option (Dict (List String))
  pub short_definition : String
  pub long_definition : Option String
  pub examples : List String
  pub difficulty : String
  pub jurisdiction_tags : List String
  pub evidence_pack : EvidencePack
  pub provenance : OverlayProvenance
  pub nearest_concept_id : Option String
  pub explicit_overlay_id : Option String
  pub prompt_hash : Option String

abbrev pub label_hint : Candidate → Dict String → String
label_hint c [] = c.base_concept_id
label_hint c ((lang, label) ∷ d) = label

unfoldable pub new_node : String → Candidate → OverlayNode
new_node overlay_id c = record {
  overlay_id = overlay_id;
  base_concept_id = c.base_concept_id;
  state = candidate;
  preferred_labels = c.preferred_labels;
  alt_labels = get_or c.alt_labels [];
  short_definition = c.short_definition;
  long_definition = c.long_definition;
  examples = c.examples;
  difficulty = c.difficulty;
  jurisdiction_tags = c.jurisdiction_tags;
  evidence_pack = c.evidence_pack;
  provenance = c.provenance;
  coverage_plan_links = [];
  prompt_hash = c.prompt_hash;
  nearest_concept_id = c.nearest_concept_id;
}

-- The first jurisdiction that the guardrail does not allow
unfoldable pub blocked : PolicyGuardrail → String → List String → Option String
unfolding guardrail_allows
blocked g concept [] = none
blocked g concept (j ∷ js) =
    let rest = blocked g concept js in if guardrail_allows g concept (some j) then rest else some j

module _ (fold : String → String) where
  -- The identifier of the new node and the identifiers that are issued then. `generate` gets fuel for one
  -- more round than there are identifiers.
  unfoldable pub mint : Candidate → OverlayRegistry → Outcome (String × List String)
  unfolding slugify generate reserve
  mint c r =
      let chosen = get_or c.explicit_overlay_id "" in
      let slug = slugify fold (label_hint c c.preferred_labels) in
      if truthy chosen
      then (elim (reserve chosen r.issued) [
        | raise e ↦ raise e
        | done issued ↦ done (chosen, issued)
      ])
      else elim (generate (suc (length r.issued)) r.namespace slug 0 r.issued) [
        | none ↦ raise (identifier_collision slug)
        | some overlay_id ↦ done (overlay_id, overlay_id ∷ r.issued)
      ]

  unfoldable pub store_node : String → Candidate → ℕ → OverlayRegistry → OverlayRegistry
  unfolding new_node append_lifecycle
  store_node overlay_id c now r =
      append_lifecycle overlay_id
        (record {
          overlay_id = overlay_id;
          from_state = candidate;
          to_state = candidate;
          reviewer_id = none;
          rationale = some "candidate_registered";
          timestamp = now;
        })
        (record r { nodes = Dict.put r.nodes overlay_id (new_node overlay_id c) })

  -- The checks behind the identifier, on the registry that has issued it
  unfoldable pub admit :
      String → Candidate → ℕ → OverlayRegistry → Outcome OverlayNode × OverlayRegistry
  unfolding blocked store_node
  admit overlay_id c now r =
      if Dict.has r.nodes overlay_id
      then (raise (identifier_collision overlay_id), r)
      else elim (blocked r.policy_guardrail c.base_concept_id c.jurisdiction_tags) [
        | some j ↦ (raise (policy_violation j c.base_concept_id), r)
        | none ↦ (done (new_node overlay_id c), store_node overlay_id c now r)
      ]

  -- OverlayRegistry.register_candidate. An identifier stays issued where a later check raises.
  unfoldable pub register_candidate :
      Candidate → ℕ → OverlayRegistry → Outcome OverlayNode × OverlayRegistry
  unfolding mint admit
  register_candidate c now r = elim (mint c r) [
    | raise e ↦ (raise e, r)
    | done minted ↦ admit minted.0 c now (record r { issued = minted.1 })
  ]
