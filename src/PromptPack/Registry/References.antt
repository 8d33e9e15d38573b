-- ===== src/PromptPack/Registry/References.antt =====
-- Prompt references are read back as they were written.
use Prim.Native.Char.{Char, code}
use text.Mathlib.TextLemmas.{append_assoc, cons-append, nil-append}
use domain_determine.Base.{
  ℕ, String, ◌≡◌, refl, Bool, true, false, not, ◌&&◌, none, some, arith, nat_eq, string_eq, nat_beq,
  is_some, ◌<>◌, truthy, strip, split_once,
}
use domain_determine.PromptPack.Registry.{
  PromptManifest, ok, err, value_error, registry_key, format_prompt_reference,
  parse_prompt_reference, with_hash,
}

-- The text has no character of the code `sep`.
unfoldable pub lacks : ℕ → String → Bool
lacks sep String.[] = true
lacks sep (String.◌∷◌ c s) = not (nat_beq (code c) sep) && lacks sep s

split_once-first :
    (sep : ℕ) (c : Char) (s t : String)
    → code c ≡ sep
    → lacks sep s ≡ true
    → split_once sep (s <> String.◌∷◌ c t) ≡ some (s, t)
unfolding split_once lacks
split_once-first sep c String.[] t e h = rw nil-append (ground arith)
split_once-first sep c (String.◌∷◌ d s) t e h =
    rw cons-append (ground (arith, split_once-first sep c s t e))

lacks-append : (sep : ℕ) (s t : String) → lacks sep (s <> t) ≡ (lacks sep s && lacks sep t)
unfolding lacks
lacks-append sep String.[] t = rw nil-append
lacks-append sep (String.◌∷◌ c s) t = rw cons-append (ground (arith, lacks-append sep s t))

is_some-split_once : (sep : ℕ) (s : String) → is_some (split_once sep s) ≡ not (lacks sep s)
unfolding split_once lacks
is_some-split_once sep String.[] = refl
is_some-split_once sep (String.◌∷◌ c s) = ground (arith, is_some-split_once sep s)

split_once-none : (sep : ℕ) (s : String) → lacks sep s ≡ true → split_once sep s ≡ none
unfolding split_once lacks
split_once-none sep String.[] h = refl
split_once-none sep (String.◌∷◌ c s) h = ground (arith, split_once-none sep s)

-- A part of a reference: it is not empty, and has no white space at its ends.
pub record IsSegment (s : String) : Type 0 where
  pub filled : truthy s ≡ true
  pub trimmed : strip s ≡ s

pub record IsReferable (m : PromptManifest) : Type 0 where
  pub template_segment : IsSegment m.template_id
  pub version_segment : IsSegment m.version
  pub hash_segment : IsSegment m.hash
  pub no_colon : lacks b':' m.template_id ≡ true
  pub no_hash_in_template : lacks b'#' m.template_id ≡ true
  pub no_hash_in_version : lacks b'#' m.version ≡ true

module _ (m : PromptManifest) (r : IsReferable m) where
  identity_lacks_hash : lacks b'#' (registry_key m.template_id m.version) ≡ true
  unfolding registry_key lacks
  identity_lacks_hash = rw lacks-append (rw (r.no_hash_in_template, r.no_hash_in_version))

  colon_found :
      split_once b':' (format_prompt_reference m)
      ≡ some (m.template_id, m.version <> String.◌∷◌ "#" m.hash)
  unfolding format_prompt_reference registry_key
  colon_found =
      rw (append_assoc, cons-append) (split_once-first b':' ":" m.template_id _ refl r.no_colon)

  hash_found :
      split_once b'#' (format_prompt_reference m)
      ≡ some (registry_key m.template_id m.version, m.hash)
  unfolding format_prompt_reference
  hash_found = split_once-first b'#' "#" _ m.hash refl identity_lacks_hash

  identity_found :
      split_once b':' (registry_key m.template_id m.version) ≡ some (m.template_id, m.version)
  unfolding registry_key
  identity_found = split_once-first b':' ":" m.template_id m.version refl r.no_colon

  -- A reference that was formatted from a manifest is parsed to the manifest's template, version and
  -- hash, if these are trimmed texts that are not empty, the template has neither separator in it, and
  -- the version has no `#`.
  pub parse-format :
      parse_prompt_reference (format_prompt_reference m) ≡ ok (m.template_id, m.version, m.hash)
  unfolding parse_prompt_reference
  parse-format = rw (
    colon_found, hash_found, with_hash, identity_found, r.template_segment.trimmed,
    r.version_segment.trimmed, r.hash_segment.trimmed, r.template_segment.filled,
    r.version_segment.filled, r.hash_segment.filled,
  )

-- A reference whose only `:` stands behind its first `#` is refused by a ValueError, which is not the
-- PromptRegistryError of the other malformed references.
pub colon_after_hash :
    (identity hash_value : String)
    → lacks b'#' identity ≡ true
    → lacks b':' identity ≡ true
    → lacks b':' hash_value ≡ false
    → parse_prompt_reference (identity <> String.◌∷◌ "#" hash_value) ≡ err value_error
unfolding parse_prompt_reference
colon_after_hash identity hash_value h c d =
    let colon : is_some (split_once b':' (identity <> String.◌∷◌ "#" hash_value)) ≡ true =
      rw (is_some-split_once, lacks-append, c) (unfold lacks in rw d) in
    rw
      (colon, split_once-first b'#' "#" identity hash_value refl h, split_once-none b':' identity c)
