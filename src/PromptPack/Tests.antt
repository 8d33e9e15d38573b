-- ===== src/PromptPack/Tests.antt =====
-- Prompt references on concrete manifests.
use domain_determine.Base.{
  String, ◌≡◌, refl, true, false, some, [], nat_eq, string_eq, ◌<>◌, strip, split,
}
use domain_determine.Base.Dict
use domain_determine.Base.Dict.{
  Dict, get-put, get-put_self, get-put_ne, get-remove, size-put, size-put_new, size-put_old,
  put_new, values-append,
}
use domain_determine.PromptPack.Registry.{
  registry_key, PromptManifest, ok, err, value_error, register, latest_version,
  format_prompt_reference, parse_prompt_reference,
}
use domain_determine.Governance.Versioning.{split_version}
use domain_determine.Base.Int.{parse_int}
use domain_determine.PromptPack.Registry.References.{
  lacks, IsReferable, parse-format, colon_after_hash,
}

abbrev manifest : PromptManifest
manifest = record {
  template_id = "summary";
  version = "1.2.0";
  schema_id = "s";
  policy_id = "p";
  hash = "3f:5a";
}

abbrev newer : PromptManifest
newer = record manifest { version = "1.10.0" }

manifest-IsReferable : IsReferable manifest
unfolding strip lacks
manifest-IsReferable = record {
  template_segment = record { filled = refl; trimmed = refl };
  version_segment = record { filled = refl; trimmed = refl };
  hash_segment = record { filled = refl; trimmed = refl };
  no_colon = refl;
  no_hash_in_template = refl;
  no_hash_in_version = refl;
}

-- Versions are compared as numbers.
newest : latest_version "summary" (register manifest (register newer [])) ≡ ok (some "1.10.0")
unfolding latest_version register Dict.put Dict.values registry_key split_version split parse_int
newest = refl

parse-format_example :
    parse_prompt_reference (format_prompt_reference manifest) ≡ ok ("summary", "1.2.0", "3f:5a")
parse-format_example = parse-format manifest manifest-IsReferable

summary_lacks_hash : lacks b'#' "summary" ≡ true
unfolding lacks
summary_lacks_hash = refl

summary_lacks_colon : lacks b':' "summary" ≡ true
unfolding lacks
summary_lacks_colon = refl

hash_has_colon : lacks b':' "3f:5a" ≡ false
unfolding lacks
hash_has_colon = refl

colon_after_hash_example :
    parse_prompt_reference ("summary" <> String.◌∷◌ "#" "3f:5a") ≡ err value_error
colon_after_hash_example =
    colon_after_hash "summary" "3f:5a" summary_lacks_hash summary_lacks_colon hash_has_colon
