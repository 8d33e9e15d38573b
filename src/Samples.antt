-- ===== src/Samples.antt =====
-- A concrete codec for the tests: a line is the value that it encodes, times are decimal numerals,
-- and every digest is one text.
use domain_determine.Base.{
  ℕ, ◌≡◌, refl, ap, String, [], ◌∷◌, Bool, true, false, Option, none, some, nat_eq, string_eq, show,
  value, value-show,
}
use domain_determine.Base.Json.{Json, sort_json}
use domain_determine.Governance.EventLog.{Codec, GovernanceEventLog}
use domain_determine.Governance.Sink.{EventSink, file_sink}
use domain_determine.Governance.Versioning.{Hashing}
use domain_determine.Governance.Registry.{GovernanceRegistry}

pub iso_round_trip_of_show : (t : ℕ) → some (value 0 (show t)) ≡ some t
iso_round_trip_of_show t = ap some (value-show t)

abbrev pub blank : Option Json → Bool
blank none = true
blank (some j) = false

abbrev pub sample_codec : Codec
sample_codec = record {
  Line = Option Json;
  dumps = λ j. some (sort_json j);
  loads = λ l. l;
  is_blank = blank;
  digest = λ secret l. "3f5a";
  isoformat = show;
  fromisoformat = λ s. some (value 0 s);
  loads-dumps = λ j. refl;
  dumps-not_blank = λ j. refl;
  iso_round_trip = iso_round_trip_of_show;
  digest_not_empty = λ secret l. refl;
}

abbrev pub sample_sink : EventSink
sample_sink = file_sink sample_codec

abbrev pub empty_log : GovernanceEventLog sample_codec
empty_log = record { secret = "k"; file = none }

-- A hash that is one text, to run the registry with.
abbrev pub sample_hashing : Hashing
sample_hashing = record {
  Text = String;
  canonical = λ j. "json";
  encode = λ s. s;
  sha256 = λ ts. "3f5a";
  isoformat = show;
}

abbrev pub Governed : Type 0
Governed = GovernanceRegistry sample_codec sample_hashing

abbrev pub empty_governance : Governed
empty_governance = record {
  artifact_prefixes = ("dataset", "DS") ∷ [];
  signature_manager = none;
  event_log = some empty_log;
  telemetry = some [];
  prompt_registry = none;
  artifacts = [];
  sequences = [];
  parents = [];
  children = [];
}
