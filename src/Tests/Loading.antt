-- ===== src/Tests/Loading.antt =====
-- The theorems on the loading of the configuration at two files: one that maps a model to a provider
-- that it has, one that maps it to another.
use ai_proxy.Common.{
  inl, inr, ◌≡◌, refl, String, Option, none, some, [], ◌∷◌, ◌==◌, if◌then◌else◌, All,
}
use ai_proxy.Dict
use ai_proxy.Dict.{Dict}
use ai_proxy.Json.{Json, str, object, truthy}
use ai_proxy.Config.{AppConfig}
use ai_proxy.Mappings.{parse_mapping, strip_client_provider_suffix}
use ai_proxy.Text.{strip, lower}
use ai_proxy.Loader.{
  invalid, parsed, Libraries, read_config, load_config, load_yaml, load_secrets, load_providers,
  load_key_mappings_from, load_model_mappings, load_model_mappings_from, load_providers_from,
  expect_mapping, build_app_config, load_api_keys, looks_like_hash, all_hex, hashed_key,
}
use ai_proxy.Loader.Registry.{Active, build_registry, config_file_changed}
use ai_proxy.Loader.Known.{AreKnown, load_config_iff, config_file_changed-unknown}
use ai_proxy.Loader.Routed.{HasAdapter, load_config-HasAdapter}
use ai_proxy.Loader.Conflicts.{detect_provider_routing_conflicts}
use ai_proxy.Loader.Consistent.{detect_provider_routing_conflicts-GoesTo}
use ai_proxy.Tests.{router, config, registry}

abbrev file_to : String → Json
file_to target = object (
    ("providers", object (("router", object []) ∷ []))
    ∷ ("model_mappings", object (("fast", str target) ∷ []))
    ∷ ("key_mappings", object (("client-key", object []) ∷ []))
    ∷ [])

abbrev hash : String
hash = "0123456789abcdef0123456789abcdef0123456789abcdef0123456789abcdef"

abbrev lib : Libraries
lib = record {
  read = λ path.
      if path == "good"
      then parsed (file_to "router:acme/fast")
      else if path == "bad"
      then parsed (file_to "lost:acme/fast")
      else invalid;
  hash_key = λ s. hash;
  to_text = λ v. "";
  provider = λ d. some router;
  key_mapping = λ d. some (record { provider_keys = [] });
  response = λ v. some config.response;
  access_rules = λ v. some config.access_rules;
  modification_rules = λ v. some config.modification_rules;
  bypass = λ v. some config.bypass;
  logging = λ v. some config.logging;
  grouping = λ v. some config.grouping;
}

abbrev loaded_to : String → AppConfig
loaded_to target = record config {
  providers = ("router", router) ∷ [];
  model_mappings = ("fast", target) ∷ [];
  key_mappings = (hash, record { provider_keys = [] }) ∷ [];
  api_keys = [];
  ui_api_key = "";
}

abbrev active : Active
active = record { app_config = some config; registry = registry; limiters = [] }

reads : read_config lib "good" none ≡ some (loaded_to "router:acme/fast")
unfolding read_config load_yaml load_secrets load_providers load_providers_from
    load_key_mappings_from load_model_mappings load_model_mappings_from expect_mapping
    build_app_config load_api_keys hashed_key looks_like_hash all_hex Dict.get Dict.set truthy
reads = refl

reads_bad : read_config lib "bad" none ≡ some (loaded_to "lost:acme/fast")
unfolding read_config load_yaml load_secrets load_providers load_providers_from
    load_key_mappings_from load_model_mappings load_model_mappings_from expect_mapping
    build_app_config load_api_keys hashed_key looks_like_hash all_hex Dict.get Dict.set truthy
reads_bad = refl

known : AreKnown (loaded_to "router:acme/fast")
unfolding parse_mapping
known = (refl, tt)

unknown : ¬ AreKnown (loaded_to "lost:acme/fast")
unfolding parse_mapping
unknown (h, r) = cc

environ : String → Option String
environ name = some "k"

config_file_changed-unknown_example :
    config_file_changed lib environ active "bad" none
    ≡ record active { app_config = some (loaded_to "lost:acme/fast") }
config_file_changed-unknown_example =
    config_file_changed-unknown lib environ active "bad" none (loaded_to "lost:acme/fast") reads_bad
      unknown

loads : (load_config lib none "good" none).result ≡ some (loaded_to "router:acme/fast")
loads = (load_config_iff lib none "good" none (loaded_to "router:acme/fast")).1 (reads, known)

load_config-HasAdapter_example :
    All
      (λ (m : String × String).
        HasAdapter (build_registry environ (loaded_to "router:acme/fast")) (parse_mapping m.1).0)
      (loaded_to "router:acme/fast").model_mappings
load_config-HasAdapter_example =
    load_config-HasAdapter environ lib none "good" none (loaded_to "router:acme/fast") loads
      (refl, tt)

-- Two client names that differ in case alone.
abbrev cased : Dict String
cased = ("big+Acme", "router:acme/big") ∷ ("Big+acme", "router:acme/other") ∷ []

detect_provider_routing_conflicts-GoesTo_example : ◌≡◌ {A = String} "router" "router"
unfolding detect_provider_routing_conflicts strip_client_provider_suffix strip parse_mapping lower
    Dict.set Dict.get
detect_provider_routing_conflicts-GoesTo_example =
    detect_provider_routing_conflicts-GoesTo cased "big" "acme" "router" "router" refl
      (record {
        client_key = "big+Acme";
        mapping = "router:acme/big";
        mapped = inl (refl, refl);
        client_model = "big";
        provider = "Acme";
        others = [];
        qualified = refl;
        for_model = refl;
        for_provider = refl;
        through = refl;
      })
      (record {
        client_key = "Big+acme";
        mapping = "router:acme/other";
        mapped = inr (inl (refl, refl));
        client_model = "Big";
        provider = "acme";
        others = [];
        qualified = refl;
        for_model = refl;
        for_provider = refl;
        through = refl;
      })
