-- ===== src/Tests.antt =====
-- A configuration and requests on which the theorems are tried.
pub mod Routing
pub mod Requests
pub mod Queue
pub mod Rows
pub mod Models
pub mod Guards
pub mod Limits
pub mod Responses
pub mod Streams
pub mod Conversations
pub mod Loading
pub mod Views
use ai_proxy.Common.{String, append, true, false, none, some, List, [], ◌∷◌}
use ai_proxy.Dict.{Dict}
use ai_proxy.Json.{pos, Json, str, object, JsonObject}
use ai_proxy.Config.{
  AppConfig, ProviderConfig, RateLimitConfig, LoggingConfig, GroupingConfig, ResponseConfig,
  AccessRule, ModificationRule, BypassConfig, KeyMappingEntry,
}
use ai_proxy.Adapter.{BaseAdapter}
use ai_proxy.Auth.{Settings}
use ai_proxy.Flow.{Env}
use ai_proxy.RateLimiter.{Limiter}

abbrev pub limits : RateLimitConfig
limits = record { rpm = some (pos 2); max_queue = pos 1 }

abbrev pub router : ProviderConfig
router = record {
  type = "openai_compatible";
  endpoint = "https://router.example/v1";
  api_key_env = none;
  headers = [];
  timeout = pos 120;
  fallback_for = none;
  rate_limit = limits;
}

abbrev pub router_adapter : BaseAdapter
router_adapter = record {
  provider_name = "router";
  endpoint_url = "https://router.example/v1";
  api_key = some "router-key";
  extra_headers = [];
  timeout = pos 120;
}

abbrev pub registry : Dict BaseAdapter
registry = ("router", router_adapter) ∷ []

abbrev pub mappings : Dict String
mappings = ("fast", "router:acme/fast") ∷ ("big+Acme", "router:acme/big+acme") ∷ []

abbrev pub no_tools : ModificationRule
no_tools = record {
  match_provider = "router";
  match_model = "acme/fast";
  action = "remove_field";
  key = "tools";
  value = none;
}

abbrev pub fast_only : AccessRule
fast_only = record { allow = "fast" ∷ []; block = "big" ∷ [] }

abbrev pub config : AppConfig
config = record {
  providers = ("router", router) ∷ [];
  model_mappings = mappings;
  response = record { include_ai_proxy_route = true };
  access_rules = ("#client", fast_only) ∷ [];
  modification_rules = no_tools ∷ [];
  bypass = record { enabled = false };
  key_mappings = [];
  api_keys = "client" ∷ [];
  ui_api_key = "";
  logging = record {
    log_retention_days = pos 30;
    batch_size = pos 50;
    flush_interval_seconds = pos 5;
  };
  grouping = record { default_field = "system_prompt" };
}

-- A hash for the tests.
abbrev pub hash : String → String
hash k = append "#" k

abbrev pub env : Env
env = record {
  config = config;
  settings = record { api_keys = ""; ui_api_key = "" };
  registry = registry;
  provider_models = [];
  hash_api_key = hash;
}

abbrev pub ask_fast : JsonObject
ask_fast = ("model", str "fast") ∷ ("tools", str "none") ∷ []
