-- ===== src/Config.antt =====
-- The configuration, config/settings.py: the classes whose values the request path reads. Defaults
-- and the parsing of fields are pydantic's.
use ai_proxy.Common.{String, Bool, Option, List}
use ai_proxy.Dict.{Dict}
use ai_proxy.Json.{ℤ}

pub record RateLimitConfig : Type 0 where
  pub rpm : Option ℤ
  pub max_queue : ℤ

pub record ProviderConfig : Type 0 where
  pub type : String
  pub endpoint : String
  pub api_key_env : Option String
  pub headers : Dict String
  pub timeout : ℤ
  pub fallback_for : Option String
  pub rate_limit : RateLimitConfig

pub record LoggingConfig : Type 0 where
  pub log_retention_days : ℤ
  pub batch_size : ℤ
  pub flush_interval_seconds : ℤ

pub record GroupingConfig : Type 0 where
  pub default_field : String

pub record ResponseConfig : Type 0 where
  pub include_ai_proxy_route : Bool

pub record AccessRule : Type 0 where
  pub allow : List String
  pub block : List String

pub record ModificationRule : Type 0 where
  pub match_provider : String
  pub match_model : String
  pub action : String
  pub key : String
  pub value : Option String

pub record BypassConfig : Type 0 where
  pub enabled : Bool

pub record KeyMappingEntry : Type 0 where
  pub provider_keys : Dict String

pub record AppConfig : Type 0 where
  pub providers : Dict ProviderConfig
  pub model_mappings : Dict String
  pub response : ResponseConfig
  pub access_rules : Dict AccessRule
  pub modification_rules : List ModificationRule
  pub bypass : BypassConfig
  pub key_mappings : Dict KeyMappingEntry
  pub api_keys : List String
  pub ui_api_key : String
  pub logging : LoggingConfig
  pub grouping : GroupingConfig
