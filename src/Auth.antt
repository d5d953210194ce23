-- ===== src/Auth.antt =====
-- security/auth.py. The hash of a key, SHA-256 in hexadecimal, is an argument, of which nothing is
-- assumed. The configuration is `none` until it is loaded.
pub mod Laws
use Prim.Native.String
use ai_proxy.Common.{
  String, Bool, true, false, not, Option, none, some, List, [], ◌∷◌, ◌==◌, if◌then◌else◌, is_empty,
  any,
}
use ai_proxy.Text.{split, strip_all}
use ai_proxy.Config.{AppConfig}

-- The two fields of `Settings`, read from the environment, that authentication falls back to.
pub record Settings : Type 0 where
  pub api_keys : String
  pub ui_api_key : String

-- `Settings.get_api_keys`
unfoldable pub get_api_keys : Settings → List String
unfolding split strip_all
get_api_keys settings =
    if settings.api_keys == "" then [] else strip_all (split "," settings.api_keys)

unfoldable pub get_configured_api_keys : Option AppConfig → Settings → List String
get_configured_api_keys none settings = get_api_keys settings
get_configured_api_keys (some config) settings =
    if is_empty config.api_keys then get_api_keys settings else config.api_keys

unfoldable pub get_ui_api_key : Option AppConfig → Settings → String
get_ui_api_key none settings = settings.ui_api_key
get_ui_api_key (some config) settings =
    if config.ui_api_key == "" then settings.ui_api_key else config.ui_api_key

-- `is_valid`, `key_hash`, `is_known_key`
abbrev pub Validation : Type 0
Validation = Bool × String × Bool

module _ (hash_api_key : String → String) where
  -- The loop over the configured keys: has one of them the hash?
  abbrev pub is_configured : List String → String → Bool
  is_configured configured_keys key_hash = any (λ k. hash_api_key k == key_hash) configured_keys

  unfoldable pub validate_proxy_api_key : List String → Option String → Bool → Validation
  validate_proxy_api_key configured_keys none bypass_enabled =
      if bypass_enabled
      then (false, "", false)
      else if is_empty configured_keys
      then (true, hash_api_key "anonymous", false)
      else (false, "", false)
  validate_proxy_api_key configured_keys (some api_key) bypass_enabled =
      let key_hash = hash_api_key api_key in
      if is_configured configured_keys key_hash
      then (true, key_hash, true)
      else if bypass_enabled
      then (true, key_hash, false)
      else if is_empty configured_keys
      then (true, key_hash, false)
      else (false, "", false)

-- `api_key == ui_key`, where the key may be missing
abbrev equals : Option String → String → Bool
equals none t = false
equals (some s) t = s == t

unfoldable pub validate_ui_api_key : Option AppConfig → Settings → Option String → Bool
unfolding get_ui_api_key get_api_keys
validate_ui_api_key config settings api_key =
    let ui_key = get_ui_api_key config settings in
    if ui_key == "" then true else equals api_key ui_key
