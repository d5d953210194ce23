-- ===== src/Adapter.antt =====
-- adapters/base.py: what an adapter holds.
use Prim.Native.Char.{Char}
use ai_proxy.Common.{String, Option, ◌==◌, ◌&&◌, if◌then◌else◌}
use ai_proxy.Dict.{Dict}
use ai_proxy.Json.{ℤ}
use ai_proxy.Text.{char_eq}

pub record BaseAdapter : Type 0 where
  pub provider_name : String
  pub endpoint_url : String
  pub api_key : Option String
  pub extra_headers : Dict String
  pub timeout : ℤ

-- A slash is dropped where nothing follows it.
abbrev drop_slash : Char → String → String
drop_slash c rest = if char_eq c "/" && rest == "" then "" else String.◌∷◌ c rest

-- `s.rstrip("/")`
strip_slashes : String → String
strip_slashes String.[] = ""
strip_slashes (String.◌∷◌ c s) = drop_slash c (strip_slashes s)

unfoldable pub make_adapter : String → String → Option String → Dict String → ℤ → BaseAdapter
unfolding strip_slashes
make_adapter provider_name endpoint_url api_key headers timeout = record {
  provider_name = provider_name;
  endpoint_url = strip_slashes endpoint_url;
  api_key = api_key;
  extra_headers = headers;
  timeout = timeout;
}
