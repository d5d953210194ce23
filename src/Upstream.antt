-- ===== src/Upstream.antt =====
-- The responses of adapters/base.py, with the reading and the writing of JSON as arguments: that is
-- the `json` module of Python. Bytes are numbers.
use ai_proxy.Common.{ℕ, String, Option, none, some, List, [], ◌∷◌}
use ai_proxy.Dict.{Dict}
use ai_proxy.Json.{Json, null, str, object, JsonObject}

abbrev pub Bytes : Type 0
Bytes = List ℕ

-- What `json.loads` makes of something: a value; a JSONDecodeError, or a UnicodeDecodeError of bytes; or
-- another exception, as for an integer with more digits than Python reads.
pub data Loaded : Type 0 where
  loaded : Json → Loaded
  no_json : Loaded
  not_loaded : Loaded

-- `json.loads` of bytes and of a text;
-- `body.decode("utf-8", errors="replace")`; `text.encode("utf-8")`; `json.dumps`;
-- `serialize_json_value`.
pub record Codec : Type 0 where
  pub loads : Bytes → Loaded
  pub loads_text : String → Loaded
  pub decode : Bytes → String
  pub encode : String → Bytes
  pub dumps_text : Json → String
  pub serialize : Json → String

-- `json.dumps(v).encode("utf-8")`
abbrev pub dumps : Codec → Json → Bytes
dumps codec v = codec.encode (codec.dumps_text v)

pub record ProviderResponse : Type 0 where
  pub status_code : ℕ
  pub headers : Dict String
  pub body : Bytes
  pub content_type : Option String
  pub sent_request_headers : Option (Dict String)
  pub sent_request_body : Option JsonObject
  pub sent_request_body_raw : Option String

-- A response to a request that streams, without the iterator over the chunks of a good one.
pub record ProviderStreamResponse : Type 0 where
  pub status_code : ℕ
  pub headers : Dict String
  pub content_type : Option String
  pub error_body : Option Bytes
  pub sent_request_headers : Option (Dict String)
  pub sent_request_body : Option JsonObject
  pub sent_request_body_raw : Option String

-- An `httpx.RequestError`: its text, and whether it is a `TimeoutException`.
pub data TransportError : Type 0 where
  timeout : String → TransportError
  request_error : String → TransportError

-- How the call of an adapter ends; an exception of another kind is not caught.
pub data Outcome (A : Type 0) : Type 0 where
  responded : A → Outcome A
  failed : TransportError → Outcome A
  raised : Outcome A

abbrev or_raw_text : Codec → Bytes → Loaded → Option Json
or_raw_text codec body (loaded v) = some v
or_raw_text codec body no_json = some (object (("raw_text", str (codec.decode body)) ∷ []))
or_raw_text codec body not_loaded = none

-- The body as a value, or `none` where the code raises.
unfoldable pub parse_body : Codec → Bytes → Option Json
parse_body codec [] = some null
parse_body codec (b ∷ bs) = or_raw_text codec (b ∷ bs) (codec.loads (b ∷ bs))

unfoldable pub parsed_error_body : Codec → ProviderStreamResponse → Option Json
unfolding parse_body
parsed_error_body codec response = elim response.error_body [
  | none ↦ some null
  | some body ↦ parse_body codec body
]
