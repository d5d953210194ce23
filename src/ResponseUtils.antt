-- ===== src/ResponseUtils.antt =====
-- api/proxy/response_utils.py: what a provider's response is turned into for the client and the log.
-- Python's `None` is the JSON `null`. The arithmetic of floats is an argument.
pub mod Laws
use ai_proxy.Common.{
  ℕ, ◌%◌, ◌^◌, String, append, Bool, true, false, not, ◌||◌, Option, none, some, List, [], ◌∷◌,
  ◌==◌, nat_eq, contains, ◌>>=◌, if◌then◌else◌, or_else, is_given,
}
use ai_proxy.Dict
use ai_proxy.Dict.{Dict}
use ai_proxy.Text.{lower, strip, join}
use ai_proxy.Json.{
  ℤ, Json, null, bool, int, float, str, arr, obj, object, as_object, JsonObject, get_object,
  get_str,
}
use ai_proxy.Routing.{RouteResult}

abbrev pub hop_by_hop_headers : List String
hop_by_hop_headers =
    "connection" ∷ "content-encoding" ∷ "content-length" ∷ "keep-alive" ∷ "proxy-authenticate"
    ∷ "proxy-authorization" ∷ "te" ∷ "trailer" ∷ "transfer-encoding" ∷ "upgrade" ∷ []

unfoldable pub proxy_response_headers : Dict String → Bool → Dict String
proxy_response_headers headers json_body =
    let out = Dict.filter_keys (λ key. not (contains (lower key) hop_by_hop_headers)) headers in
    if json_body then Dict.set out "content-type" "application/json" else out

abbrev usage_of : Json → Option JsonObject
usage_of response_body = as_object response_body >>= λ d. get_object d "usage"

-- The counts of tokens, as the provider gave them.
unfoldable pub extract_usage : Json → Option Json × Option Json × Option Json
extract_usage response_body = elim (usage_of response_body) [
  | none ↦ (none, none, none)
  | some usage ↦ (
    Dict.get usage "prompt_tokens",
    Dict.get usage "completion_tokens",
    Dict.get usage "total_tokens",
  )
]

-- Floats as bit patterns: `float(n)` of an integer, or `none` where it raises an OverflowError; `float(s)`
-- of a text, or `none` where it raises a ValueError; and the sum.
pub record FloatOps : Type 0 where
  pub from_int : ℤ → Option ℕ
  pub parse : String → Option ℕ
  pub add : ℕ → ℕ → ℕ

-- `x == 0.0`, for both zeros
abbrev pub is_zero : ℕ → Bool
is_zero bits = nat_eq (bits % 2 ^ 63) 0

-- The cost that a value is, if it is one; or `none` where the code raises.
unfoldable pub parse_cost_value : FloatOps → Option Json → Option (Option ℕ)
parse_cost_value ops (some (int n)) = ops.from_int n >>= λ bits. some (some bits)
parse_cost_value ops (some (float bits)) = some (some bits)
parse_cost_value ops (some (str s)) = some (if strip s == "" then none else ops.parse (strip s))
parse_cost_value ops _ = some none

unfoldable pub parse_boolean_value : Option Json → Option Bool
parse_boolean_value (some (bool b)) = some b
parse_boolean_value (some (str s)) =
    if lower (strip s) == "true"
    then some true
    else if lower (strip s) == "false"
    then some false
    else none
parse_boolean_value _ = none

abbrev or_later : {A : Type 0} → Option (Option A) → Option A → Option (Option A)
or_later later none = later
or_later later (some a) = some (some a)

-- The first value that `parse` takes, by the order of the keys in one container; or `none` where it
-- raises before.
unfoldable pub first_in :
    {A : Type 0} → (Option Json → Option (Option A)) → JsonObject → List String → Option (Option A)
first_in parse container [] = some none
first_in parse container (key ∷ keys) =
    let later = first_in parse container keys in parse (Dict.get container key) >>= or_later later

-- `_first_numeric_value` and `_first_boolean_value`
unfoldable pub first_value :
    {A : Type 0}
    → (Option Json → Option (Option A))
    → List (Option JsonObject)
    → List String
    → Option (Option A)
unfolding first_in
first_value parse [] keys = some none
first_value parse (none ∷ containers) keys = first_value parse containers keys
first_value parse (some container ∷ containers) keys =
    let later = first_value parse containers keys in
    first_in parse container keys >>= or_later later

-- `cost or 0.0`
abbrev pub or_zero : Option ℕ → ℕ
or_zero none = 0
or_zero (some bits) = if is_zero bits then 0 else bits

abbrev prefer_base : Option ℕ → Option ℕ → Option ℕ
prefer_base none inference_cost = inference_cost
prefer_base (some base) inference_cost =
    if is_zero base then or_else inference_cost (some base) else some base

-- What `extract_cost` makes of the costs that it found: with a key of the user's own, the sum.
unfoldable pub combine_costs : FloatOps → Option ℕ → Option ℕ → Option Bool → Option ℕ
combine_costs ops none none is_byok = none
combine_costs ops base inference (some true) = some (ops.add (or_zero base) (or_zero inference))
combine_costs ops base inference _ = prefer_base base inference

abbrev cost_containers : JsonObject → List (Option JsonObject)
cost_containers body =
    let usage = get_object body "usage" in
    usage
    ∷ (usage >>= λ u. get_object u "cost_details")
    ∷ some body
    ∷ get_object body "cost_details"
    ∷ []

abbrev cost_in : FloatOps → JsonObject → Option (Option ℕ)
cost_in ops body = do
  base ← first_value (parse_cost_value ops) (cost_containers body) ("cost" ∷ "router_cost" ∷ [])
  inference ←
      first_value (parse_cost_value ops) (cost_containers body)
        ("upstream_inference_cost" ∷ "inference_cost" ∷ "market_cost" ∷ [])
  is_byok ← first_value (λ v. some (parse_boolean_value v)) (cost_containers body) ("is_byok" ∷ [])
  some (combine_costs ops base inference is_byok)

-- The cost of a response, if it has one; or `none` where the code raises.
unfoldable pub extract_cost : FloatOps → Json → Option (Option ℕ)
unfolding first_value combine_costs parse_cost_value parse_boolean_value
extract_cost ops response_body = elim (as_object response_body) [
  | none ↦ some none
  | some body ↦ cost_in ops body
]

abbrev pub message_in : JsonObject → Option String
message_in body =
    or_else (get_object body "error" >>= λ error. get_str error "message")
      (or_else (get_str body "message") (get_str body "raw_text"))

unfoldable pub extract_error_message : Json → Option String → Option String
extract_error_message response_body fallback =
    or_else (as_object response_body >>= message_in) fallback

abbrev pub with_message : Option JsonObject → String → JsonObject
with_message none message = ("message", str message) ∷ []
with_message (some error) message = Dict.set_default error "message" (str message)

abbrev pub normalize_by : JsonObject → Option String → Json → Json
normalize_by body none response_body = response_body
normalize_by body (some message) response_body =
    if message == ""
    then response_body
    else object (Dict.set body "error" (object (with_message (get_object body "error") message)))

abbrev pub normalize_object : JsonObject → Json → Json
normalize_object body response_body =
    if Dict.contains body "raw_text"
    then response_body
    else normalize_by body (message_in body) response_body

unfoldable pub normalize_error_response_body : Json → Json
normalize_error_response_body response_body = elim (as_object response_body) [
  | none ↦ response_body
  | some body ↦ normalize_object body response_body
]

abbrev pins_of : Option (List String) → List String
pins_of none = []
pins_of (some pins) = pins

unfoldable pub client_route_identifier : RouteResult → String
client_route_identifier route =
    if not (route.route_label == "")
    then route.route_label
    else let route_value = append route.provider_name (append ":" route.mapped_model) in
      if is_given route.pinned_providers
      then append route_value (append "+" (join "," (pins_of route.pinned_providers)))
      else route_value

-- `include` is `config.response.include_ai_proxy_route`.
unfoldable pub inject_ai_proxy_route : Bool → RouteResult → Json → Json
inject_ai_proxy_route include route response_body = elim (as_object response_body) [
  | none ↦ response_body
  | some body ↦
      if not include || Dict.contains body "raw_text"
      then response_body
      else object (Dict.set body "ai_proxy_route" (str (client_route_identifier route)))
]
