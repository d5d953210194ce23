-- ===== src/OpenaiCompat.antt =====
-- adapters/openai_compat.py: how a body and its headers are adapted to the provider before they are
-- sent. The code works on a deep copy, so nothing is shared with the caller's body.
pub mod Headers
pub mod Bodies
use ai_proxy.Common.{
  String, append, Bool, true, false, not, ◌&&◌, ◌||◌, Option, none, some, List, [], ◌∷◌, ◌==◌,
  if◌then◌else◌, ◌>>=◌, contains, any,
}
use ai_proxy.Dict
use ai_proxy.Dict.{Dict}
use ai_proxy.Text.{lower, has_prefix, has_infix, drop_prefix}
use ai_proxy.Json.{
  Json, bool, str, array, object, as_object, as_array, as_str, get_object, get_array, get_str,
  get_truthy, JsonObject,
}
use ai_proxy.Adapter.{BaseAdapter}

abbrev pub google_unsupported_params : List String
google_unsupported_params =
    "frequency_penalty" ∷ "logit_bias" ∷ "logprobs" ∷ "min_p" ∷ "presence_penalty"
    ∷ "repetition_penalty" ∷ "seed" ∷ "top_a" ∷ "top_k" ∷ "top_logprobs" ∷ []

abbrev pub fireworks_unsupported_params : List String
fireworks_unsupported_params = "top_a" ∷ []

abbrev pub fireworks_model_prefix : String
fireworks_model_prefix = "accounts/fireworks/models/"

abbrev pub stripped_request_headers : List String
stripped_request_headers =
    "accept-encoding" ∷ "authorization" ∷ "content-length" ∷ "content-type" ∷ "host" ∷ "connection"
    ∷ "content-encoding" ∷ "keep-alive" ∷ "proxy-authenticate" ∷ "proxy-authorization" ∷ "te"
    ∷ "trailer" ∷ "transfer-encoding" ∷ "upgrade" ∷ "sec-fetch-mode" ∷ "sec-fetch-site"
    ∷ "sec-fetch-dest" ∷ []

abbrev mentions_thought : Json → Bool
mentions_thought item = elim (as_str item) [
  | none ↦ false
  | some s ↦ has_infix "thought" (lower s) || has_infix "reasoning" (lower s)
]

unfoldable pub google_include_requests_thoughts : Option Json → Bool
unfolding has_infix lower
google_include_requests_thoughts include_value = elim (include_value >>= as_array) [
  | none ↦ false
  | some items ↦ any mentions_thought items
]

unfoldable pub google_supports_reasoning_effort : Option String → Bool
unfolding drop_prefix
google_supports_reasoning_effort none = false
google_supports_reasoning_effort (some model_name) = has_prefix "gemini-" model_name

unfoldable pub google_is_gemma_thinking_toggle_model : Option String → Bool
unfolding drop_prefix
google_is_gemma_thinking_toggle_model none = false
google_is_gemma_thinking_toggle_model (some model_name) = has_prefix "gemma-4-" model_name

abbrev non_empty_lower : Option String → Option String
non_empty_lower none = none
non_empty_lower (some s) = if s == "" then none else some (lower s)

abbrev or_lower : Option String → Option String → Option String
or_lower none other = non_empty_lower other
or_lower (some s) other = if s == "" then non_empty_lower other else some (lower s)

unfoldable pub extract_google_reasoning_effort : Option Json → Option Json → Option String
unfolding lower
extract_google_reasoning_effort reasoning_value reasoning_effort_value =
    or_lower (reasoning_value >>= as_object >>= λ reasoning. get_str reasoning "effort")
      (reasoning_effort_value >>= as_str)

unfoldable pub map_google_gemma_reasoning_effort : String → String
map_google_gemma_reasoning_effort reasoning_effort =
    if reasoning_effort == "none" then "minimal" else "high"

-- `request_body["extra_body"]["google"]["thinking_config"]`, where all three are objects
abbrev pub thinking_config : JsonObject → Option JsonObject
thinking_config request_body = do
  extra_body ← get_object request_body "extra_body"
  google_config ← get_object extra_body "google"
  get_object google_config "thinking_config"

abbrev has_level : Option JsonObject → Bool
has_level none = false
has_level (some config) =
    Dict.contains config "thinking_level" || Dict.contains config "thinking_budget"

unfoldable pub google_has_explicit_thinking_level : JsonObject → Bool
google_has_explicit_thinking_level request_body = has_level (thinking_config request_body)

abbrev pub or_empty_object : Option JsonObject → JsonObject
or_empty_object none = []
or_empty_object (some d) = d

-- `_ensure_google_thinking_config(request_body)[key] = value`: an object at each of the three levels,
-- in place of what is no object, and the write into the innermost.
unfoldable pub set_google_thinking : JsonObject → String → Json → JsonObject
set_google_thinking request_body key value =
    let extra_body = or_empty_object (get_object request_body "extra_body") in
    let google_config = or_empty_object (get_object extra_body "google") in
    let thinking = or_empty_object (get_object google_config "thinking_config") in
    Dict.set request_body "extra_body" (
      object (
        Dict.set extra_body "google" (
          object
            (Dict.set google_config "thinking_config" (object (Dict.set thinking key value))))))

unfoldable pub add_thoughts : Option Json → JsonObject → JsonObject
unfolding google_include_requests_thoughts set_google_thinking
add_thoughts include prepared =
    if google_include_requests_thoughts include
    then set_google_thinking prepared "include_thoughts" (bool true)
    else prepared

abbrev effort_set : JsonObject → String → JsonObject
effort_set prepared effort =
    if google_is_gemma_thinking_toggle_model (get_str prepared "model")
    then set_google_thinking prepared "thinking_level"
        (str (map_google_gemma_reasoning_effort effort))
    else if google_supports_reasoning_effort (get_str prepared "model")
    then Dict.set prepared "reasoning_effort" (str effort)
    else prepared

unfoldable pub add_effort : Option String → JsonObject → JsonObject
unfolding google_has_explicit_thinking_level google_is_gemma_thinking_toggle_model
    google_supports_reasoning_effort map_google_gemma_reasoning_effort set_google_thinking
add_effort none prepared = prepared
add_effort (some effort) prepared =
    if google_has_explicit_thinking_level prepared then prepared else effort_set prepared effort

unfoldable pub add_usage_option : JsonObject → JsonObject
add_usage_option prepared =
    if get_truthy prepared "stream"
    then Dict.set prepared "stream_options" (
        object (
          Dict.set_default (or_empty_object (get_object prepared "stream_options")) "include_usage"
            (bool true)))
    else prepared

-- The body for Google AI Studio.
unfoldable pub prepare_google_body : JsonObject → JsonObject
unfolding add_thoughts add_effort add_usage_option extract_google_reasoning_effort
prepare_google_body request_body =
    let supported = Dict.pop_all (Dict.pop request_body "provider") google_unsupported_params in
    let with_thoughts =
      add_thoughts (Dict.get supported "include") (Dict.pop supported "include") in
    let effort =
      extract_google_reasoning_effort (Dict.get with_thoughts "reasoning")
        (Dict.get with_thoughts "reasoning_effort") in
    add_usage_option
      (add_effort effort (Dict.pop (Dict.pop with_thoughts "reasoning") "reasoning_effort"))

unfoldable pub fireworks_model : String → String
fireworks_model model =
    if has_prefix fireworks_model_prefix model then model else append fireworks_model_prefix model

abbrev rename_model : Option String → JsonObject → JsonObject
rename_model none prepared = prepared
rename_model (some model) prepared = Dict.set prepared "model" (str (fireworks_model model))

abbrev add_fireworks_effort : Option String → JsonObject → JsonObject
add_fireworks_effort none prepared = prepared
add_fireworks_effort (some effort) prepared =
    if not (effort == "") && not (Dict.contains prepared "reasoning_effort")
    then Dict.set prepared "reasoning_effort" (str (lower effort))
    else prepared

-- The body for Fireworks. (A name that has the prefix is written back as it is.)
unfoldable pub prepare_fireworks_body : JsonObject → JsonObject
unfolding fireworks_model
prepare_fireworks_body request_body =
    let supported =
      Dict.pop_all (Dict.pop (Dict.pop request_body "provider") "include")
        fireworks_unsupported_params in
    let named = rename_model (get_str supported "model") supported in
    add_fireworks_effort
      (Dict.get named "reasoning" >>= as_object >>= λ reasoning. get_str reasoning "effort")
      (Dict.pop named "reasoning")

unfoldable pub prepare_request_body : BaseAdapter → JsonObject → JsonObject
unfolding prepare_google_body prepare_fireworks_body
prepare_request_body adapter request_body =
    if adapter.provider_name == "fireworks"
    then prepare_fireworks_body request_body
    else if adapter.provider_name == "google"
    then prepare_google_body request_body
    else request_body

abbrev add_authorization : Option String → Dict String → Dict String
add_authorization none out = out
add_authorization (some key) out =
    if key == "" then out else Dict.set out "Authorization" (append "Bearer " key)

abbrev pub effective_key : BaseAdapter → Option String → Option String
effective_key adapter none = adapter.api_key
effective_key adapter (some key) = some key

unfoldable pub build_headers : BaseAdapter → Dict String → Option String → Dict String
build_headers adapter headers override_api_key =
    let kept = Dict.filter_keys (λ k. not (contains (lower k) stripped_request_headers)) headers in
    let out =
      Dict.set (Dict.set kept "Accept-Encoding" "identity") "Content-Type" "application/json" in
    Dict.update (add_authorization (effective_key adapter override_api_key) out)
      adapter.extra_headers
