-- ===== src/RequestViews.antt =====
-- What the UI shows of a logged request: the extraction of fields in api/ui/requests.py. The arithmetic
-- of floats, `str` and `repr` of a value, and `json.loads` are arguments. A result that may raise is an
-- option of its own.
pub mod Excerpts
use Prim.Native.String
use ai_proxy.Common.{
  ℕ, zero, suc, String, append, Bool, true, false, not, ◌&&◌, Option, none, some, List, [], ◌∷◌,
  ◌==◌, if◌then◌else◌, length, is_empty, ◌>>=◌, or_else,
}
use ai_proxy.Dict
use ai_proxy.Text.{join}
use ai_proxy.Conversations.Entries.{decimal}
use ai_proxy.Json.{
  ℤ, pos, negsuc, Json, null, bool, int, float, str, arr, obj, to_list, to_dict, JsonObject,
  as_object, as_array, as_int, as_str, truthy, get_object, get_array, get_str, get_int, get_truthy,
}
use ai_proxy.ResponseUtils.{FloatOps, extract_cost}
use ai_proxy.Masking.{take_chars, mask_sensitive_fields}

pub record Row : Type 0 where
  pub request_body : Json
  pub client_request_body : Json
  pub response_body : Json
  pub client_response_body : Json
  pub output_tokens : Option ℤ
  pub latency_ms : Option ℕ
  pub ttft_ms : Option ℕ
  pub cost : Option ℕ

-- Floats as bit patterns: whether one is above zero, the difference, and the count of tokens of a
-- number of milliseconds, by the second.
pub record RateOps : Type 0 where
  pub positive : ℕ → Bool
  pub minus : ℕ → ℕ → ℕ
  pub per_second : ℤ → ℕ → ℕ

abbrev pub positive_int : ℤ → Bool
positive_int (pos zero) = false
positive_int (pos n) = true
positive_int (negsuc n) = false

-- The time in which the tokens came, where it is above zero.
abbrev pub generation_ms : RateOps → ℕ → Option ℕ → Option ℕ
generation_ms ops latency none = some latency
generation_ms ops latency (some ttft) =
    if ops.positive ttft
    then (if ops.positive (ops.minus latency ttft) then some (ops.minus latency ttft) else none)
    else some latency

-- `_compute_tps`
unfoldable pub compute_tps : RateOps → Row → Option ℕ
compute_tps ops row = do
  tokens ← row.output_tokens
  latency ← row.latency_ms
  gen_ms ←
      (if positive_int tokens && ops.positive latency
        then generation_ms ops latency row.ttft_ms
        else none)
  some (ops.per_second tokens gen_ms)

-- `req.response_body or req.client_response_body`
abbrev pub or_json : Json → Json → Json
or_json a b = if truthy a then a else b

abbrev pub response_of : Row → Json
response_of row = or_json row.response_body row.client_response_body

abbrev pub request_of : Row → Json
request_of row = or_json row.request_body row.client_request_body

-- `_extract_cached_tokens`
unfoldable pub extract_cached_tokens : Row → Option ℤ
extract_cached_tokens row = do
  body ← as_object (response_of row)
  usage ← get_object body "usage"
  details ← get_object usage "prompt_tokens_details"
  get_int details "cached_tokens"

-- The cost that is shown: that of the response, or the one in the row; `none` where the code raises
unfoldable pub shown_cost : FloatOps → Row → Option (Option ℕ)
shown_cost ops row = extract_cost ops (response_of row) >>= λ cost. some (or_else cost row.cost)

abbrev pub messages_of : Row → Option (List Json)
messages_of row = as_object (request_of row) >>= λ body. get_array body "messages"

-- `_extract_message_count`
unfoldable pub extract_message_count : Row → Option ℕ
extract_message_count row = messages_of row >>= λ messages. some (length messages)

abbrev pub is_str : String → Option Json → Bool
is_str s (some (str t)) = t == s
is_str s _ = false

-- The text of the first part that is one of type `text`.
abbrev pub part_text : Json → Option String
part_text (obj fields) =
    if is_str "text" (Dict.get (to_dict fields) "type")
    then get_str (to_dict fields) "text"
    else none
part_text v = none

abbrev pub first_part_text : List Json → Option String
first_part_text [] = none
first_part_text (part ∷ parts) = or_else (part_text part) (first_part_text parts)

abbrev pub content_of : Option Json → Option String
content_of (some (str s)) = some s
content_of (some (arr parts)) = first_part_text (to_list parts)
content_of _ = none

-- The text of a message that is not the assistant's.
abbrev pub user_text : Json → Option String
user_text (obj fields) =
    if is_str "assistant" (Dict.get (to_dict fields) "role")
    then none
    else content_of (Dict.get (to_dict fields) "content")
user_text v = none

-- The last one that there is: the loop goes through the messages in reverse.
unfoldable pub last_user_text : List Json → Option String
last_user_text [] = none
last_user_text (message ∷ messages) = or_else (last_user_text messages) (user_text message)

-- `_extract_last_user_message`
unfoldable pub extract_last_user_message : Row → Option String
unfolding last_user_text take_chars
extract_last_user_message row = do
  messages ← messages_of row
  text ← last_user_text messages
  some (take_chars 200 text)

-- `str(v)`, `repr(s)` and `json.loads(s)`, where it does not raise
pub record TextOps : Type 0 where
  pub to_text : Json → String
  pub repr : String → String
  pub loads : String → Option Json

module _ (ops : TextOps) where
  -- `_compact_value`
  unfoldable pub compact_value : Json → String
  compact_value (str s) = ops.repr s
  compact_value (bool b) = if b then "true" else "false"
  compact_value (arr vs) = append "[" (append (decimal (length (to_list vs))) " items]")
  compact_value (obj fields) = append "{" (append (decimal (length (to_dict fields))) " keys}")
  compact_value null = "null"
  compact_value v = ops.to_text v

  unfoldable pub compact_pairs : JsonObject → List String
  unfolding compact_value
  compact_pairs [] = []
  compact_pairs ((key, value) ∷ args) =
      append key (append "=" (compact_value value)) ∷ compact_pairs args

  abbrev pub pairs_text : Option JsonObject → String
  pairs_text none = ""
  pairs_text (some args) = join ", " (compact_pairs args)

  -- `_summarize_tool_args`
  unfoldable pub summarize_tool_args : Option Json → String
  unfolding compact_pairs
  summarize_tool_args none = ""
  summarize_tool_args (some (str raw_args)) = pairs_text (ops.loads raw_args >>= as_object)
  summarize_tool_args (some raw_args) = pairs_text (as_object raw_args)

  -- `fn.get("name", "tool_call")` alone: it has to be a text, or the joining of the parts raises.
  abbrev pub name_alone : Option Json → Option String
  name_alone none = some "tool_call"
  name_alone (some v) = as_str v

  -- The same in a text with more.
  abbrev pub name_text : Option Json → String
  name_text none = "tool_call"
  name_text (some (str s)) = s
  name_text (some v) = ops.to_text v

  unfoldable pub call_part : Option JsonObject → Option String
  unfolding summarize_tool_args
  call_part none = some "tool_call"
  call_part (some fn) =
      let args_summary = summarize_tool_args (Dict.get fn "arguments") in
      if args_summary == ""
      then name_alone (Dict.get fn "name")
      else some (append (name_text (Dict.get fn "name")) (append "(" (append args_summary ")")))

  -- The parts of the calls that are objects, or `none` where one is no text.
  unfoldable pub call_parts : List Json → Option (List String)
  unfolding call_part
  call_parts [] = some []
  call_parts (obj fields ∷ tool_calls) = do
    part ← call_part (get_object (to_dict fields) "function")
    parts ← call_parts tool_calls
    some (part ∷ parts)
  call_parts (v ∷ tool_calls) = call_parts tool_calls

  abbrev pub joined_parts : List String → Option String
  joined_parts [] = none
  joined_parts (part ∷ parts) = some (join " | " (part ∷ parts))

  abbrev pub calls_text : Option (List Json) → Option (Option String)
  calls_text none = some none
  calls_text (some tool_calls) = call_parts tool_calls >>= λ parts. some (joined_parts parts)

  abbrev pub first_choice : Option (List Json) → Option JsonObject
  first_choice none = none
  first_choice (some []) = none
  first_choice (some (choice ∷ choices)) = as_object choice

  -- `choice.get("message") or choice.get("delta")`
  abbrev pub message_of : JsonObject → Option JsonObject
  message_of choice =
      if get_truthy choice "message" then get_object choice "message" else get_object choice "delta"

  abbrev pub given_text : Option String → Option String
  given_text none = none
  given_text (some s) = if s == "" then none else some s

  abbrev pub message_response : JsonObject → Option (Option String)
  message_response message = elim (given_text (get_str message "content")) [
    | some content ↦ some (some (take_chars 500 content))
    | none ↦ calls_text (get_array message "tool_calls")
  ]

  -- `_extract_assistant_response`, or `none` where it raises
  unfoldable pub extract_assistant_response : Row → Option (Option String)
  unfolding call_parts take_chars
  extract_assistant_response row =
      elim (as_object (response_of row) >>= λ body.
      first_choice (get_array body "choices") >>= λ choice. message_of choice) [
        | none ↦ some none
        | some message ↦ message_response message
      ]

  -- `_ordered_request_body`, where a value that cannot be read has the fallback
  unfoldable pub ordered_request_body : Option String → Json → Json
  unfolding mask_sensitive_fields
  ordered_request_body none fallback = fallback
  ordered_request_body (some raw_text) fallback =
      if raw_text == "" then fallback else elim (ops.loads raw_text) [
        | none ↦ fallback
        | some parsed ↦ mask_sensitive_fields parsed
      ]
