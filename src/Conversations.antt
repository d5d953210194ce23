-- ===== src/Conversations.antt =====
-- The messages of a conversation in db/repositories/chats.py: the text that is shown of a message,
-- what makes two messages the same, and the group that a request belongs to. Rows of the database are
-- records; `json.dumps` and `isoformat` are arguments.
pub mod Entries
pub mod Tree
pub mod Nodes
pub mod Touched
pub mod Root
pub mod Child
pub mod Insert
pub mod Visits
pub mod Walk
pub mod Build
pub mod Listing
pub mod Groups
pub mod Labels
use ai_proxy.Common.{
  ℕ, String, append, Bool, true, false, not, ◌&&◌, Option, none, some, List, [], ◌∷◌, ◌++◌, ◌==◌,
  if◌then◌else◌, contains, ◌>>=◌,
}
use ai_proxy.Dict
use ai_proxy.Dict.{Dict}
use ai_proxy.Text.{strip, join}
use ai_proxy.Json.{
  ℤ, Json, null, str, arr, obj, object, array, as_object, as_str, to_list, to_dict, JsonObject,
  get_object, get_array, get_str, get_truthy, truthy,
}

-- `json.dumps` with the keys sorted, as it is and as ASCII without blanks; the text of a point in time.
pub record Format : Type 0 where
  pub dumps : Json → String
  pub dumps_ascii : Json → String
  pub isoformat : ℕ → String

-- What is read of a row of the table `proxy_requests`; the id as a text, the time as a number.
pub record ProxyRequest : Type 0 where
  pub id : String
  pub timestamp : ℕ
  pub request_body : Json
  pub response_body : Json
  pub model_requested : Option String
  pub model_resolved : Option String
  pub latency_ms : Option ℕ
  pub total_tokens : Option ℤ
  pub system_prompt_text : Option String
  pub first_user_message_text : Option String
  pub first_assistant_response_text : Option String

-- The items that are objects.
unfoldable pub objects_in : List Json → List JsonObject
objects_in [] = []
objects_in (obj fields ∷ vs) = to_dict fields ∷ objects_in vs
objects_in (v ∷ vs) = objects_in vs

abbrev pub messages_in : Option (List Json) → List JsonObject
messages_in none = []
messages_in (some vs) = objects_in vs

-- `_request_messages`
unfoldable pub request_messages : Json → List JsonObject
unfolding objects_in
request_messages request_body = messages_in (as_object request_body >>= λ d. get_array d "messages")

-- The text of a part that is an object, where it has a text or a type.
abbrev pub typed_part : Option String → Option String
typed_part none = none
typed_part (some type) = if type == "" then none else some (append "[" (append type "]"))

abbrev pub object_part : JsonObject → Option String
object_part item = elim (get_str item "text") [
  | none ↦ typed_part (get_str item "type")
  | some text ↦ if strip text == "" then typed_part (get_str item "type") else some (strip text)
]

abbrev pub text_or_dump : String → Option String → String
text_or_dump dump none = dump
text_or_dump dump (some s) = s

abbrev pub or_text : Option String → String
or_text none = ""
or_text (some s) = s

abbrev pub labelled : String → String → List String
labelled label text = if text == "" then [] else append label text ∷ []

abbrev pub or_unknown : List String → String
or_unknown [] = "unknown"
or_unknown (part ∷ parts) = join "\n" (part ∷ parts)

module _ (format : Format) where
  abbrev pub content_part : Json → String
  content_part (str s) = s
  content_part (obj fields) =
      text_or_dump (format.dumps (obj fields)) (object_part (to_dict fields))
  content_part item = format.dumps item

  -- The parts that are not empty.
  unfoldable pub content_parts : List Json → List String
  content_parts [] = []
  content_parts (item ∷ items) =
      let parts = content_parts items in
      let part = content_part item in if part == "" then parts else part ∷ parts

  -- `_content_text`, where an absent value is `None`
  unfoldable pub content_text : Option Json → String
  unfolding content_parts
  content_text none = ""
  content_text (some null) = ""
  content_text (some (str s)) = strip s
  content_text (some (arr items)) = strip (join "\n" (content_parts (to_list items)))
  content_text (some v) = format.dumps v

  -- The name in a call of a tool.
  abbrev pub call_name : JsonObject → Option String
  call_name tool_call = elim (get_object tool_call "function" >>= λ f. get_str f "name") [
    | some name ↦ some name
    | none ↦ get_str tool_call "name"
  ]

  abbrev pub named : Option String → List String → List String
  named none names = names
  named (some name) names = name ∷ names

  unfoldable pub tool_names : List JsonObject → List String
  tool_names [] = []
  tool_names (tool_call ∷ tool_calls) = named (call_name tool_call) (tool_names tool_calls)

  -- `_message_tool_names`
  unfoldable pub message_tool_names : JsonObject → List String
  unfolding tool_names objects_in
  message_tool_names message = tool_names (messages_in (get_array message "tool_calls"))

  -- `_message_meta_tags`
  unfoldable pub message_meta_tags : JsonObject → JsonObject
  message_meta_tags message =
      Dict.filter_keys (λ key. not (contains key ("role" ∷ "content" ∷ "tool_calls" ∷ []))) message

  abbrev pub has_role : String → JsonObject → Bool
  has_role role message = elim (get_str message "role") [ none ↦ false | some r ↦ r == role ]

  -- `message.get("name") or message.get("tool_call_id")`
  abbrev pub tool_name : JsonObject → Option Json
  tool_name message =
      if get_truthy message "name" then Dict.get message "name" else Dict.get message "tool_call_id"

  abbrev pub tool_result : Option String → String
  tool_result none = "(empty message)"
  tool_result (some name) = if name == "" then "(empty message)" else append "Tool result: " name

  abbrev pub display_without_text : JsonObject → List String → String
  display_without_text message (name ∷ names) = append "Tool call: " (join ", " (name ∷ names))
  display_without_text message [] =
      if has_role "tool" message
      then tool_result (tool_name message >>= as_str)
      else "(empty message)"

  -- `_message_display_text`
  unfoldable pub message_display_text : JsonObject → String
  unfolding content_text message_tool_names
  message_display_text message =
      let content = content_text (Dict.get message "content") in
      if content == "" then display_without_text message (message_tool_names message) else content

  -- `if key in message: semantic[key] = message[key]`
  abbrev pub copy_key : JsonObject → String → JsonObject → JsonObject
  copy_key message key semantic = elim (Dict.get message key) [
    | none ↦ semantic
    | some v ↦ Dict.set semantic key v
  ]

  unfoldable pub semantic_fields : JsonObject → JsonObject
  semantic_fields message =
      let semantic =
        copy_key message "tool_call_id" (
          copy_key message "tool_calls"
            (copy_key message "content" (copy_key message "role" []))) in
      if has_role "tool" message then copy_key message "name" semantic else semantic

  -- `_message_signature`
  unfoldable pub message_signature : JsonObject → String
  unfolding semantic_fields
  message_signature message = format.dumps_ascii (object (semantic_fields message))

  unfoldable pub first_by_role : String → List JsonObject → Option JsonObject
  first_by_role role [] = none
  first_by_role role (message ∷ messages) =
      if has_role role message then some message else first_by_role role messages

  -- `_first_message_by_role`
  unfoldable pub first_message_by_role : Json → String → Option JsonObject
  unfolding first_by_role request_messages
  first_message_by_role request_body role = first_by_role role (request_messages request_body)

  abbrev pub head_object : Option (List Json) → Option JsonObject
  head_object none = none
  head_object (some []) = none
  head_object (some (choice ∷ choices)) = as_object choice

  -- `_assistant_response_message`
  unfoldable pub assistant_response_message : Json → Option JsonObject
  assistant_response_message response_body =
      head_object (as_object response_body >>= λ d. get_array d "choices") >>= λ choice.
      get_object choice "message"

  abbrev pub display_of : Option JsonObject → String
  display_of none = ""
  display_of (some []) = ""
  display_of (some (field ∷ message)) = message_display_text (field ∷ message)

  -- `_first_assistant_response_text`. A message with a role is no empty dict.
  unfoldable pub first_assistant_response_text : ProxyRequest → String
  unfolding message_display_text first_message_by_role assistant_response_message
  first_assistant_response_text request =
      if or_text request.first_assistant_response_text == ""
      then elim (first_message_by_role request.request_body "assistant") [
        | some message ↦ message_display_text message
        | none ↦ display_of (assistant_response_message request.response_body)
      ]
      else or_text request.first_assistant_response_text

  -- The texts of the system prompt and of the first message of the user.
  unfoldable pub group_texts : ProxyRequest → String × String
  unfolding message_display_text first_message_by_role
  group_texts request =
      let system_text = or_text request.system_prompt_text in
      let user_text = or_text request.first_user_message_text in
      if system_text == "" && user_text == ""
      then (
        display_of (first_message_by_role request.request_body "system"),
        display_of (first_message_by_role request.request_body "user"),
      )
      else (system_text, user_text)

  -- `_group_identity`: the key of the group and its label
  unfoldable pub group_identity : ProxyRequest → String → String × String
  unfolding group_texts first_assistant_response_text
  group_identity request group_by =
      let (system_text, user_text) = group_texts request in
      let assistant_text = first_assistant_response_text request in
      if group_by == "system_prompt_first_user"
      then (
        format.dumps (
            object
              (("system_prompt", str system_text) ∷ ("first_user_message", str user_text) ∷ [])),
        or_unknown (labelled "System: " system_text ++ labelled "User: " user_text),
      )
      else (
        format.dumps (
            object (
              ("first_assistant_response", str assistant_text)
              ∷ ("first_user_message", str user_text)
              ∷ ("system_prompt", str system_text)
              ∷ [])),
        or_unknown (
            labelled "System: " system_text
            ++ labelled "User: " user_text
            ++ labelled "Assistant: " assistant_text),
      )
