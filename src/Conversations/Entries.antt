-- ===== src/Conversations/Entries.antt =====
-- The entries of a tree of messages: `_message_entry`, with the nodes that hold it.
use Prim.Native.Nat.{◌/◌}
use ai_proxy.Common.{
  ℕ, zero, suc, ◌%◌, String, append, Option, none, some, List, [], ◌∷◌, ◌==◌, if◌then◌else◌, ltb,
}
use ai_proxy.Dict
use ai_proxy.Dict.{Dict}
use ai_proxy.Json.{ℤ, Json, str, JsonObject, get_truthy}
use ai_proxy.Conversations.{
  Format, ProxyRequest, or_text, message_signature, message_display_text, message_tool_names,
  message_meta_tags,
}

-- The fields of a node that its caller gets, without those whose names start with `_`.
pub record Message : Type 0 where
  pub id : String
  pub origin : String
  pub role : Json
  pub content : String
  pub raw_message : JsonObject
  pub tool_names : List String
  pub meta_tags : JsonObject
  pub source_request_id : String
  pub source_request_timestamp : String
  pub source_message_index : ℕ
  pub last_seen_at : String
  pub repeat_count : ℕ
  pub model : Option String
  pub latency_ms : Option ℕ
  pub total_tokens : Option ℤ
  pub node_id : String
  pub parent : Option String
  pub children : List String

-- A node, with its `_signature` and its `_ordinal`.
pub record Node : Type 0 where
  pub message : Message
  pub signature : String
  pub ordinal : ℕ

pub record Tree : Type 0 where
  pub nodes : Dict Node
  pub root_ids : List String
  pub ordinal : ℕ

abbrev pub new_tree : Tree
new_tree = record { nodes = []; root_ids = []; ordinal = 0 }

abbrev pub digits : List String
digits = "0" ∷ "1" ∷ "2" ∷ "3" ∷ "4" ∷ "5" ∷ "6" ∷ "7" ∷ "8" ∷ "9" ∷ []

abbrev pick : List String → ℕ → String
pick [] n = ""
pick (d ∷ ds) zero = d
pick (d ∷ ds) (suc n) = pick ds n

decimal_digits : ℕ → ℕ → String
decimal_digits zero n = ""
decimal_digits (suc fuel) n =
    let rest = decimal_digits fuel (n / 10) in
    if ltb n 10 then pick digits n else append rest (pick digits (n % 10))

-- `str(n)`
unfoldable pub decimal : ℕ → String
unfolding decimal_digits
decimal n = decimal_digits (suc n) n

-- `message.get("role") or "unknown"`
abbrev role_of : JsonObject → Json
role_of message = elim (Dict.get message "role") [
  | none ↦ str "unknown"
  | some role ↦ if get_truthy message "role" then role else str "unknown"
]

-- `a or b`, of texts
abbrev text_or_else : Option String → Option String → Option String
text_or_else a b = if or_text a == "" then b else a

abbrev pub or_root : Option String → String
or_root none = "root"
or_root (some parent) = if parent == "" then "root" else parent

module _ (format : Format) where
  -- `_message_entry`, with the fields that `insert` adds
  unfoldable pub message_entry :
      JsonObject → ProxyRequest → ℕ → String → ℕ → String → Option String → Node
  message_entry message request ordinal origin source_message_index node_id parent = record {
    message = record {
      id = append request.id (append ":" (append origin (append ":" (decimal ordinal))));
      origin = origin;
      role = role_of message;
      content = message_display_text format message;
      raw_message = message;
      tool_names = message_tool_names format message;
      meta_tags = message_meta_tags format message;
      source_request_id = request.id;
      source_request_timestamp = format.isoformat request.timestamp;
      source_message_index = source_message_index;
      last_seen_at = format.isoformat request.timestamp;
      repeat_count = 1;
      model = text_or_else request.model_resolved request.model_requested;
      latency_ms = request.latency_ms;
      total_tokens = request.total_tokens;
      node_id = node_id;
      parent = parent;
      children = [];
    };
    signature = message_signature format message;
    ordinal = ordinal;
  }
