-- ===== src/Tests/Conversations.antt =====
-- The theorems on conversations at two requests, the second of which has the messages of the first.
use ai_proxy.Common.{arith, ◌≡◌, none, some, List, [], ◌∷◌}
use ai_proxy.Json.{null, str, object, array, JsonObject}
use ai_proxy.Conversations.{Format, ProxyRequest}
use ai_proxy.Conversations.Entries.{Tree, Message, new_tree}
use ai_proxy.Conversations.Tree.{
  insert, node_id_of, insert_requests, sort_requests, build_conversation_messages,
}
use ai_proxy.Conversations.Insert.{IsInserted, insert-IsInserted}
use ai_proxy.Conversations.Build.{new_tree-IsWellFormed}
use ai_proxy.Conversations.Listing.{IsListing, build_conversation_messages-IsListing}

abbrev pub format : Format
format = record { dumps = λ v. "{}"; dumps_ascii = λ v. "{}"; isoformat = λ n. "now" }

abbrev pub hello : JsonObject
hello = ("role", str "user") ∷ ("content", str "hello") ∷ []

abbrev pub ask : ProxyRequest
ask = record {
  id = "r1";
  timestamp = 7;
  request_body = object (("messages", array (object hello ∷ [])) ∷ []);
  response_body = null;
  model_requested = some "fast";
  model_resolved = some "acme/fast";
  latency_ms = none;
  total_tokens = none;
  system_prompt_text = none;
  first_user_message_text = some "hello";
  first_assistant_response_text = none;
}

first :
    (after : Tree) × (insert format new_tree hello ask "request" 0 none
      ≡ some (after, node_id_of format hello none))
    × IsInserted new_tree (node_id_of format hello none) after
first = insert-IsInserted format new_tree hello ask "request" 0 new_tree-IsWellFormed none tt

insert-IsInserted_example :
    (after : Tree) × (insert format first.0 hello ask "request" 1
        (some (node_id_of format hello none))
      ≡ some (after, node_id_of format hello (some (node_id_of format hello none))))
    × IsInserted first.0 (node_id_of format hello (some (node_id_of format hello none))) after
insert-IsInserted_example =
    insert-IsInserted format first.0 hello ask "request" 1 first.2.well_formed
      (some (node_id_of format hello none)) first.2.node

build_conversation_messages-IsListing_example :
    (tree : Tree) × (result : List Message) × (insert_requests format new_tree
        (sort_requests (ask ∷ ask ∷ []))
      ≡ some tree)
    × (build_conversation_messages format 900 (ask ∷ ask ∷ []) ≡ some result)
    × IsListing tree result
unfolding insert_requests sort_requests ai_proxy.Conversations.request_messages ai_proxy.Dict.get
    ai_proxy.Conversations.assistant_response_message ai_proxy.Dict.set
    ai_proxy.Conversations.message_signature
build_conversation_messages-IsListing_example =
    build_conversation_messages-IsListing format 900 (ask ∷ ask ∷ []) (omega arith)
