-- ===== src/Conversations/Tree.antt =====
-- The tree of the messages of a conversation: `_TreeBuilder` and `build_conversation_messages` of
-- db/repositories/chats.py. A step is `none` where a dict has no entry for a key, and where
-- the calls of `walk` go deeper than Python lets them.
use Prim.Native.String.{compare}
use Prim.Native.Nat.{Ordering}
use ai_proxy.Common.{
  ℕ, zero, suc, ◌+◌, String, append, Bool, true, false, ◌||◌, ◌&&◌, Option, none, some, List, [],
  ◌∷◌, ◌++◌, if◌then◌else◌, contains, ◌>>=◌, ltb, nat_eq, length,
}
use ai_proxy.Dict
use ai_proxy.Dict.{Dict}
use ai_proxy.Json.{JsonObject}
use ai_proxy.Conversations.{
  Format, ProxyRequest, message_signature, request_messages, assistant_response_message,
}
use ai_proxy.Conversations.Entries.{Message, Node, Tree, new_tree, or_root, message_entry}

-- A node that comes up again.
unfoldable pub seen_again : String → Node → Node
seen_again timestamp node = record node {
  message = record node.message {
    repeat_count = node.message.repeat_count + 1;
    last_seen_at = timestamp;
  };
}

-- `if x not in xs: xs.append(x)`
abbrev pub append_new : List String → String → List String
append_new xs x = if contains x xs then xs else xs ++ x ∷ []

unfoldable pub with_child : String → Node → Node
with_child child_id node = record node {
  message = record node.message { children = append_new node.message.children child_id };
}

abbrev pub link : Dict Node → String → String → Option Node → Option (Dict Node)
link nodes parent_id node_id none = none
link nodes parent_id node_id (some parent) =
    some (Dict.set nodes parent_id (with_child node_id parent))

-- A new node is put among the nodes, and at the end of the roots or of its parent's children.
unfoldable pub place : Tree → String → Option String → Node → Option Tree
unfolding with_child
place tree node_id none entry = some (record {
  nodes = Dict.set tree.nodes node_id entry;
  root_ids = append_new tree.root_ids node_id;
  ordinal = tree.ordinal + 1;
})
place tree node_id (some parent_id) entry = do
  nodes ←
      link (Dict.set tree.nodes node_id entry) parent_id node_id
        (Dict.get (Dict.set tree.nodes node_id entry) parent_id)
  some (record { nodes = nodes; root_ids = tree.root_ids; ordinal = tree.ordinal + 1 })

module _ (format : Format) where
  unfoldable pub node_id_of : JsonObject → Option String → String
  node_id_of message parent_id =
      append (or_root parent_id) (append "::" (message_signature format message))

  unfoldable pub insert :
      Tree → JsonObject → ProxyRequest → String → ℕ → Option String → Option (Tree × String)
  unfolding seen_again place message_entry node_id_of
  insert tree message request origin source_message_index parent_id =
      let node_id = node_id_of message parent_id in
      elim (Dict.get tree.nodes node_id) [
        | some node ↦ some (
          record tree {
            nodes =
                Dict.set tree.nodes node_id (seen_again (format.isoformat request.timestamp) node);
          },
          node_id,
        )
        | none ↦
            place tree node_id parent_id (
              message_entry format message request tree.ordinal origin source_message_index node_id
                parent_id)
            >>= λ tree'. some (tree', node_id)
      ]

-- The state of the walk: `visited` and `result`.
pub record Walk : Type 0 where
  pub visited : List String
  pub result : List Message

unfoldable pub walk_each : (String → Walk → Option Walk) → List String → Walk → Option Walk
walk_each walk_one [] w = some w
walk_each walk_one (id ∷ ids) w = walk_one id w >>= walk_each walk_one ids

abbrev pub visit : String → Node → Walk → Walk
visit node_id node w = record {
  visited = w.visited ++ node_id ∷ [];
  result = w.result ++ node.message ∷ [];
}

unfoldable pub walk : ℕ → Dict Node → String → Walk → Option Walk
unfolding walk_each
walk zero nodes node_id w = none
walk (suc fuel) nodes node_id w =
    let walk_children = walk_each (walk fuel nodes) in
    if contains node_id w.visited
    then some w
    else Dict.get nodes node_id >>= λ node.
        walk_children node.message.children (visit node_id node w)

abbrev pub new_walk : Walk
new_walk = record { visited = []; result = [] }

-- `limit` is how many calls of `walk` may stand in one another: with one more Python raises, at its
-- limit of recursions.
unfoldable pub to_list : ℕ → Tree → Option (List Message)
unfolding walk
to_list limit tree = walk_each (walk limit tree.nodes) tree.root_ids new_walk >>= λ w. some w.result

-- The order of two requests by `(timestamp, str(id))`
abbrev pub text_lt : String → String → Bool
text_lt s t = elim (compare s t) [ Ordering.lt ↦ true | _ ↦ false ]

unfoldable pub request_lt : ProxyRequest → ProxyRequest → Bool
request_lt r s = ltb r.timestamp s.timestamp || nat_eq r.timestamp s.timestamp && text_lt r.id s.id

-- The sort is stable.
unfoldable pub insert_request : ProxyRequest → List ProxyRequest → List ProxyRequest
unfolding request_lt
insert_request r [] = r ∷ []
insert_request r (s ∷ rs) =
    let rest = insert_request r rs in if request_lt s r then s ∷ rest else r ∷ s ∷ rs

unfoldable pub sort_requests : List ProxyRequest → List ProxyRequest
unfolding insert_request
sort_requests [] = []
sort_requests (r ∷ rs) = insert_request r (sort_requests rs)

module _ (format : Format) where
  -- The messages of a request, each under the one before it.
  unfoldable pub insert_messages :
      Tree → ProxyRequest → List JsonObject → ℕ → Option String → Option (Tree × Option String)
  unfolding insert
  insert_messages tree request [] idx parent_id = some (tree, parent_id)
  insert_messages tree request (message ∷ messages) idx parent_id =
      insert format tree message request "request" idx parent_id >>= λ r.
      insert_messages r.0 request messages (idx + 1) (some r.1)

  abbrev pub insert_assistant :
      Tree × Option String → ProxyRequest → ℕ → Option JsonObject → Option Tree
  insert_assistant (tree, parent_id) request idx none = some tree
  insert_assistant (tree, parent_id) request idx (some []) = some tree
  insert_assistant (tree, parent_id) request idx (some (f ∷ assistant)) =
      insert format tree (f ∷ assistant) request "response" idx parent_id >>= λ r. some r.0

  unfoldable pub insert_request_messages : Tree → ProxyRequest → Option Tree
  unfolding insert_messages insert
  insert_request_messages tree request =
      let msgs = request_messages request.request_body in
      insert_messages tree request msgs 0 none >>= λ r.
      insert_assistant r request (length msgs)
        (assistant_response_message format request.response_body)

  unfoldable pub insert_requests : Tree → List ProxyRequest → Option Tree
  unfolding insert_request_messages
  insert_requests tree [] = some tree
  insert_requests tree (request ∷ requests) =
      insert_request_messages tree request >>= λ tree'. insert_requests tree' requests

  unfoldable pub build_conversation_messages : ℕ → List ProxyRequest → Option (List Message)
  unfolding insert_requests sort_requests to_list
  build_conversation_messages limit requests =
      insert_requests new_tree (sort_requests requests) >>= to_list limit
