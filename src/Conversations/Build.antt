-- ===== src/Conversations/Build.antt =====
-- The tree of all messages of a conversation.
use ai_proxy.Common.{ℕ, ◌+◌, String, ◌≡◌, refl, Option, none, some, List, [], ◌∷◌, length}
use ai_proxy.Dict
use ai_proxy.Json.{JsonObject}
use ai_proxy.Conversations.{Format, ProxyRequest, request_messages, assistant_response_message}
use ai_proxy.Conversations.Entries.{Tree, new_tree}
use ai_proxy.Conversations.Tree.{
  node_id_of, insert_messages, insert_assistant, insert_request_messages, insert_requests,
}
use ai_proxy.Conversations.Nodes.{IsWellFormed, IsParent}
use ai_proxy.Conversations.Insert.{insert-IsInserted}

pub new_tree-IsWellFormed : IsWellFormed new_tree
unfolding Dict.get
new_tree-IsWellFormed = record {
  placed = λ id node h. absurd (cc);
  children = λ id node h. absurd (cc);
  bounded = λ id node h. absurd (cc);
  roots = tt;
}

module _ (format : Format) where
  insert_messages-IsWellFormed :
      (messages : List JsonObject) (tree : Tree) (request : ProxyRequest) (idx : ℕ)
      (parent_id : Option String)
      → IsWellFormed tree
      → IsParent tree parent_id
      → (after : Tree) × (last : Option String) × (insert_messages format tree request messages idx
            parent_id
          ≡ some (after, last))
        × IsWellFormed after
        × IsParent after last
  unfolding insert_messages
  insert_messages-IsWellFormed [] tree request idx parent_id wf p = (tree, parent_id, refl, wf, p)
  insert_messages-IsWellFormed (message ∷ messages) tree request idx parent_id wf p =
      let (tree', made, inserted) =
        insert-IsInserted format tree message request "request" idx wf parent_id p in
      let (after, last, rest, wf', p') =
        insert_messages-IsWellFormed messages tree' request (idx + 1)
          (some (node_id_of format message parent_id)) inserted.well_formed inserted.node in
      (after, last, rw made rest, wf', p')

  insert_assistant-IsWellFormed :
      (tree : Tree) (parent_id : Option String) (request : ProxyRequest) (idx : ℕ)
      (o : Option JsonObject)
      → IsWellFormed tree
      → IsParent tree parent_id
      → (after : Tree) × (insert_assistant format (tree, parent_id) request idx o ≡ some after)
        × IsWellFormed after
  insert_assistant-IsWellFormed tree parent_id request idx none wf p = (tree, refl, wf)
  insert_assistant-IsWellFormed tree parent_id request idx (some []) wf p = (tree, refl, wf)
  insert_assistant-IsWellFormed tree parent_id request idx (some (f ∷ assistant)) wf p =
      let (after, made, inserted) =
        insert-IsInserted format tree (f ∷ assistant) request "response" idx wf parent_id p in
      (after, rw made refl, inserted.well_formed)

  insert_request_messages-IsWellFormed :
      (tree : Tree) (request : ProxyRequest)
      → IsWellFormed tree
      → (after : Tree) × (insert_request_messages format tree request ≡ some after)
        × IsWellFormed after
  unfolding insert_request_messages
  insert_request_messages-IsWellFormed tree request wf =
      let msgs = request_messages request.request_body in
      let (tree', last, made, wf', p) =
        insert_messages-IsWellFormed msgs tree request 0 none wf tt in
      let (after, made', wf'') =
        insert_assistant-IsWellFormed tree' last request (length msgs)
          (assistant_response_message format request.response_body) wf' p in
      (after, rw made made', wf'')

  -- The messages of any requests can be put into a tree, from one that is well formed to one that is.
  pub insert_requests-IsWellFormed :
      (requests : List ProxyRequest) (tree : Tree)
      → IsWellFormed tree
      → (after : Tree) × (insert_requests format tree requests ≡ some after) × IsWellFormed after
  unfolding insert_requests
  insert_requests-IsWellFormed [] tree wf = (tree, refl, wf)
  insert_requests-IsWellFormed (request ∷ requests) tree wf =
      let (tree', made, wf') = insert_request_messages-IsWellFormed tree request wf in
      let (after, rest, wf'') = insert_requests-IsWellFormed requests tree' wf' in
      (after, rw made rest, wf'')
