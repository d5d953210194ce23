-- ===== src/Conversations/Insert.antt =====
-- The insertion of a message keeps the tree well formed, and counts how often each message came up.
use ai_proxy.Common.{
  ℕ, ◌+◌, String, ◌≡◌, refl, inl, inr, Option, none, some, [], ◌==◌, eq_iff, if◌then◌else◌,
  Bool-cases, Option-cases, arith,
}
use ai_proxy.Dict
use ai_proxy.Dict.{Dict}
use ai_proxy.Dict.Laws.{get-set}
use ai_proxy.Json.{JsonObject}
use ai_proxy.Conversations.{Format, ProxyRequest}
use ai_proxy.Conversations.Entries.{Node, Tree, message_entry}
use ai_proxy.Conversations.Tree.{seen_again, with_child, place, node_id_of, insert}
use ai_proxy.Conversations.Nodes.{
  All-map, IsChild, IsNode, IsParent, IsWellFormed, IsKept, Extends, IsChild-Extends,
}
use ai_proxy.Conversations.Touched.{touched, touched-Extends, touched-IsWellFormed, get-set-same}
use ai_proxy.Conversations.Root.{
  other_key, get-added, root_added, root_added-Extends, root_added-IsWellFormed,
}
use ai_proxy.Conversations.Child.{
  child_added-entry, child_added, child_added-Extends, child_added-IsWellFormed,
}

abbrev pub repeats : Option Node → ℕ
repeats none = 0
repeats (some node) = node.message.repeat_count

-- The abstract view of a tree: how often each message came up.
abbrev pub count_of : Tree → String → ℕ
count_of tree id = repeats (Dict.get tree.nodes id)

-- One more of a message.
abbrev pub counted : (String → ℕ) → String → String → ℕ
counted counts id x = counts x + (if id == x then 1 else 0)

-- The tree after a message with an id is inserted.
pub record IsInserted (tree : Tree) (id : String) (after : Tree) : Type 0 where
  pub well_formed : IsWellFormed after
  pub extends : Extends tree after
  pub node : IsNode after id
  pub refines : (x : String) → count_of after x ≡ counted (count_of tree) id x

module _ (format : Format) (tree : Tree) (message : JsonObject) (request : ProxyRequest)
    (origin : String) (idx : ℕ) (wf : IsWellFormed tree) where
  again-IsInserted :
      (id : String) (node : Node) (timestamp : String)
      → Dict.get tree.nodes id ≡ some node
      → IsInserted tree id
          (record tree { nodes = Dict.set tree.nodes id (seen_again timestamp node) })
  unfolding seen_again
  again-IsInserted id node timestamp found =
      let k : IsKept node (seen_again timestamp node) = record {
        same_ordinal = refl;
        kept_children = λ c m. m;
      } in
      let ext = touched-Extends tree id node (seen_again timestamp node) found k in
      let after = touched tree id node (seen_again timestamp node) found in
      record {
        well_formed =
            touched-IsWellFormed tree id node (seen_again timestamp node) found k refl
              (All-map (IsChild tree node) (IsChild after (seen_again timestamp node))
                (λ c. IsChild-Extends tree after ext node (seen_again timestamp node) c refl)
                node.message.children (wf.children id node found))
              wf;
        extends = ext;
        node = (seen_again timestamp node, get-set-same tree.nodes id _);
        refines = λ x. elim (Bool-cases (id == x)) [
          | inl same ↦ rw (get-set, same, ← (eq_iff id x).0 same, found) refl
          | inr other ↦ rw (get-set, other) (omega arith)
        ];
      }

  module _ (id : String) (entry : Node) (absent : Dict.get tree.nodes id ≡ none)
      (first : entry.message.repeat_count ≡ 1) where
    count-added :
        (x : String)
        → repeats (Dict.get (Dict.set tree.nodes id entry) x) ≡ counted (count_of tree) id x
    count-added x = elim (Bool-cases (id == x)) [
      | inl same ↦ rw (get-set, same, ← (eq_iff id x).0 same, absent) (omega (arith, first))
      | inr other ↦ rw (get-set, other) (omega arith)
    ]

    root-IsInserted :
        entry.message.parent ≡ none
        → entry.message.children ≡ []
        → entry.ordinal ≡ tree.ordinal
        → IsInserted tree id (root_added tree id entry absent)
    root-IsInserted no_parent no_children newest = record {
      well_formed = root_added-IsWellFormed tree id entry absent no_parent no_children newest wf;
      extends = root_added-Extends tree id entry absent;
      node = (entry, get-set-same tree.nodes id entry);
      refines = count-added;
    }

    module _ (p : String) (parent : Node) (found : Dict.get tree.nodes p ≡ some parent) where
      count-child_added :
          (x : String)
          → count_of (child_added tree id entry absent p parent found) x
            ≡ counted (count_of tree) id x
      unfolding with_child
      count-child_added x = elim (Bool-cases (p == x)) [
        | inl same ↦
            let e = (eq_iff p x).0 same in
            rw (get-set, same, ← e, found, other_key tree id entry absent p parent found)
              (omega arith)
        | inr other ↦ rw (get-set, other) (count-added x)
      ]

      child-IsInserted :
          entry.message.parent ≡ some p
          → entry.message.children ≡ []
          → entry.ordinal ≡ tree.ordinal
          → IsInserted tree id (child_added tree id entry absent p parent found)
      child-IsInserted its_parent no_children newest = record {
        well_formed =
            child_added-IsWellFormed tree id entry absent p parent found its_parent no_children
              newest wf;
        extends = child_added-Extends tree id entry absent p parent found;
        node = (entry, child_added-entry tree id entry absent p parent found);
        refines = count-child_added;
      }

  place-IsInserted :
      (id : String) (parent_id : Option String)
      → Dict.get tree.nodes id ≡ none
      → IsParent tree parent_id
      → (after : Tree) × (place tree id parent_id
            (message_entry format message request tree.ordinal origin idx id parent_id)
          ≡ some after)
        × IsInserted tree id after
  unfolding place message_entry
  place-IsInserted id none absent parent =
      let entry = message_entry format message request tree.ordinal origin idx id none in
      (_, refl, root-IsInserted id entry absent refl refl refl refl)
  place-IsInserted id (some p) absent (parent, found) =
      let entry = message_entry format message request tree.ordinal origin idx id (some p) in
      (
        child_added tree id entry absent p parent found,
        rw (get-added tree id entry absent p parent found) refl,
        child-IsInserted id entry absent refl p parent found refl refl refl,
      )

  -- A message that is inserted under a node of the tree, or as a root, is counted once more under its
  -- id, as every other message is as before; the tree keeps its nodes and its links.
  pub insert-IsInserted :
      (parent_id : Option String)
      → IsParent tree parent_id
      → (after : Tree) × (insert format tree message request origin idx parent_id
          ≡ some (after, node_id_of format message parent_id))
        × IsInserted tree (node_id_of format message parent_id) after
  unfolding insert
  insert-IsInserted parent_id parent =
      elim (Option-cases (Dict.get tree.nodes (node_id_of format message parent_id))) [
        | inl absent ↦
            let (after, made, inserted) =
              place-IsInserted (node_id_of format message parent_id) parent_id absent parent in
            (after, rw (insert, absent, made) refl, inserted)
        | inr (node, found) ↦ (
          _,
          rw (insert, found) refl,
          again-IsInserted (node_id_of format message parent_id) node
              (format.isoformat request.timestamp) found,
        )
      ]
