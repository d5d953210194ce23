-- ===== src/Conversations/Listing.antt =====
-- The list of the messages of a conversation has each of them once.
use mathlib.Core.Path.{subst}
use ai_proxy.Common.{
  ◌≤◌, ℕ, zero, suc, ◌<◌, String, ◌≡◌, refl, inl, inr, true, Option, none, some, List, [], ◌∷◌,
  ◌==◌, eq_iff, contains, Bool-cases, All, arith,
}
use ai_proxy.Dict
use ai_proxy.Dict.{Dict}
use ai_proxy.Conversations.Entries.{Node, Tree, Message}
use ai_proxy.Conversations.Tree.{Walk, new_walk, to_list}
use ai_proxy.Conversations.Nodes.{All-map, IsPlaced, IsNode, IsWellFormed}
use ai_proxy.Conversations.{Format, ProxyRequest}
use ai_proxy.Conversations.Entries.{new_tree}
use ai_proxy.Conversations.Tree.{sort_requests, insert_requests, build_conversation_messages}
use ai_proxy.Conversations.Visits.{AreUnique, AreMessages, AreVisited, IsWalked}
use ai_proxy.Conversations.Walk.{IsNear, walk_each-Ends, walk-Ends}
use ai_proxy.Conversations.Build.{new_tree-IsWellFormed, insert_requests-IsWellFormed}

-- A list of messages that has those of all nodes of a tree, each once.
pub record IsListing (tree : Tree) (result : List Message) : Type 0 where
  pub ids : List String
  pub unique : AreUnique ids
  pub messages : AreMessages tree ids result
  pub complete : (id : String) → IsNode tree id → contains id ids ≡ true

All-contains :
    (P : String → Type 0) (xs : List String) (x : String) → All P xs → contains x xs ≡ true → P x
All-contains P [] x h c = absurd (cc)
All-contains P (y ∷ ys) x (p, h) c = elim (Bool-cases (y == x)) [
  | inl same ↦ subst P ((eq_iff y x).0 same) p
  | inr other ↦ All-contains P ys x h (rw other at c)
]

module _ (tree : Tree) (wf : IsWellFormed tree) where
  roots-IsNear : (limit : ℕ) → tree.ordinal ≤ limit → All (IsNear tree limit) tree.root_ids
  roots-IsNear limit enough =
      All-map (IsNode tree) (IsNear tree limit) (λ r (node, found). (node, found, omega arith))
        tree.root_ids wf.roots

  module _ (after : Walk) (walked : IsWalked tree new_walk after)
      (roots : AreVisited tree tree.root_ids after.visited) where
    children-visited :
        (p : String) (parent : Node)
        → Dict.get tree.nodes p ≡ some parent
        → contains p after.visited ≡ true
        → AreVisited tree parent.message.children after.visited
    children-visited p parent found seen = elim (walked.closed p seen) [
      | inl never ↦ absurd (cc)
      | inr closed ↦ closed parent found
    ]

    placed-visited :
        (id : String) (node : Node) (o : Option String)
        → IsPlaced tree id node o
        → ((p : String) (parent : Node)
            → Dict.get tree.nodes p ≡ some parent
            → parent.ordinal < node.ordinal
            → contains p after.visited ≡ true)
        → contains id after.visited ≡ true
    placed-visited id node none root older =
        All-contains (λ c. contains c after.visited ≡ true) tree.root_ids id roots root
    placed-visited id node (some p) (parent, there, child, before) older =
        All-contains (λ c. contains c after.visited ≡ true) parent.message.children id
          (children-visited p parent there (older p parent there before)) child

    all-visited :
        (n : ℕ) (id : String) (node : Node)
        → Dict.get tree.nodes id ≡ some node
        → node.ordinal < n
        → contains id after.visited ≡ true
    all-visited zero id node found h = absurd (omega (arith, h))
    all-visited (suc n) id node found h =
        placed-visited id node node.message.parent (wf.placed id node found)
          (λ p parent there before. all-visited n p parent there (omega (arith, before, h)))

  -- The list of a well-formed tree is made, where as many calls of `walk` may stand in one another as
  -- there are nodes, and has the message of each node once.
  pub to_list-IsListing :
      (limit : ℕ)
      → tree.ordinal ≤ limit
      → (result : List Message) × (to_list limit tree ≡ some result) × IsListing tree result
  unfolding to_list
  to_list-IsListing limit enough =
      let ends =
        walk_each-Ends tree limit (walk-Ends tree wf limit) tree.root_ids new_walk
          (roots-IsNear limit enough) (record { unique = tt; messages = tt }) in
      (
        ends.after.result,
        rw ends.made refl,
        record {
          ids = ends.after.visited;
          unique = ends.is_walk.unique;
          messages = ends.is_walk.messages;
          complete = λ id (node, found).
              all-visited ends.after ends.walked ends.visited tree.ordinal id node found
                (wf.bounded id node found);
        },
      )

-- How many nodes a tree has, where there is one.
abbrev pub size : Option Tree → ℕ
size none = 0
size (some tree) = tree.ordinal

-- The messages of any requests are put into a tree: no step of that fails. Where this tree has no more
-- nodes than calls of `walk` may stand in one another, its list is made, and has the message of each
-- node once.
pub build_conversation_messages-IsListing :
    (format : Format) (limit : ℕ) (requests : List ProxyRequest)
    → size (insert_requests format new_tree (sort_requests requests)) ≤ limit
    → (tree : Tree) × (result : List Message) × (insert_requests format new_tree
          (sort_requests requests)
        ≡ some tree)
      × (build_conversation_messages format limit requests ≡ some result)
      × IsListing tree result
unfolding build_conversation_messages
build_conversation_messages-IsListing format limit requests enough =
    let (tree, made, wf) =
      insert_requests-IsWellFormed format (sort_requests requests) new_tree new_tree-IsWellFormed in
    let (result, listed, listing) = to_list-IsListing tree wf limit (rw made at enough) in
    (tree, result, made, rw made listed, listing)
