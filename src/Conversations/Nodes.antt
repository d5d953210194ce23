-- ===== src/Conversations/Nodes.antt =====
-- When the tree of a conversation is well formed, and what keeps it so.
use ai_proxy.Common.{
  ◌<◌, String, ◌≡◌, refl, sym, ◌∙◌, ◌⊎◌, inl, inr, true, false, Option, none, some, List, [], ◌∷◌,
  ◌++◌, ◌==◌, eq_iff, contains, Bool-cases, All, All-append, arith,
}
use ai_proxy.Dict
use ai_proxy.Dict.{Dict}
use ai_proxy.Dict.Laws.{get-set}
use ai_proxy.Conversations.Entries.{Node, Tree}
use ai_proxy.Conversations.Tree.{append_new}

pub contains-append :
    (k : String) (xs ys : List String) → contains k xs ≡ true → contains k (xs ++ ys) ≡ true
contains-append k [] ys h = absurd (cc)
contains-append k (x ∷ xs) ys h = ground (arith, contains-append k xs ys)

pub contains-append_right :
    (k : String) (xs ys : List String) → contains k ys ≡ true → contains k (xs ++ ys) ≡ true
contains-append_right k [] ys h = h
contains-append_right k (x ∷ xs) ys h = ground (arith, contains-append_right k xs ys)

pub contains_self : (k : String) → contains k (k ∷ []) ≡ true
contains_self k = rw ((eq_iff k k).1 refl) refl

pub contains-append_new :
    (k : String) (xs : List String) (x : String)
    → contains k xs ≡ true
    → contains k (append_new xs x) ≡ true
contains-append_new k xs x h = elim (Bool-cases (contains x xs)) [
  | inl there ↦ rw there h
  | inr new ↦ rw new (contains-append k xs (x ∷ []) h)
]

pub append_new_self : (xs : List String) (x : String) → contains x (append_new xs x) ≡ true
append_new_self xs x = elim (Bool-cases (contains x xs)) [
  | inl there ↦ rw (there, there) refl
  | inr new ↦ rw new (contains-append_right x xs (x ∷ []) (contains_self x))
]

module _ (P : String → Type 0) where
  pub All-append_new : (xs : List String) (x : String) → All P xs → P x → All P (append_new xs x)
  All-append_new xs x h p = elim (Bool-cases (contains x xs)) [
    | inl there ↦ rw there h
    | inr new ↦ rw new (All-append P xs (x ∷ []) h (p, tt))
  ]

  pub All-map :
      (Q : String → Type 0) → ((x : String) → P x → Q x) → (xs : List String) → All P xs → All Q xs
  All-map Q f [] h = tt
  All-map Q f (x ∷ xs) (p, h) = (f x p, All-map Q f xs h)

-- An entry of a dict after a write.
pub set-cases :
    (d : Dict Node) (k x : String) (v w : Node)
    → Dict.get (Dict.set d k v) x ≡ some w
    → ((k ≡ x) × (w ≡ v)) ⊎ (((k == x) ≡ false) × (Dict.get d x ≡ some w))
set-cases d k x v w h = elim (Bool-cases (k == x)) [
  | inl same ↦
      let e : Path (Option Node) (some v) (some w) = sym (get-set d k x v ∙ rw same refl) ∙ h in
      inl ((eq_iff k x).0 same, cc)
  | inr other ↦ inr (other, sym (get-set d k x v ∙ rw other refl) ∙ h)
]

module _ (tree : Tree) where
  -- A node is a root, or among the children of its parent, which is older.
  abbrev pub IsPlaced : String → Node → Option String → Type 0
  IsPlaced id node none = contains id tree.root_ids ≡ true
  IsPlaced id node (some p) =
      (parent : Node) × (Dict.get tree.nodes p ≡ some parent)
      × (contains id parent.message.children ≡ true)
      × (parent.ordinal < node.ordinal)

  -- A child is a younger node.
  abbrev pub IsChild : Node → String → Type 0
  IsChild node c =
      (child : Node) × (Dict.get tree.nodes c ≡ some child) × (node.ordinal < child.ordinal)

  abbrev pub IsNode : String → Type 0
  IsNode id = (node : Node) × (Dict.get tree.nodes id ≡ some node)

  abbrev pub IsParent : Option String → Type 0
  IsParent none = Unit
  IsParent (some p) = IsNode p

  -- The links between the nodes of a tree.
  pub record IsWellFormed : Type 0 where
    pub placed :
        (id : String) (node : Node)
        → Dict.get tree.nodes id ≡ some node
        → IsPlaced id node node.message.parent
    pub children :
        (id : String) (node : Node)
        → Dict.get tree.nodes id ≡ some node
        → All (IsChild node) node.message.children
    pub bounded :
        (id : String) (node : Node)
        → Dict.get tree.nodes id ≡ some node
        → node.ordinal < tree.ordinal
    pub roots : All IsNode tree.root_ids

-- What is kept of a node.
pub record IsKept (node after : Node) : Type 0 where
  pub same_ordinal : after.ordinal ≡ node.ordinal
  pub kept_children :
      (c : String)
      → contains c node.message.children ≡ true
      → contains c after.message.children ≡ true

-- A tree that has all nodes of another.
pub record Extends (tree after : Tree) : Type 0 where
  pub kept :
      (id : String) (node : Node)
      → Dict.get tree.nodes id ≡ some node
      → (node' : Node) × (Dict.get after.nodes id ≡ some node') × IsKept node node'
  pub kept_roots : (r : String) → contains r tree.root_ids ≡ true → contains r after.root_ids ≡ true

module _ (tree after : Tree) (ext : Extends tree after) where
  pub IsPlaced-Extends :
      (id : String) (node node' : Node) (o : Option String)
      → node'.ordinal ≡ node.ordinal
      → IsPlaced tree id node o
      → IsPlaced after id node' o
  IsPlaced-Extends id node node' none e h = ext.kept_roots id h
  IsPlaced-Extends id node node' (some p) e (parent, found, child, older) =
      let (parent', found', k) = ext.kept p parent found in
      (parent', found', k.kept_children id child, rw (k.same_ordinal, e) older)

  pub IsChild-Extends :
      (node node' : Node) (c : String)
      → node'.ordinal ≡ node.ordinal
      → IsChild tree node c
      → IsChild after node' c
  IsChild-Extends node node' c e (child, found, younger) =
      let (child', found', k) = ext.kept c child found in
      (child', found', rw (k.same_ordinal, e) younger)

  pub IsNode-Extends : (id : String) → IsNode tree id → IsNode after id
  IsNode-Extends id (node, found) =
      let (node', found', k) = ext.kept id node found in (node', found')
