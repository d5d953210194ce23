-- ===== src/Conversations/Child.antt =====
-- A message under another keeps the tree of a conversation well formed.
use mathlib.Core.Path.{subst}
use ai_proxy.Common.{
  ◌+◌, ◌<◌, String, ◌≡◌, refl, sym, ap, ◌∙◌, ◌⊎◌, inl, inr, Option, none, some, [], ◌==◌, eq_iff,
  Bool-cases, arith,
}
use ai_proxy.Dict
use ai_proxy.Dict.{Dict}
use ai_proxy.Dict.Laws.{get-set}
use ai_proxy.Conversations.Entries.{Node, Tree}
use ai_proxy.Conversations.Tree.{with_child}
use ai_proxy.Conversations.Nodes.{
  contains-append_new, append_new_self, All-append_new, All-map, set-cases, IsPlaced, IsChild,
  IsNode, IsWellFormed, IsKept, Extends, IsPlaced-Extends, IsChild-Extends, IsNode-Extends,
}
use ai_proxy.Conversations.Touched.{get-set-same}
use ai_proxy.Conversations.Root.{get-added}

module _ (tree : Tree) (id : String) (entry : Node) (absent : Dict.get tree.nodes id ≡ none) where
  module _ (p : String) (parent : Node) (found : Dict.get tree.nodes p ≡ some parent) where
    abbrev pub child_added : Tree
    child_added = record {
      nodes = Dict.set (Dict.set tree.nodes id entry) p (with_child id parent);
      root_ids = tree.root_ids;
      ordinal = tree.ordinal + 1;
    }

    child_added-IsKept : IsKept parent (with_child id parent)
    unfolding with_child
    child_added-IsKept = record {
      same_ordinal = refl;
      kept_children = λ c m. contains-append_new c parent.message.children id m;
    }

    pub child_added-entry : Dict.get child_added.nodes id ≡ some entry
    child_added-entry = elim (Bool-cases (p == id)) [
      | inl same ↦
          let e = ap (Dict.get tree.nodes) ((eq_iff p id).0 same) in
          let f : Path (Option Node) none (some parent) = sym absent ∙ sym e ∙ found in absurd (cc)
      | inr other ↦
          get-set (Dict.set tree.nodes id entry) p id (with_child id parent)
          ∙ rw other (get-set-same tree.nodes id entry)
    ]

    pub child_added-Extends : Extends tree child_added
    child_added-Extends = record {
      kept = λ x n h. elim (Bool-cases (p == x)) [
        | inl same ↦
            let e = (eq_iff p x).0 same in
            let f : Path (Option Node) (some n) (some parent) =
              sym h ∙ ap (Dict.get tree.nodes) (sym e) ∙ found in
            let g : n ≡ parent = cc in
            (
              with_child id parent,
              get-set (Dict.set tree.nodes id entry) p x (with_child id parent) ∙ rw same refl,
              rw g child_added-IsKept,
            )
        | inr other ↦ (
          n,
          get-set (Dict.set tree.nodes id entry) p x (with_child id parent)
              ∙ rw other (get-added tree id entry absent x n h),
          record { same_ordinal = refl; kept_children = λ c m. m },
        )
      ];
      kept_roots = λ r m. m;
    }

    -- A node of the new tree is the parent with its child, the new node or one that was there.
    pub child_added-cases :
        (x : String) (n : Node)
        → Dict.get child_added.nodes x ≡ some n
        → ((p ≡ x) × (n ≡ with_child id parent))
          ⊎ (((id ≡ x) × (n ≡ entry)) ⊎ (Dict.get tree.nodes x ≡ some n))
    child_added-cases x n h =
        elim (set-cases (Dict.set tree.nodes id entry) p x (with_child id parent) n h) [
          | inl e ↦ inl e
          | inr (other, before) ↦ elim (set-cases tree.nodes id x entry n before) [
            | inl e ↦ inr (inl e)
            | inr (other', there) ↦ inr (inr there)
          ]
        ]

    pub child_added-IsWellFormed :
        entry.message.parent ≡ some p
        → entry.message.children ≡ []
        → entry.ordinal ≡ tree.ordinal
        → IsWellFormed tree
        → IsWellFormed child_added
    unfolding with_child
    child_added-IsWellFormed its_parent no_children newest wf =
        let ext = child_added-Extends in
        let older : parent.ordinal < entry.ordinal = rw newest (wf.bounded p parent found) in
        record {
          placed = λ x n h. elim (child_added-cases x n h) [
            | inl (e, f) ↦
                rw (← e, f)
                  (IsPlaced-Extends tree child_added ext p parent (with_child id parent)
                    parent.message.parent refl (wf.placed p parent found))
            | inr (inl (e, f)) ↦
                let child : IsPlaced child_added id entry (some p) = (
                  with_child id parent,
                  get-set-same (Dict.set tree.nodes id entry) p (with_child id parent),
                  append_new_self parent.message.children id,
                  older,
                ) in
                rw (← e, f)
                  (subst (λ (o : Option String). IsPlaced child_added id entry o) (sym its_parent)
                    child)
            | inr (inr before) ↦
                IsPlaced-Extends tree child_added ext x n n n.message.parent refl
                  (wf.placed x n before)
          ];
          children = λ x n h. elim (child_added-cases x n h) [
            | inl (e, f) ↦ rw f (
                All-append_new (IsChild child_added (with_child id parent)) parent.message.children
                  id
                  (All-map (IsChild tree parent) (IsChild child_added (with_child id parent))
                    (λ c. IsChild-Extends tree child_added ext parent (with_child id parent) c refl)
                    parent.message.children (wf.children p parent found))
                  (entry, child_added-entry, older))
            | inr (inl (e, f)) ↦ rw (f, no_children) tt
            | inr (inr before) ↦
                All-map (IsChild tree n) (IsChild child_added n)
                  (λ c. IsChild-Extends tree child_added ext n n c refl) n.message.children
                  (wf.children x n before)
          ];
          bounded = λ x n h. elim (child_added-cases x n h) [
            | inl (e, f) ↦ rw f (omega (arith, wf.bounded p parent found))
            | inr (inl (e, f)) ↦ rw (f, newest) (omega arith)
            | inr (inr before) ↦ omega (arith, wf.bounded x n before)
          ];
          roots =
              All-map (IsNode tree) (IsNode child_added) (IsNode-Extends tree child_added ext)
                tree.root_ids wf.roots;
        }
