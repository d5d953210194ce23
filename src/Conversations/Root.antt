-- ===== src/Conversations/Root.antt =====
-- A first message keeps the tree of a conversation well formed.
use mathlib.Core.Path.{subst}
use ai_proxy.Common.{
  ◌+◌, String, ◌≡◌, refl, sym, ap, ◌∙◌, inl, inr, false, Option, none, some, [], ◌==◌, eq_iff,
  Bool-cases, arith,
}
use ai_proxy.Dict
use ai_proxy.Dict.{Dict}
use ai_proxy.Dict.Laws.{get-set}
use ai_proxy.Conversations.Entries.{Node, Tree}
use ai_proxy.Conversations.Tree.{append_new}
use ai_proxy.Conversations.Nodes.{
  contains-append_new, append_new_self, All-append_new, All-map, set-cases, IsPlaced, IsChild,
  IsNode, IsWellFormed, Extends, IsPlaced-Extends, IsChild-Extends, IsNode-Extends,
}
use ai_proxy.Conversations.Touched.{get-set-same}

-- A new node is put among the nodes.
module _ (tree : Tree) (id : String) (entry : Node) (absent : Dict.get tree.nodes id ≡ none) where
  pub other_key : (x : String) (n : Node) → Dict.get tree.nodes x ≡ some n → (id == x) ≡ false
  other_key x n h = elim (Bool-cases (id == x)) [
    | inl same ↦
        let e = (eq_iff id x).0 same in
        let f : Path (Option Node) none (some n) = sym absent ∙ ap (Dict.get tree.nodes) e ∙ h in
        absurd (cc)
    | inr other ↦ other
  ]

  pub get-added :
      (x : String) (n : Node)
      → Dict.get tree.nodes x ≡ some n
      → Dict.get (Dict.set tree.nodes id entry) x ≡ some n
  get-added x n h = get-set tree.nodes id x entry ∙ rw (other_key x n h) h

  abbrev pub root_added : Tree
  root_added = record {
    nodes = Dict.set tree.nodes id entry;
    root_ids = append_new tree.root_ids id;
    ordinal = tree.ordinal + 1;
  }

  pub root_added-Extends : Extends tree root_added
  root_added-Extends = record {
    kept = λ x n h. (n, get-added x n h, record { same_ordinal = refl; kept_children = λ c m. m });
    kept_roots = λ r m. contains-append_new r tree.root_ids id m;
  }

  pub root_added-IsWellFormed :
      entry.message.parent ≡ none
      → entry.message.children ≡ []
      → entry.ordinal ≡ tree.ordinal
      → IsWellFormed tree
      → IsWellFormed root_added
  root_added-IsWellFormed no_parent no_children newest wf =
      let ext = root_added-Extends in
      record {
        placed = λ x n h. elim (set-cases tree.nodes id x entry n h) [
          | inl (e, f) ↦
              let root : IsPlaced root_added id entry none = append_new_self tree.root_ids id in
              rw (← e, f)
                (subst (λ (o : Option String). IsPlaced root_added id entry o) (sym no_parent) root)
          | inr (other, before) ↦
              IsPlaced-Extends tree root_added ext x n n n.message.parent refl
                (wf.placed x n before)
        ];
        children = λ x n h. elim (set-cases tree.nodes id x entry n h) [
          | inl (e, f) ↦ rw (f, no_children) tt
          | inr (other, before) ↦
              All-map (IsChild tree n) (IsChild root_added n)
                (λ c. IsChild-Extends tree root_added ext n n c refl) n.message.children
                (wf.children x n before)
        ];
        bounded = λ x n h. elim (set-cases tree.nodes id x entry n h) [
          | inl (e, f) ↦ rw (f, newest) (omega arith)
          | inr (other, before) ↦ omega (arith, wf.bounded x n before)
        ];
        roots =
            All-append_new (IsNode root_added) tree.root_ids id
              (All-map (IsNode tree) (IsNode root_added) (IsNode-Extends tree root_added ext)
                tree.root_ids wf.roots)
              (entry, get-set-same tree.nodes id entry);
      }
