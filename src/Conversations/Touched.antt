-- ===== src/Conversations/Touched.antt =====
-- A message that comes up again keeps the tree of a conversation well formed.
use ai_proxy.Common.{
  String, ◌≡◌, refl, sym, ap, ◌∙◌, inl, inr, Option, some, ◌==◌, eq_iff, eq_refl, Bool-cases, All,
}
use ai_proxy.Dict
use ai_proxy.Dict.{Dict}
use ai_proxy.Dict.Laws.{get-set}
use ai_proxy.Conversations.Entries.{Node, Tree}
use ai_proxy.Conversations.Nodes.{
  All-map, set-cases, IsChild, IsNode, IsWellFormed, IsKept, Extends, IsPlaced-Extends,
  IsChild-Extends, IsNode-Extends,
}

pub get-set-same : (d : Dict Node) (k : String) (v : Node) → Dict.get (Dict.set d k v) k ≡ some v
get-set-same d k v = get-set d k k v ∙ rw (eq_refl k) refl

-- A node is written over by one that keeps what it has.
module _ (tree : Tree) (id : String) (node node' : Node)
    (found : Dict.get tree.nodes id ≡ some node) where
  abbrev pub touched : Tree
  touched = record tree { nodes = Dict.set tree.nodes id node' }

  pub touched-Extends : IsKept node node' → Extends tree touched
  touched-Extends k = record {
    kept = λ x n h. elim (Bool-cases (id == x)) [
      | inl same ↦
          let e = (eq_iff id x).0 same in
          let f : Path (Option Node) (some n) (some node) =
            sym h ∙ ap (Dict.get tree.nodes) (sym e) ∙ found in
          let g : n ≡ node = cc in (node', get-set tree.nodes id x node' ∙ rw same refl, rw g k)
      | inr other ↦ (
        n,
        get-set tree.nodes id x node' ∙ rw other h,
        record { same_ordinal = refl; kept_children = λ c m. m },
      )
    ];
    kept_roots = λ r m. m;
  }

  pub touched-IsWellFormed :
      IsKept node node'
      → node'.message.parent ≡ node.message.parent
      → All (IsChild touched node') node'.message.children
      → IsWellFormed tree
      → IsWellFormed touched
  touched-IsWellFormed k same_parent new_children wf =
      let ext = touched-Extends k in
      record {
        placed = λ x n h. elim (set-cases tree.nodes id x node' n h) [
          | inl (e, f) ↦
              let was =
                IsPlaced-Extends tree touched ext id node node' node.message.parent k.same_ordinal
                  (wf.placed id node found) in
              rw (← e, f) (rw (← same_parent) at was)
          | inr (other, before) ↦
              IsPlaced-Extends tree touched ext x n n n.message.parent refl (wf.placed x n before)
        ];
        children = λ x n h. elim (set-cases tree.nodes id x node' n h) [
          | inl (e, f) ↦ rw f new_children
          | inr (other, before) ↦
              All-map (IsChild tree n) (IsChild touched n)
                (λ c. IsChild-Extends tree touched ext n n c refl) n.message.children
                (wf.children x n before)
        ];
        bounded = λ x n h. elim (set-cases tree.nodes id x node' n h) [
          | inl (e, f) ↦ rw (f, k.same_ordinal) (wf.bounded id node found)
          | inr (other, before) ↦ wf.bounded x n before
        ];
        roots =
            All-map (IsNode tree) (IsNode touched) (IsNode-Extends tree touched ext) tree.root_ids
              wf.roots;
      }
