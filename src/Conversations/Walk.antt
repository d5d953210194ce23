-- ===== src/Conversations/Walk.antt =====
-- The walk through a tree of messages ends.
use ai_proxy.Common.{
  ℕ, zero, suc, ◌+◌, ◌≤◌, String, ◌≡◌, refl, inl, inr, Option, some, List, [], ◌∷◌, contains,
  Bool-cases, All, arith,
}
use ai_proxy.Dict
use ai_proxy.Dict.{Dict}
use ai_proxy.Conversations.Entries.{Node, Tree}
use ai_proxy.Conversations.Tree.{Walk, walk, walk_each, visit}
use ai_proxy.Conversations.Nodes.{
  contains-append_right, contains_self, All-map, IsChild, IsWellFormed,
}
use ai_proxy.Conversations.Visits.{
  AreVisited, IsWalked, IsWalk, IsWalked-refl, IsWalked-trans, visit-IsWalk, visited-IsWalked,
}

module _ (tree : Tree) where
  -- A walk that ends, having visited the nodes that it was for.
  pub record Ends (w : Walk) (ids : List String) (result : Option Walk) : Type 0 where
    pub after : Walk
    pub made : result ≡ some after
    pub walked : IsWalked tree w after
    pub is_walk : IsWalk tree after
    pub visited : AreVisited tree ids after.visited

  -- A node from which the fuel is enough.
  abbrev pub IsNear : ℕ → String → Type 0
  IsNear fuel id =
      (node : Node) × (Dict.get tree.nodes id ≡ some node) × (tree.ordinal ≤ node.ordinal + fuel)

  pub walk_each-Ends :
      (fuel : ℕ)
      → ((id : String) (w : Walk)
          → IsNear fuel id
          → IsWalk tree w
          → Ends w (id ∷ []) (walk fuel tree.nodes id w))
      → (ids : List String) (w : Walk) → All (IsNear fuel) ids
      → IsWalk tree w
      → Ends w ids (walk_each (walk fuel tree.nodes) ids w)
  unfolding walk_each
  walk_each-Ends fuel one [] w n i = record {
    after = w;
    made = refl;
    walked = IsWalked-refl tree w;
    is_walk = i;
    visited = tt;
  }
  walk_each-Ends fuel one (id ∷ ids) w (near, n) i =
      let first = one id w near i in
      let rest = walk_each-Ends fuel one ids first.after n first.is_walk in
      record {
        after = rest.after;
        made = rw first.made rest.made;
        walked = IsWalked-trans tree w first.after rest.after first.walked rest.walked;
        is_walk = rest.is_walk;
        visited = (rest.walked.grows id first.visited.0, rest.visited);
      }

  module _ (wf : IsWellFormed tree) where
    pub walk-Ends :
        (fuel : ℕ) (id : String) (w : Walk)
        → IsNear fuel id
        → IsWalk tree w
        → Ends w (id ∷ []) (walk fuel tree.nodes id w)
    unfolding walk
    walk-Ends zero id w (node, found, near) i =
        let bound = wf.bounded id node found in absurd (omega (arith, bound, near))
    walk-Ends (suc fuel) id w (node, found, near) i = elim (Bool-cases (contains id w.visited)) [
      | inl seen ↦
          rw (walk, seen)
            (record {
              after = w;
              made = refl;
              walked = IsWalked-refl tree w;
              is_walk = i;
              visited = (seen, tt);
            })
      | inr new ↦
          let near_children =
            All-map (IsChild tree node) (IsNear fuel)
              (λ c (child, there, younger). (child, there, omega (arith, near, younger)))
              node.message.children (wf.children id node found) in
          let rest =
            walk_each-Ends fuel (walk-Ends fuel) node.message.children (visit id node w)
              near_children (visit-IsWalk tree id node w found new i) in
          record {
            after = rest.after;
            made = rw (walk, new, found) rest.made;
            walked = visited-IsWalked tree id node w rest.after found rest.walked rest.visited;
            is_walk = rest.is_walk;
            visited = (
              rest.walked.grows id
                  (contains-append_right id w.visited (id ∷ []) (contains_self id)),
              tt,
            );
          }
    ]
