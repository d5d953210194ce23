-- ===== src/Conversations/Visits.antt =====
-- What a walk through a tree of messages has visited.
use ai_proxy.Common.{
  String, ◌≡◌, refl, sym, ap, ◌∙◌, ◌⊎◌, inl, inr, true, false, Option, some, List, [], ◌∷◌, ◌++◌,
  ◌==◌, eq_iff, contains, Bool-cases, All, arith,
}
use ai_proxy.Dict
use ai_proxy.Dict.{Dict}
use ai_proxy.Conversations.Entries.{Node, Tree, Message}
use ai_proxy.Conversations.Tree.{Walk, visit}
use ai_proxy.Conversations.Nodes.{contains-append, All-map}

contains-append-cases :
    (k : String) (xs : List String) (x : String)
    → contains k (xs ++ x ∷ []) ≡ true
    → (contains k xs ≡ true) ⊎ (x ≡ k)
contains-append-cases k [] x h = inr ((eq_iff x k).0 (ground (arith, h)))
contains-append-cases k (y ∷ xs) x h = elim (Bool-cases (y == k)) [
  | inl same ↦ inl (rw same refl)
  | inr other ↦ elim (contains-append-cases k xs x (rw other at h)) [
    | inl there ↦ inl (rw (other, there) refl)
    | inr e ↦ inr e
  ]
]

-- Each text is there once.
abbrev pub AreUnique : List String → Type 0
AreUnique [] = Unit
AreUnique (x ∷ xs) = (contains x xs ≡ false) × AreUnique xs

AreUnique-append :
    (xs : List String) (x : String)
    → contains x xs ≡ false
    → AreUnique xs
    → AreUnique (xs ++ x ∷ [])
AreUnique-append [] x h u = (refl, tt)
AreUnique-append (y ∷ xs) x h (n, u) = (
  elim (Bool-cases (contains y (xs ++ x ∷ []))) [
    | inr new ↦ new
    | inl there ↦ elim (contains-append-cases y xs x there) [
      | inl e ↦ absurd (cc)
      | inr e ↦
          let f : (y == x) ≡ true = (eq_iff y x).1 (sym e) in
          let g : contains x (y ∷ xs) ≡ true = rw f refl in absurd (cc)
    ]
  ],
  AreUnique-append xs x (ground (arith, h)) u,
)

module _ (tree : Tree) where
  -- All children of a node have been visited.
  abbrev pub AreVisited : List String → List String → Type 0
  AreVisited children visited = All (λ (c : String). contains c visited ≡ true) children

  abbrev pub IsClosedAt : List String → String → Type 0
  IsClosedAt visited x =
      (node : Node) → Dict.get tree.nodes x ≡ some node → AreVisited node.message.children visited

  -- What a walk from a state does: it visits more, with all children of what it visits, and gives a
  -- message for each node that it visits.
  pub record IsWalked (before after : Walk) : Type 0 where
    pub grows : (x : String) → contains x before.visited ≡ true → contains x after.visited ≡ true
    pub closed :
        (x : String)
        → contains x after.visited ≡ true
        → (contains x before.visited ≡ true) ⊎ IsClosedAt after.visited x

  AreVisited-grows :
      (children visited visited' : List String)
      → ((x : String) → contains x visited ≡ true → contains x visited' ≡ true)
      → AreVisited children visited
      → AreVisited children visited'
  AreVisited-grows children visited visited' g =
      All-map (λ c. contains c visited ≡ true) (λ c. contains c visited' ≡ true) g children

  pub IsWalked-refl : (w : Walk) → IsWalked w w
  IsWalked-refl w = record { grows = λ x h. h; closed = λ x h. inl h }

  pub IsWalked-trans : (u v w : Walk) → IsWalked u v → IsWalked v w → IsWalked u w
  IsWalked-trans u v w f g = record {
    grows = λ x h. g.grows x (f.grows x h);
    closed = λ x h. elim (g.closed x h) [
      | inr c ↦ inr c
      | inl seen ↦ elim (f.closed x seen) [
        | inl before ↦ inl before
        | inr c ↦ inr (λ node found.
            AreVisited-grows node.message.children v.visited w.visited g.grows (c node found))
      ]
    ];
  }

  -- The messages are those of the nodes.
  abbrev pub AreMessages : List String → List Message → Type 0
  AreMessages [] [] = Unit
  AreMessages (id ∷ ids) (m ∷ ms) =
      ((node : Node) × (Dict.get tree.nodes id ≡ some node) × (node.message ≡ m))
      × AreMessages ids ms
  AreMessages _ _ = ⊥

  AreMessages-append :
      (ids : List String) (ms : List Message) (id : String) (node : Node)
      → Dict.get tree.nodes id ≡ some node
      → AreMessages ids ms
      → AreMessages (ids ++ id ∷ []) (ms ++ node.message ∷ [])
  AreMessages-append [] [] id node e h = ((node, e, refl), tt)
  AreMessages-append [] (m ∷ ms) id node e h = absurd h
  AreMessages-append (i ∷ ids) [] id node e h = absurd h
  AreMessages-append (i ∷ ids) (m ∷ ms) id node e (f, h) =
      (f, AreMessages-append ids ms id node e h)

  pub record IsWalk (w : Walk) : Type 0 where
    pub unique : AreUnique w.visited
    pub messages : AreMessages w.visited w.result

  pub visit-IsWalk :
      (id : String) (node : Node) (w : Walk)
      → Dict.get tree.nodes id ≡ some node
      → contains id w.visited ≡ false
      → IsWalk w
      → IsWalk (visit id node w)
  visit-IsWalk id node w found new i = record {
    unique = AreUnique-append w.visited id new i.unique;
    messages = AreMessages-append w.visited w.result id node found i.messages;
  }

  pub visited-IsWalked :
      (id : String) (node : Node) (w after : Walk)
      → Dict.get tree.nodes id ≡ some node
      → IsWalked (visit id node w) after
      → AreVisited node.message.children after.visited
      → IsWalked w after
  visited-IsWalked id node w after found walked children = record {
    grows = λ x h. walked.grows x (contains-append x w.visited (id ∷ []) h);
    closed = λ x h. elim (walked.closed x h) [
      | inr c ↦ inr c
      | inl seen ↦ elim (contains-append-cases x w.visited id seen) [
        | inl before ↦ inl before
        | inr e ↦ inr (λ node' found'.
            let f : Path (Option Node) (some node') (some node) =
              sym found' ∙ ap (Dict.get tree.nodes) (sym e) ∙ found in
            let g : node' ≡ node = cc in rw g children)
      ]
    ];
  }
