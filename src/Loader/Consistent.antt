-- ===== src/Loader/Consistent.antt =====
-- Mappings without conflicts are consistent.
use mathlib.Core.Path.{subst}
use ai_proxy.Text.{lower}
use ai_proxy.Common.{
  String, append, eq_refl, ◌≡◌, refl, sym, ◌∙◌, inl, inr, true, false, ◌&&◌, Option, none, some,
  List, [], ◌∷◌, ◌++◌, ◌==◌, eq_iff, if◌then◌else◌, Bool-cases, Option-cases, All, arith, contains,
  length, ltb,
}
use mathlib.Core.List.{append_assoc}
use ai_proxy.Dict
use ai_proxy.Dict.{Dict}
use ai_proxy.Dict.Laws.{get-set, get-empty, HasEntry, get-HasEntry}
use ai_proxy.Mappings.{parse_mapping, strip_client_provider_suffix}
use mathlib.Core.List.{append-nil}
use ai_proxy.Loader.Conflicts.{
  QualifiedEntry, BaseEntry, Conflict, or_none, qualified_key, collect_entry, collect_entries,
  gateways_of, norm_key_of, qualified_conflicts, detect_provider_routing_conflicts,
}

-- The entries with a key, by an independent description: the mappings whose client name is qualified
-- so, in their order.
abbrev entry_if : String → String → String → Option String → List QualifiedEntry
entry_if n client_key mapping none = []
entry_if n client_key mapping (some norm_key) =
    if norm_key == n then (client_key, (parse_mapping mapping).0, mapping) ∷ [] else []

abbrev entries_of : String → Dict String → List QualifiedEntry
entries_of n [] = []
entries_of n ((client_key, mapping) ∷ model_mappings) =
    entry_if n client_key mapping (qualified_key (strip_client_provider_suffix client_key))
    ++ entries_of n model_mappings

get-collect_entry :
    (n client_key mapping : String) (o : Option String)
    (found : Dict (List QualifiedEntry) × Dict BaseEntry)
    → or_none (Dict.get (collect_entry client_key mapping o found).0 n)
      ≡ or_none (Dict.get found.0 n) ++ entry_if n client_key mapping o
get-collect_entry n client_key mapping none found = sym (append-nil _)
get-collect_entry n client_key mapping (some norm_key) found = elim (Bool-cases (norm_key == n)) [
  | inl same ↦ rw (get-set, same, ← (eq_iff norm_key n).0 same) refl
  | inr other ↦ rw (get-set, other) (sym (append-nil _))
]

get-collect_entries :
    (n : String) (model_mappings : Dict String)
    (found : Dict (List QualifiedEntry) × Dict BaseEntry)
    → or_none (Dict.get (collect_entries model_mappings found).0 n)
      ≡ or_none (Dict.get found.0 n) ++ entries_of n model_mappings
unfolding collect_entries
get-collect_entries n [] found = sym (append-nil _)
get-collect_entries n ((client_key, mapping) ∷ model_mappings) found =
    let o = qualified_key (strip_client_provider_suffix client_key) in
    get-collect_entries n model_mappings (collect_entry client_key mapping o found)
    ∙ rw (get-collect_entry n client_key mapping o found) (
        append_assoc (or_none (Dict.get found.0 n)) (entry_if n client_key mapping o)
          (entries_of n model_mappings))

abbrev pub gateway : QualifiedEntry → String
gateway (key, gw, mapping) = gw

-- All entries go to one gateway.
abbrev pub AreSame : List QualifiedEntry → Type 0
AreSame [] = Unit
AreSame (e ∷ entries) = All (λ (x : QualifiedEntry). gateway x ≡ gateway e) entries

gateways_of-grows :
    (k gw : String) (rest : List String)
    → contains k rest ≡ true
    → contains k (if contains gw rest then rest else gw ∷ rest) ≡ true
gateways_of-grows k gw rest h = elim (Bool-cases (contains gw rest)) [
  | inl there ↦ rw there h
  | inr new ↦ rw new (ground (arith, h))
]

gateways_of-All :
    (entries : List QualifiedEntry)
    → All (λ (x : QualifiedEntry). contains (gateway x) (gateways_of entries) ≡ true) entries
unfolding gateways_of
gateways_of-All [] = tt
gateways_of-All ((key, gw, mapping) ∷ entries) = (
  elim (Bool-cases (contains gw (gateways_of entries))) [
    | inl there ↦ rw there there
    | inr new ↦ rw (new, (eq_iff gw gw).1 refl) refl
  ],
  All-map (λ x. gateways_of-grows (gateway x) gw (gateways_of entries)) entries
      (gateways_of-All entries),
)
  where
    All-map :
        {P Q : QualifiedEntry → Type 0}
        → ((x : QualifiedEntry) → P x → Q x)
        → (xs : List QualifiedEntry) → All P xs
        → All Q xs
    All-map f [] h = tt
    All-map f (x ∷ xs) (p, h) = (f x p, All-map f xs h)

only-one :
    (k j : String) (gws : List String)
    → ltb 1 (length gws) ≡ false
    → contains k gws ≡ true
    → contains j gws ≡ true
    → k ≡ j
only-one k j [] n h g = absurd (cc)
only-one k j (x ∷ []) n h g =
    sym ((eq_iff x k).0 (ground (arith, h))) ∙ (eq_iff x j).0 (ground (arith, g))
only-one k j (x ∷ y ∷ gws) n h g = absurd (ground (arith, n))

All-same :
    (e : QualifiedEntry) (gws : List String) (entries : List QualifiedEntry)
    → ltb 1 (length gws) ≡ false
    → contains (gateway e) gws ≡ true
    → All (λ (x : QualifiedEntry). contains (gateway x) gws ≡ true) entries
    → All (λ (x : QualifiedEntry). gateway x ≡ gateway e) entries
All-same e gws [] n h a = tt
All-same e gws (x ∷ entries) n h (g, a) =
    (only-one (gateway x) (gateway e) gws n g h, All-same e gws entries n h a)

few-AreSame : (entries : List QualifiedEntry) → ltb 1 (length entries) ≡ false → AreSame entries
few-AreSame [] h = tt
few-AreSame (e ∷ []) h = tt
few-AreSame (e ∷ f ∷ entries) h = absurd (ground (arith, h))

gateways_of-AreSame :
    (entries : List QualifiedEntry) → ltb 1 (length (gateways_of entries)) ≡ false → AreSame entries
gateways_of-AreSame [] h = tt
gateways_of-AreSame (e ∷ entries) h =
    let all = gateways_of-All (e ∷ entries) in
    All-same e (gateways_of (e ∷ entries)) entries h all.0 all.1

qualified_conflicts-none :
    (q : Dict (List QualifiedEntry)) (n : String) (entries : List QualifiedEntry)
    → qualified_conflicts q ≡ []
    → HasEntry n entries q
    → AreSame entries
unfolding qualified_conflicts
qualified_conflicts-none [] n entries h has = absurd has
qualified_conflicts-none ((k, es) ∷ q) n entries h has =
    elim (Bool-cases (ltb 1 (length es) && ltb 1 (length (gateways_of es)))) [
      | inl conflict ↦ let g = rw conflict at h in absurd (cc)
      | inr fine ↦
          let later = rw fine at h in
          elim has [
            | inr there ↦ qualified_conflicts-none q n entries later there
            | inl (e, f) ↦ rw (← f) (elim (Bool-cases (ltb 1 (length es))) [
              | inl many ↦ gateways_of-AreSame es (rw many at fine)
              | inr few ↦ few-AreSame es few
            ])
          ]
    ]

append-nothing : (xs ys : List Conflict) → (xs ++ ys) ≡ [] → xs ≡ []
append-nothing [] ys h = refl
append-nothing (x ∷ xs) ys h = absurd (cc)

or_none-AreSame :
    (q : Dict (List QualifiedEntry)) (n : String)
    → qualified_conflicts q ≡ []
    → AreSame (or_none (Dict.get q n))
or_none-AreSame q n h = elim (Option-cases (Dict.get q n)) [
  | inl absent ↦ rw absent tt
  | inr (entries, found) ↦
      rw found (qualified_conflicts-none q n entries h (get-HasEntry q n entries found))
]

entries_of-AreSame :
    (model_mappings : Dict String) (n : String)
    → detect_provider_routing_conflicts model_mappings ≡ []
    → AreSame (entries_of n model_mappings)
unfolding detect_provider_routing_conflicts
entries_of-AreSame model_mappings n h =
    let q = (collect_entries model_mappings ([], [])).0 in
    let same = or_none-AreSame q n (append-nothing (qualified_conflicts q) _ h) in
    subst AreSame (get-collect_entries n model_mappings ([], []) ∙ rw get-empty refl) same

append-All :
    (P : QualifiedEntry → Type 0) (xs ys : List QualifiedEntry)
    → All P (xs ++ ys)
    → All P xs × All P ys
append-All P [] ys a = (tt, a)
append-All P (x ∷ xs) ys (p, a) = let (l, r) = append-All P xs ys a in ((p, l), r)

entries_of-All :
    (P : QualifiedEntry → Type 0) (model_mappings : Dict String) (n k m : String)
    → All P (entries_of n model_mappings)
    → HasEntry k m model_mappings
    → qualified_key (strip_client_provider_suffix k) ≡ some n
    → P (k, (parse_mapping m).0, m)
entries_of-All P [] n k m a has e = absurd has
entries_of-All P ((j, w) ∷ model_mappings) n k m a (inl (same, here)) e =
    let one = (append-All P _ (entries_of n model_mappings) a).0 in
    let f : qualified_key (strip_client_provider_suffix j) ≡ some n = rw same e in
    rw (← same, ← here) ((rw (f, eq_refl n) at one).0)
entries_of-All P ((j, w) ∷ model_mappings) n k m a (inr has) e =
    entries_of-All P model_mappings n k m (append-All P _ (entries_of n model_mappings) a).1 has e

AreSame-gateway :
    (entries : List QualifiedEntry)
    → AreSame entries
    → (gw : String) × All (λ (x : QualifiedEntry). gateway x ≡ gw) entries
AreSame-gateway [] h = ("", tt)
AreSame-gateway (e ∷ entries) h = (gateway e, (refl, h))

-- A mapping whose client name is qualified by a model and a provider, by their names in lower case,
-- has this gateway.
pub record GoesTo (model_mappings : Dict String) (base slug gw : String) : Type 0 where
  pub client_key : String
  pub mapping : String
  pub mapped : HasEntry client_key mapping model_mappings
  pub client_model : String
  pub provider : String
  pub others : List String
  pub qualified : strip_client_provider_suffix client_key ≡ (client_model, some (provider ∷ others))
  pub for_model : lower client_model ≡ base
  pub for_provider : lower provider ≡ slug
  pub through : (parse_mapping mapping).0 ≡ gw

-- Where no conflict is found, all mappings whose client names are qualified by one model and one
-- provider, in whatever case, go to one gateway.
pub detect_provider_routing_conflicts-GoesTo :
    (model_mappings : Dict String) (base slug gw gw' : String)
    → detect_provider_routing_conflicts model_mappings ≡ []
    → GoesTo model_mappings base slug gw
    → GoesTo model_mappings base slug gw'
    → gw ≡ gw'
unfolding norm_key_of
detect_provider_routing_conflicts-GoesTo model_mappings base slug gw gw' h g g' =
    let (one, same) =
      AreSame-gateway _ (entries_of-AreSame model_mappings (append base (append "+" slug)) h) in
    sym g.through ∙ goes one same gw g ∙ sym (goes one same gw' g') ∙ g'.through
  where
    goes :
        (one : String)
        → All
            (λ (x : QualifiedEntry). gateway x ≡ one)
            (entries_of (append base (append "+" slug)) model_mappings)
        → (gw : String) (g : GoesTo model_mappings base slug gw) → (parse_mapping g.mapping).0 ≡ one
    goes one same gw g =
        entries_of-All (λ (x : QualifiedEntry). gateway x ≡ one) model_mappings
          (append base (append "+" slug)) g.client_key g.mapping same g.mapped
          (rw (g.qualified, g.for_model, g.for_provider) refl)
