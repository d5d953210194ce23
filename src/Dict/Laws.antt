-- ===== src/Dict/Laws.antt =====
-- What a lookup finds after each operation on a dict.
use ai_proxy.Common.{
  false, Option-cases, String, ◌≡◌, refl, Bool, none, some, List, [], ◌∷◌, arith, ◌==◌, eq_iff,
  if◌then◌else◌, contains, Bool-cases, inl, inr, ◌⊎◌,
}
use ai_proxy.Dict.{Dict, get, set, pop, pop_all, set_default, update, filter_keys}

module _ {ℓ} {V : Type ℓ} where
  pub get-empty : (k : String) → get {V = V} [] k ≡ none
  unfolding get
  get-empty k = refl

  pub get-cons :
      (j k : String) (v : V) (d : Dict V)
      → get ((j, v) ∷ d) k ≡ (if j == k then some v else get d k)
  unfolding get
  get-cons j k v d = refl

  pub get-set :
      (d : Dict V) (k j : String) (v : V) → get (set d k v) j ≡ (if k == j then some v else get d j)
  unfolding get set
  get-set [] k j v = refl
  get-set ((i, w) ∷ d) k j v = ground (arith, eq_iff k j, eq_iff i k, eq_iff i j, get-set d k j v)

  pub get-pop : (d : Dict V) (k j : String) → get (pop d k) j ≡ (if k == j then none else get d j)
  unfolding get pop
  get-pop [] k j = ground arith
  get-pop ((i, w) ∷ d) k j = ground (arith, eq_iff k j, eq_iff i k, eq_iff i j, get-pop d k j)

  pub get-pop_all :
      (d : Dict V) (ks : List String) (j : String)
      → get (pop_all d ks) j ≡ (if contains j ks then none else get d j)
  unfolding pop_all
  get-pop_all d [] j = refl
  get-pop_all d (k ∷ ks) j = ground (arith, get-pop_all (pop d k) ks j, get-pop d k j)

  pub get-set_default :
      (d : Dict V) (k j : String) (v w : V) → get d k ≡ some w → get (set_default d k v) j ≡ get d j
  unfolding set_default
  get-set_default d k j v w h = ground arith

  pub get-set_default-none :
      (d : Dict V) (k j : String) (v : V)
      → get d k ≡ none
      → get (set_default d k v) j ≡ (if k == j then some v else get d j)
  unfolding set_default
  get-set_default-none d k j v h = ground (arith, get-set d k j v)

  pub get-set_default-other :
      (d : Dict V) (k j : String) (v : V) → (k == j) ≡ false → get (set_default d k v) j ≡ get d j
  get-set_default-other d k j v h = elim (Option-cases (get d k)) [
    | inl absent ↦ rw (get-set_default-none d k j v absent, h) refl
    | inr (w, found) ↦ get-set_default d k j v w found
  ]

  -- An update leaves alone what it does not name.
  pub get-update-none : (d e : Dict V) (j : String) → get e j ≡ none → get (update d e) j ≡ get d j
  unfolding update
  get-update-none d [] j h = refl
  get-update-none d ((k, v) ∷ e) j h =
      ground (arith, get-update-none (set d k v) e j, get-set d k j v, get-cons k j v e)

  pub get-filter_keys :
      (p : String → Bool) (d : Dict V) (j : String)
      → get (filter_keys p d) j ≡ (if p j then get d j else none)
  unfolding get filter_keys
  get-filter_keys p [] j = ground arith
  get-filter_keys p ((i, w) ∷ d) j = elim (Bool-cases (i == j)) [
    | inl same ↦ let e = (eq_iff i j).0 same in ground (arith, get-filter_keys p d j)
    | inr other ↦ ground (arith, get-filter_keys p d j)
  ]

-- The pair stands among the entries.
abbrev pub HasEntry : {V : Type 0} → String → V → Dict V → Type 0
HasEntry k v [] = ⊥
HasEntry k v ((j, w) ∷ d) = (j ≡ k) × (w ≡ v) ⊎ HasEntry k v d

pub get-HasEntry :
    {V : Type 0} (d : Dict V) (k : String) (v : V) → get d k ≡ some v → HasEntry k v d
unfolding get
get-HasEntry [] k v h = cc
get-HasEntry ((j, w) ∷ d) k v h = elim (Bool-cases (j == k)) [
  | inl same ↦ inl ((eq_iff j k).0 same, ground arith)
  | inr other ↦ inr (get-HasEntry d k v (rw other at h))
]

pub ruleset dict_laws = (get-empty, get-cons, get-set, get-pop, get-pop_all, get-filter_keys)
