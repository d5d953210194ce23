-- ===== src/Dict.antt =====
-- Python's `dict` with texts for keys: entries in insertion order. A write to a present key keeps
-- its place, a write to an absent key goes to the end.
pub mod Laws
use ai_proxy.Common.{
  String, Bool, true, false, Option, none, some, List, [], ◌∷◌, ◌==◌, if◌then◌else◌, is_none, not,
}

abbrev pub Dict {ℓ} : Type ℓ → Type ℓ
Dict V = List (String × V)

module _ {ℓ} {V : Type ℓ} where
  -- `d.get(k)`
  unfoldable pub get : Dict V → String → Option V
  get [] k = none
  get ((j, v) ∷ d) k = if j == k then some v else get d k

  -- `k in d`
  abbrev pub contains : Dict V → String → Bool
  contains d k = not (is_none (get d k))

  -- `d[k] = v`
  unfoldable pub set : Dict V → String → V → Dict V
  set [] k v = (k, v) ∷ []
  set ((j, w) ∷ d) k v = if j == k then (k, v) ∷ d else (j, w) ∷ set d k v

  -- `d.pop(k, None)`, as the dict that is left
  unfoldable pub pop : Dict V → String → Dict V
  pop [] k = []
  pop ((j, w) ∷ d) k = let rest = pop d k in if j == k then rest else (j, w) ∷ rest

  -- `for k in ks: d.pop(k, None)`
  unfoldable pub pop_all : Dict V → List String → Dict V
  pop_all d [] = d
  pop_all d (k ∷ ks) = pop_all (pop d k) ks

  abbrev set_missing : Option V → Dict V → String → V → Dict V
  set_missing none d k v = set d k v
  set_missing (some w) d k v = d

  -- `d.setdefault(k, v)`, as the dict that is left
  unfoldable pub set_default : Dict V → String → V → Dict V
  set_default d k v = set_missing (get d k) d k v

  -- `d.update(e)`
  unfoldable pub update : Dict V → Dict V → Dict V
  update d [] = d
  update d ((k, v) ∷ e) = update (set d k v) e

  -- `{k: v for k, v in d.items() if p(k)}`
  unfoldable pub filter_keys : (String → Bool) → Dict V → Dict V
  filter_keys p [] = []
  filter_keys p ((k, v) ∷ d) = let rest = filter_keys p d in if p k then (k, v) ∷ rest else rest

  abbrev pub keys : Dict V → List String
  keys [] = []
  keys ((k, v) ∷ d) = k ∷ keys d
