-- ===== src/Json/Laws.antt =====
-- The two views of an object and of an array say the same.
use ai_proxy.Common.{◌≡◌, refl, ap, List, [], ◌∷◌}
use ai_proxy.Json.{
  Json, JsonObject, to_list, from_list, to_dict, from_dict, Fields, end, field, Elems, nil, cons,
}

pub to_list-from_list : (vs : List Json) → to_list (from_list vs) ≡ vs
to_list-from_list [] = refl
to_list-from_list (v ∷ vs) = ap (λ (l : List Json). v ∷ l) (to_list-from_list vs)

pub to_dict-from_dict : (d : JsonObject) → to_dict (from_dict d) ≡ d
to_dict-from_dict [] = refl
to_dict-from_dict ((k, v) ∷ d) = ap (λ (l : JsonObject). (k, v) ∷ l) (to_dict-from_dict d)

pub from_list-to_list : (vs : Elems) → from_list (to_list vs) ≡ vs
from_list-to_list nil = refl
from_list-to_list (cons v vs) = ap (cons v) (from_list-to_list vs)

pub from_dict-to_dict : (fs : Fields) → from_dict (to_dict fs) ≡ fs
from_dict-to_dict end = refl
from_dict-to_dict (field k v fs) = ap (field k v) (from_dict-to_dict fs)

pub ruleset json_laws = (to_list-from_list, to_dict-from_dict)
