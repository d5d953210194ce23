-- ===== src/Json.antt =====
-- JSON values as Python holds them: the aliases of types.py. An object keeps the order of its
-- entries. A float is the bit pattern of its binary64 representation.
pub mod Laws
use mathlib.Core.Option
use ai_proxy.Common.{
  ℕ, zero, ◌%◌, ◌^◌, String, Bool, true, false, not, ◌&&◌, Option, none, some, List, [], ◌∷◌, ◌==◌,
  nat_eq, ◌>>=◌,
}
use ai_proxy.Dict
use ai_proxy.Dict.{Dict}

-- `negsuc n` is -(n + 1).
pub data ℤ : Type 0 where
  pos : ℕ → ℤ
  negsuc : ℕ → ℤ

mutual
  pub data Json : Type 0 where
    null : Json
    bool : Bool → Json
    int : ℤ → Json
    float : ℕ → Json
    str : String → Json
    arr : Elems → Json
    obj : Fields → Json

  pub data Elems : Type 0 where
    nil : Elems
    cons : Json → Elems → Elems

  pub data Fields : Type 0 where
    end : Fields
    field : String → Json → Fields → Fields

abbrev pub JsonObject : Type 0
JsonObject = Dict Json

abbrev pub to_list : Elems → List Json
to_list nil = []
to_list (cons v vs) = v ∷ to_list vs

abbrev pub from_list : List Json → Elems
from_list [] = nil
from_list (v ∷ vs) = cons v (from_list vs)

abbrev pub to_dict : Fields → JsonObject
to_dict end = []
to_dict (field k v fs) = (k, v) ∷ to_dict fs

abbrev pub from_dict : JsonObject → Fields
from_dict [] = end
from_dict ((k, v) ∷ d) = field k v (from_dict d)

abbrev pub array : List Json → Json
array vs = arr (from_list vs)

abbrev pub object : JsonObject → Json
object d = obj (from_dict d)

-- `v if isinstance(v, dict)`
abbrev pub as_object : Json → Option JsonObject
as_object (obj fs) = some (to_dict fs)
as_object _ = none

-- `v if isinstance(v, list)`
abbrev pub as_array : Json → Option (List Json)
as_array (arr vs) = some (to_list vs)
as_array _ = none

-- `v if isinstance(v, str)`
abbrev pub as_str : Json → Option String
as_str (str s) = some s
as_str _ = none

-- `v if isinstance(v, int)`: a `bool` is an `int` too.
abbrev pub as_int : Json → Option ℤ
as_int (int n) = some n
as_int (bool true) = some (pos 1)
as_int (bool false) = some (pos 0)
as_int _ = none

-- `bool(v)`. The two zeros of a float are 0 and 2 ^ 63.
unfoldable pub truthy : Json → Bool
truthy null = false
truthy (bool b) = b
truthy (int (pos zero)) = false
truthy (int n) = true
truthy (float bits) = not (nat_eq (bits % 2 ^ 63) 0)
truthy (str s) = not (s == "")
truthy (arr nil) = false
truthy (arr vs) = true
truthy (obj end) = false
truthy (obj fs) = true

-- `v = d.get(k)` with `v if isinstance(v, dict)`, and so for a list, a text, an integer
abbrev pub get_object : JsonObject → String → Option JsonObject
get_object d k = Dict.get d k >>= as_object

abbrev pub get_array : JsonObject → String → Option (List Json)
get_array d k = Dict.get d k >>= as_array

abbrev pub get_str : JsonObject → String → Option String
get_str d k = Dict.get d k >>= as_str

abbrev pub get_int : JsonObject → String → Option ℤ
get_int d k = Dict.get d k >>= as_int

abbrev value_truthy : Option Json → Bool
value_truthy none = false
value_truthy (some v) = truthy v

-- `bool(d.get(k))`
unfoldable pub get_truthy : JsonObject → String → Bool
unfolding truthy
get_truthy d k = value_truthy (Dict.get d k)
