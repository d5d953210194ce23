-- ===== src/Masking.antt =====
-- logging/masking.py: what is left readable in the log.
pub mod Laws
use Prim.Native.Char.{Char, code}
use Prim.Native.String
use Prim.Native.String.{count}
use ai_proxy.Common.{
  ℕ, zero, suc, ◌-◌, String, append, Bool, true, false, ◌||◌, List, [], ◌∷◌, ◌==◌, if◌then◌else◌,
  leb, any,
}
use ai_proxy.Dict
use ai_proxy.Text.{lower, has_infix}
use ai_proxy.Json.{
  Json, null, bool, int, float, str, arr, obj, Elems, nil, cons, Fields, end, field, truthy,
  JsonObject,
}

-- `MASK_PATTERNS.search(k)`
unfoldable pub is_sensitive : String → Bool
unfolding has_infix lower
is_sensitive k =
    any (λ word. has_infix word (lower k))
      ("key" ∷ "token" ∷ "secret" ∷ "password" ∷ "authorization" ∷ [])

-- `s[:n]`
unfoldable pub take_chars : ℕ → String → String
take_chars zero s = ""
take_chars (suc n) String.[] = ""
take_chars (suc n) (String.◌∷◌ c s) = String.◌∷◌ c (take_chars n s)

-- `s[n:]`
unfoldable pub drop_chars : ℕ → String → String
drop_chars zero s = s
drop_chars (suc n) String.[] = ""
drop_chars (suc n) (String.◌∷◌ c s) = drop_chars n s

-- `"*" * n`
unfoldable pub stars : ℕ → String
stars zero = ""
stars (suc n) = String.◌∷◌ "*" (stars n)

unfoldable pub mask_api_key : String → String
unfolding take_chars drop_chars stars
mask_api_key value =
    if leb (count value) 6
    then "***"
    else append (take_chars 3 value)
        (append (stars (count value - 6)) (drop_chars (count value - 3) value))

-- A text under a sensitive name is masked, whatever it holds; any other value is searched.
unfoldable mutual
  pub mask_sensitive_fields : Json → Json
  mask_sensitive_fields (arr items) = arr (mask_items items)
  mask_sensitive_fields (obj fields) = obj (mask_fields fields)
  mask_sensitive_fields v = v

  pub mask_items : Elems → Elems
  mask_items nil = nil
  mask_items (cons v vs) = cons (mask_sensitive_fields v) (mask_items vs)

  pub mask_fields : Fields → Fields
  mask_fields end = end
  mask_fields (field k (str s) fs) =
      field k (str (if is_sensitive k then mask_api_key s else s)) (mask_fields fs)
  mask_fields (field k v fs) = field k (mask_sensitive_fields v) (mask_fields fs)

-- The headers that the backend logs hold texts alone: `str(v)` is the value, and an empty one stays.
unfoldable pub mask_headers : Dict.Dict String → Dict.Dict String
unfolding is_sensitive mask_api_key
mask_headers [] = []
mask_headers ((k, v) ∷ headers) =
    (k, if is_sensitive k then (if v == "" then v else mask_api_key v) else v)
    ∷ mask_headers headers
