-- ===== src/Merging.antt =====
-- The merging of deltas in api/proxy/streaming.py: `_merge_delta`, `_merge_list_field` and
-- `_deep_merge_item`. A step gives what it leaves, with whether it went through, since it raises where
-- the code adds a text to a value that is none.
use ai_proxy.Common.{
  String, append, Bool, true, false, Option, none, some, List, [], ◌∷◌, ◌++◌, ◌==◌, if◌then◌else◌,
  nat_eq, contains, ◌>>=◌,
}
use ai_proxy.Dict
use ai_proxy.Dict.{Dict}
use ai_proxy.Json.{
  ℤ, pos, negsuc, Json, null, str, arr, obj, array, object, as_object, as_int, Fields, end, field,
  to_list, to_dict, get_object, get_array, JsonObject,
}

unfoldable pub int_eq : ℤ → ℤ → Bool
int_eq (pos m) (pos n) = nat_eq m n
int_eq (negsuc m) (negsuc n) = nat_eq m n
int_eq _ _ = false

-- Equality of two values of `index`, integers or texts.
abbrev same_index : Json → Json → Bool
same_index (str s) v = elim v [ str t ↦ s == t | _ ↦ false ]
same_index u v = elim (as_int u) [
  | none ↦ false
  | some m ↦ (elim (as_int v) [ none ↦ false | some n ↦ int_eq m n ])
]

abbrev pub string_merge_keys : List String
string_merge_keys = "content" ∷ "reasoning_content" ∷ "reasoning" ∷ "refusal" ∷ []

abbrev list_item_concat_keys : List String
list_item_concat_keys = "arguments" ∷ "summary" ∷ "text" ∷ []

abbrev merge_text : Bool → Option Json → String → Json
merge_text true (some (str old)) new = str (append old new)
merge_text _ _ new = str new

-- `_deep_merge_item(target, source)`
unfoldable deep_merge_item : JsonObject → Fields → JsonObject
deep_merge_item target end = target
deep_merge_item target (field k null source) = deep_merge_item target source
deep_merge_item target (field k (obj fields) source) =
    let merged : Json = elim (get_object target k) [
      | none ↦ obj fields
      | some existing ↦ object (deep_merge_item existing fields)
    ] in
    deep_merge_item (Dict.set target k merged) source
deep_merge_item target (field k (str s) source) =
    deep_merge_item
      (Dict.set target k (merge_text (contains k list_item_concat_keys) (Dict.get target k) s))
      source
deep_merge_item target (field k v source) = deep_merge_item (Dict.set target k v) source

-- The value of `index` in an item that has one.
abbrev index_of : Option Json → Option Json
index_of none = none
index_of (some null) = none
index_of (some v) = some v

abbrev has_index : Json → Json → Bool
has_index idx entry = elim (as_object entry >>= λ d. Dict.get d "index") [
  | none ↦ false
  | some v ↦ same_index v idx
]

abbrev merge_into : Json → Fields → Json
merge_into (obj target) item = object (deep_merge_item (to_dict target) item)
merge_into v item = v

-- The item is merged into the first entry of its index, or goes to the end.
unfoldable merge_indexed : Json → Fields → List Json → List Json
unfolding deep_merge_item
merge_indexed idx item [] = obj item ∷ []
merge_indexed idx item (entry ∷ existing) =
    if has_index idx entry
    then merge_into entry item ∷ existing
    else entry ∷ merge_indexed idx item existing

abbrev merge_by_index : Option Json → Fields → List Json → List Json
merge_by_index none item existing = existing ++ obj item ∷ []
merge_by_index (some idx) item existing = merge_indexed idx item existing

unfoldable merge_item : List Json → Json → List Json
unfolding merge_indexed
merge_item existing (obj item) =
    merge_by_index (index_of (Dict.get (to_dict item) "index")) item existing
merge_item existing item = existing ++ item ∷ []

unfoldable pub merge_items : List Json → List Json → List Json
unfolding merge_item
merge_items existing [] = existing
merge_items existing (item ∷ items) = merge_items (merge_item existing item) items

-- `_merge_list_field(merged, key, items)`
unfoldable pub merge_list_field : JsonObject → String → List Json → JsonObject
unfolding merge_items
merge_list_field merged key items = elim (get_array merged key) [
  | none ↦ Dict.set merged key (array items)
  | some existing ↦ Dict.set merged key (array (merge_items existing items))
]

-- `merged.get(key, "") + value`
abbrev pub appended : Option Json → String → Option String
appended none value = some (append "" value)
appended (some (str old)) value = some (append old value)
appended (some v) value = none

abbrev put_text : JsonObject → String → Option String → JsonObject × Bool
put_text merged key none = (merged, false)
put_text merged key (some s) = (Dict.set merged key (str s), true)

-- One field of a delta.
unfoldable pub merge_field : JsonObject → String → Json → JsonObject × Bool
unfolding merge_list_field
merge_field merged key null = (merged, true)
merge_field merged key (str value) =
    if contains key string_merge_keys
    then put_text merged key (appended (Dict.get merged key) value)
    else (Dict.set merged key (str value), true)
merge_field merged key (arr items) = (merge_list_field merged key (to_list items), true)
merge_field merged key value = (Dict.set merged key value, true)

-- `_merge_delta`, on the choice that it is for
unfoldable pub merge_delta : JsonObject → JsonObject → JsonObject × Bool
merge_delta merged [] = (merged, true)
merge_delta merged ((key, value) ∷ delta) =
    let (merged', ok) = merge_field merged key value in
    let rest = merge_delta merged' delta in if ok then rest else (merged', false)
