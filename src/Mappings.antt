-- ===== src/Mappings.antt =====
-- core/model_mappings.py. A mapping is `provider:model+pin1,pin2`; a client may append `+provider`
-- to the name of a model.
pub mod Laws
use Prim.Native.String
use ai_proxy.Common.{
  String, append, Bool, true, false, ◌||◌, Option, none, some, List, [], ◌∷◌, ◌==◌, not,
  if◌then◌else◌, is_given, ◌>>=◌, is_empty,
}
use ai_proxy.Dict
use ai_proxy.Text.{has_char, split_once, rsplit_once, split, join, strip_all}
use ai_proxy.Json.{Json, JsonObject, str, get_object, get_array}

unfoldable pub has_glob : String → Bool
unfolding has_char
has_glob value =
    has_char "*" value || has_char "?" value || has_char "[" value || has_char "]" value

-- `slugs = [...]; pinned = slugs if slugs else None`
abbrev pub non_empty : List String → Option (List String)
non_empty [] = none
non_empty (w ∷ ws) = some (w ∷ ws)

unfoldable pub pin_slugs : String → List String
unfolding split strip_all
pin_slugs pin_part = strip_all (split "," pin_part)

-- The text before the separator and after it; the whole text twice if it has none.
abbrev provider_part : String → Option (String × String) → String × String
provider_part mapping none = (mapping, mapping)
provider_part mapping (some p) = p

abbrev model_part :
    String → String → Option (String × String) → String × String × Option (List String)
model_part provider model none = (provider, model, none)
model_part provider model (some (base, pin_part)) = (provider, base, non_empty (pin_slugs pin_part))

unfoldable pub parse_mapping : String → String × String × Option (List String)
unfolding split_once rsplit_once pin_slugs
parse_mapping mapping =
    let (provider, model) = provider_part mapping (split_once ":" mapping) in
    model_part provider model (rsplit_once "+" model)

abbrev pub suffix_part : String → Option (List String) → String → String × Option (List String)
suffix_part model none base = (model, none)
suffix_part model (some slugs) base = (base, some slugs)

abbrev client_part : String → Option (String × String) → String × Option (List String)
client_part model none = (model, none)
client_part model (some (base, pin_part)) = suffix_part model (non_empty (pin_slugs pin_part)) base

unfoldable pub strip_client_provider_suffix : String → String × Option (List String)
unfolding rsplit_once pin_slugs
strip_client_provider_suffix model = client_part model (rsplit_once "+" model)

unfoldable pub merge_pinned : Option (List String) → Option (List String) → Option (List String)
merge_pinned config_pinned client_pinned =
    if is_given config_pinned then config_pinned else client_pinned

-- A list of pins, `None` counted as no pin.
abbrev pins : Option (List String) → List String
pins none = []
pins (some ws) = ws

unfoldable pub format_route_label : String → String → Option (List String) → String
unfolding join
format_route_label provider_name mapped_model pinned =
    let route_label = append provider_name (append ":" mapped_model) in
    if is_given pinned
    then append route_label (append "+" (join "," (pins pinned)))
    else route_label

unfoldable pub str_values : List Json → List String
str_values [] = []
str_values (str s ∷ vs) = if s == "" then str_values vs else s ∷ str_values vs
str_values (v ∷ vs) = str_values vs

abbrev field_slugs : Option (List Json) → Option (List String)
field_slugs none = none
field_slugs (some vs) = non_empty (str_values vs)

-- `for field_name in ("only", "order")`
first_slugs : JsonObject → List String → Option (List String)
unfolding str_values
first_slugs provider_field [] = none
first_slugs provider_field (name ∷ names) =
    let rest = first_slugs provider_field names in
    elim (field_slugs (get_array provider_field name)) [ none ↦ rest | some slugs ↦ some slugs ]

unfoldable pub extract_body_provider_slugs : JsonObject → Option (List String)
unfolding first_slugs
extract_body_provider_slugs body = get_object body "provider" >>= λ provider_field.
    first_slugs provider_field ("only" ∷ "order" ∷ [])

unfoldable pub build_provider_qualified_key : String → String → String
build_provider_qualified_key model provider_slug = append model (append "+" provider_slug)
