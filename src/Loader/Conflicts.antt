-- ===== src/Loader/Conflicts.antt =====
-- The conflicts that config/loader.py looks for in the mappings of a configuration: models that are
-- routed to one provider behind two gateways. They are logged, with a text for each.
use ai_proxy.Common.{
  String, append, ◌&&◌, Option, none, some, List, [], ◌∷◌, ◌++◌, ◌==◌, if◌then◌else◌, contains,
  length, ltb,
}
use ai_proxy.Dict
use ai_proxy.Dict.{Dict}
use ai_proxy.Text.{lower}
use ai_proxy.Mappings.{parse_mapping, strip_client_provider_suffix}

-- `(client_key, gateway, mapping)` and `(gateway, client_key, pinned)`
abbrev pub QualifiedEntry : Type 0
QualifiedEntry = String × String × String

abbrev pub BaseEntry : Type 0
BaseEntry = String × String × Option (List String)

pub data Conflict : Type 0 where
  qualified : String → List String → List String → Conflict
  pinned : String → String → String → String → String → Conflict

-- `f"{base_model.lower()}+{slug.lower()}"`
unfoldable pub norm_key_of : String → String → String
norm_key_of base_model slug = append (lower base_model) (append "+" (lower slug))

abbrev pub or_none : {A : Type 0} → Option (List A) → List A
or_none none = []
or_none (some xs) = xs

-- `d.setdefault(k, []).append(e)`
abbrev pub push : Dict (List QualifiedEntry) → String → QualifiedEntry → Dict (List QualifiedEntry)
push d k e = Dict.set d k (or_none (Dict.get d k) ++ e ∷ [])

-- The key of an entry that is qualified.
abbrev pub qualified_key : String × Option (List String) → Option String
qualified_key (base_model, some (slug ∷ slugs)) = some (norm_key_of base_model slug)
qualified_key (base_model, _) = none

abbrev pub collect_entry :
    String
    → String
    → Option String
    → Dict (List QualifiedEntry) × Dict BaseEntry
    → Dict (List QualifiedEntry) × Dict BaseEntry
collect_entry client_key mapping (some norm_key) (q, b) =
    (push q norm_key (client_key, (parse_mapping mapping).0, mapping), b)
collect_entry client_key mapping none (q, b) = (
  q,
  Dict.set b (lower client_key) ((parse_mapping mapping).0, client_key, (parse_mapping mapping).2),
)

unfoldable pub collect_entries :
    Dict String
    → Dict (List QualifiedEntry) × Dict BaseEntry
    → Dict (List QualifiedEntry) × Dict BaseEntry
unfolding norm_key_of
collect_entries [] found = found
collect_entries ((client_key, mapping) ∷ model_mappings) found = collect_entries model_mappings (
    collect_entry client_key mapping (qualified_key (strip_client_provider_suffix client_key))
      found)

-- `{gw for _, gw, _ in entries}` and `[key for key, _, _ in entries]`
unfoldable pub gateways_of : List QualifiedEntry → List String
gateways_of [] = []
gateways_of ((key, gw, mapping) ∷ entries) =
    let rest = gateways_of entries in if contains gw rest then rest else gw ∷ rest

abbrev pub keys_of : List QualifiedEntry → List String
keys_of [] = []
keys_of ((key, gw, mapping) ∷ entries) = key ∷ keys_of entries

unfoldable pub qualified_conflicts : Dict (List QualifiedEntry) → List Conflict
unfolding gateways_of
qualified_conflicts [] = []
qualified_conflicts ((norm_key, entries) ∷ rest) =
    let later = qualified_conflicts rest in
    if ltb 1 (length entries) && ltb 1 (length (gateways_of entries))
    then qualified norm_key (keys_of entries) (gateways_of entries) ∷ later
    else later

-- The entries of a pin that go another way than the base mapping.
unfoldable pub pin_conflicts : String → String → String → List QualifiedEntry → List Conflict
pin_conflicts base_key slug base_gw [] = []
pin_conflicts base_key slug base_gw ((q_key, q_gw, mapping) ∷ matched) =
    let later = pin_conflicts base_key slug base_gw matched in
    if lower q_gw == lower base_gw then later else pinned base_key slug base_gw q_key q_gw ∷ later

unfoldable pub slug_conflicts :
    Dict (List QualifiedEntry) → String → BaseEntry → List String → List Conflict
unfolding pin_conflicts
slug_conflicts q base_key_lower entry [] = []
slug_conflicts q base_key_lower (base_gw, base_key, base_pinned) (slug ∷ slugs) =
    pin_conflicts base_key slug base_gw
      (or_none (Dict.get q (append base_key_lower (append "+" (lower slug)))))
    ++ slug_conflicts q base_key_lower (base_gw, base_key, base_pinned) slugs

unfoldable pub base_conflicts : Dict (List QualifiedEntry) → Dict BaseEntry → List Conflict
unfolding slug_conflicts
base_conflicts q [] = []
base_conflicts q ((base_key_lower, entry) ∷ rest) =
    slug_conflicts q base_key_lower entry (or_none entry.2) ++ base_conflicts q rest

-- `_detect_provider_routing_conflicts`
unfoldable pub detect_provider_routing_conflicts : Dict String → List Conflict
unfolding collect_entries qualified_conflicts base_conflicts
detect_provider_routing_conflicts model_mappings =
    let found = collect_entries model_mappings ([], []) in
    qualified_conflicts found.0 ++ base_conflicts found.0 found.1
