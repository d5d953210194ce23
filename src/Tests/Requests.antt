-- ===== src/Tests/Requests.antt =====
-- The theorems on keys, access, modifications and pins at requests of the tests.
use ai_proxy.Common.{◌≡◌, refl, ◌↔◌, true, false, none, some, [], ◌∷◌}
use ai_proxy.Dict
use ai_proxy.Dict.{Dict}
use ai_proxy.Text.Glob.{fnmatch}
use ai_proxy.Json.{str, bool, object, get_object, JsonObject}
use ai_proxy.Auth.{validate_proxy_api_key}
use ai_proxy.Auth.Laws.{IsAdmitted, validate_proxy_api_key_iff}
use ai_proxy.Access.{check_model_access}
use ai_proxy.Access.Laws.{Permits, check_model_access_iff}
use ai_proxy.Modification.{rule_applies, apply_modifications}
use ai_proxy.Modification.Laws.{field_after, header_after, apply_modifications-last}
use ai_proxy.Routing.{RouteResult, route_result}
use ai_proxy.Forward.{prepare_forward_request, apply_provider_pinning, pins_value}
use ai_proxy.Forward.Pins.{
  HonoursSent, apply_provider_pinning-Honours, prepare_forward_request-leaks_pins,
}
use ai_proxy.Tests.{config, router_adapter, ask_fast, hash, no_tools}

validate_proxy_api_key_iff_example :
    ((validate_proxy_api_key hash ("client" ∷ []) (some "client") false).0 ≡ true)
    ↔ IsAdmitted hash ("client" ∷ []) (some "client") false
validate_proxy_api_key_iff_example =
    validate_proxy_api_key_iff hash ("client" ∷ []) (some "client") false

check_model_access_iff_example :
    ((check_model_access config "#client" "fast").0 ≡ true)
    ↔ Permits (Dict.get config.access_rules "#client") "fast"
check_model_access_iff_example = check_model_access_iff config "#client" "fast"

apply_modifications-last_example :
    (Dict.get (apply_modifications (no_tools ∷ []) "router" "acme/fast" (ask_fast, [])).0 "tools"
      ≡ field_after no_tools (Dict.get ask_fast "tools"))
    × (Dict.get (apply_modifications (no_tools ∷ []) "router" "acme/fast" (ask_fast, [])).1 "tools"
        ≡ header_after no_tools (Dict.get [] "tools"))
unfolding rule_applies fnmatch apply_modifications
apply_modifications-last_example =
    apply_modifications-last [] [] no_tools "router" "acme/fast" ask_fast [] refl tt

abbrev pinned : RouteResult
pinned = route_result "router" "acme/fast" router_adapter (some ("acme" ∷ [])) none

abbrev filtered : JsonObject
filtered = ("data_collection", str "deny") ∷ []

abbrev ask_filtered : JsonObject
ask_filtered = ("model", str "fast") ∷ ("provider", object filtered) ∷ []

apply_provider_pinning-Honours_example :
    HonoursSent false
      (pins_value (some ("acme" ∷ [])))
      (get_object ask_filtered "provider")
      (get_object (apply_provider_pinning ask_filtered pinned) "provider")
unfolding route_result
apply_provider_pinning-Honours_example = apply_provider_pinning-Honours ask_filtered pinned refl

prepare_forward_request-leaks_pins_example :
    (p : JsonObject) × (get_object
        (prepare_forward_request config [] ask_filtered pinned).client_request_body
        "provider"
      ≡ some p)
    × (Dict.get p "order" ≡ some (pins_value (some ("acme" ∷ []))))
unfolding route_result Dict.get
prepare_forward_request-leaks_pins_example =
    prepare_forward_request-leaks_pins config [] ask_filtered pinned filtered refl refl refl refl

abbrev ask_stream : JsonObject
ask_stream = ("stream", bool true) ∷ ask_fast
