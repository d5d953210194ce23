-- ===== src/Forward.antt =====
-- The request that is forwarded, of api/proxy/router.py: `_apply_provider_pinning`,
-- `_prepare_forward_request`. `dict(body)` and `{**body}` copy one level, so the `provider` object is
-- one and the same in the client's body that is logged and in the body that is forwarded: what is
-- written into it shows in both.
pub mod Pins
use ai_proxy.Common.{
  String, Bool, true, false, not, ◌&&◌, Option, none, some, List, [], ◌∷◌, if◌then◌else◌, is_given,
  is_none, ◌>>=◌,
}
use ai_proxy.Dict
use ai_proxy.Dict.{Dict}
use ai_proxy.Json.{Json, bool, str, array, object, as_object, get_array, JsonObject}
use ai_proxy.Config.{AppConfig}
use ai_proxy.Routing.{RouteResult}
use ai_proxy.Modification.{apply_modifications}

-- What pinning does to the field `provider`: nothing, a new object in its place, or a write into the
-- object that is there.
pub data Pinning : Type 0 where
  unchanged : Pinning
  replaced : JsonObject → Pinning
  edited : JsonObject → Pinning

abbrev pub strings : List String → List Json
strings [] = []
strings (s ∷ ss) = str s ∷ strings ss

abbrev pub pins_value : Option (List String) → Json
pins_value none = array []
pins_value (some ws) = array (strings ws)

abbrev non_empty_list : Option (List Json) → Bool
non_empty_list (some (v ∷ vs)) = true
non_empty_list _ = false

unfoldable pub new_provider : Json → JsonObject
new_provider pins = ("order", pins) ∷ ("allow_fallbacks", bool false) ∷ []

-- A match of the provider overrides the filter or the order that the client gave.
unfoldable pub override_provider : Json → JsonObject → JsonObject
override_provider pins existing =
    if non_empty_list (get_array existing "only")
    then Dict.set_default (Dict.pop (Dict.set existing "only" pins) "order") "allow_fallbacks"
        (bool false)
    else Dict.set_default (Dict.set existing "order" pins) "allow_fallbacks" (bool false)

unfoldable pub pin_existing : Bool → Json → Option JsonObject → Pinning
unfolding new_provider override_provider
pin_existing aware pins none = replaced (new_provider pins)
pin_existing true pins (some existing) = edited (override_provider pins existing)
pin_existing false pins (some existing) =
    if Dict.contains existing "order"
    then unchanged
    else edited (Dict.set_default (Dict.set existing "order" pins) "allow_fallbacks" (bool false))

unfoldable pub provider_pinning : RouteResult → JsonObject → Pinning
unfolding pin_existing
provider_pinning route body =
    if is_given route.pinned_providers
    then pin_existing route.provider_aware_match (pins_value route.pinned_providers)
        (Dict.get body "provider" >>= as_object)
    else unchanged

-- The body in which the object was replaced, and one that shares the object.
abbrev pub own_body : Pinning → JsonObject → JsonObject
own_body unchanged body = body
own_body (replaced p) body = Dict.set body "provider" (object p)
own_body (edited p) body = Dict.set body "provider" (object p)

abbrev pub shared_body : Pinning → JsonObject → JsonObject
shared_body unchanged body = body
shared_body (replaced p) body = body
shared_body (edited p) body = Dict.set body "provider" (object p)

-- `_apply_provider_pinning(body, route)`, as the body that it leaves
unfoldable pub apply_provider_pinning : JsonObject → RouteResult → JsonObject
unfolding provider_pinning
apply_provider_pinning body route = own_body (provider_pinning route body) body

pub record Prepared : Type 0 where
  pub client_request_body : JsonObject
  pub forward_body : JsonObject
  pub forward_headers : Dict String

-- The client's body is the one that is logged when the request is over.
unfoldable pub prepare_forward_request :
    AppConfig → Dict String → JsonObject → RouteResult → Prepared
unfolding apply_provider_pinning
prepare_forward_request config headers body route =
    let named = Dict.set body "model" (str route.mapped_model) in
    let (forward_body, forward_headers) =
      apply_modifications config.modification_rules route.provider_name route.mapped_model
        (apply_provider_pinning named route, headers) in
    record {
      client_request_body = shared_body (provider_pinning route named) body;
      forward_body = forward_body;
      forward_headers = forward_headers;
    }
