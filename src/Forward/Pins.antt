-- ===== src/Forward/Pins.antt =====
-- What pinning writes, and what the logged copy of the client's body shows of it.
use ai_proxy.Common.{
  String, ◌≡◌, refl, ◌∙◌, inl, inr, Bool, true, false, Option, none, some, ◌==◌, if◌then◌else◌,
  Bool-cases, Option-cases, is_given, All,
}
use ai_proxy.Dict
use ai_proxy.Dict.{Dict}
use ai_proxy.Dict.Laws.{get-set, get-pop, get-cons, get-set_default, get-set_default-none}
use ai_proxy.Json.{Json, bool, str, get_array, get_object, JsonObject}
use ai_proxy.Json.Laws.{to_dict-from_dict}
use ai_proxy.Config.{AppConfig}
use ai_proxy.Routing.{RouteResult}
use ai_proxy.Modification.Laws.{Spares, apply_modifications-Spares}
use ai_proxy.Forward.{
  Pinning, unchanged, replaced, edited, pins_value, non_empty_list, new_provider, override_provider,
  pin_existing, provider_pinning, own_body, shared_body, apply_provider_pinning,
  prepare_forward_request,
}

-- A default under another key changes nothing under this one.
get-default-other :
    (d : JsonObject) (k j : String) (v : Json)
    → (k == j) ≡ false
    → Dict.get (Dict.set_default d k v) j ≡ Dict.get d j
get-default-other d k j v other = elim (Option-cases (Dict.get d k)) [
  | inl absent ↦ get-set_default-none d k j v absent ∙ rw other
  | inr (w, present) ↦ get-set_default d k j v w present
]

-- What the pins demand of the `provider` object that is sent, given the client's own.
abbrev pub Honours : Bool → Json → Option JsonObject → JsonObject → Type 0
Honours aware pins none p =
    (Dict.get p "order" ≡ some pins) × (Dict.get p "allow_fallbacks" ≡ some (bool false))
Honours true pins (some existing) p =
    if non_empty_list (get_array existing "only")
    then (Dict.get p "only" ≡ some pins) × (Dict.get p "order" ≡ none)
    else Dict.get p "order" ≡ some pins
Honours false pins (some existing) p =
    if Dict.contains existing "order" then p ≡ existing else Dict.get p "order" ≡ some pins

new_provider-Honours : (aware : Bool) (pins : Json) → Honours aware pins none (new_provider pins)
unfolding new_provider
new_provider-Honours aware pins = (rw get-cons, rw (get-cons, get-cons))

override_provider-Honours :
    (pins : Json) (existing : JsonObject)
    → Honours true pins (some existing) (override_provider pins existing)
unfolding override_provider
override_provider-Honours pins existing =
    elim (Bool-cases (non_empty_list (get_array existing "only"))) [
      | inl only ↦ rw only (
        get-default-other _ "allow_fallbacks" "only" _ refl
            ∙ get-pop _ "order" "only"
            ∙ get-set existing "only" "only" pins,
        get-default-other _ "allow_fallbacks" "order" _ refl ∙ get-pop _ "order" "order",
      )
      | inr none_given ↦ rw none_given (
          get-default-other _ "allow_fallbacks" "order" _ refl
          ∙ get-set existing "order" "order" pins)
    ]

-- The `provider` object that is sent: the one that pinning wrote, or the client's own.
abbrev pub sent_object : Pinning → Option JsonObject → Option JsonObject
sent_object unchanged o = o
sent_object (replaced p) o = some p
sent_object (edited p) o = some p

abbrev pub HonoursSent : Bool → Json → Option JsonObject → Option JsonObject → Type 0
HonoursSent aware pins existing none = ⊥
HonoursSent aware pins existing (some p) = Honours aware pins existing p

pin_existing-HonoursSent :
    (aware : Bool) (pins : Json) (o : Option JsonObject)
    → HonoursSent aware pins o (sent_object (pin_existing aware pins o) o)
unfolding pin_existing
pin_existing-HonoursSent aware pins none = new_provider-Honours aware pins
pin_existing-HonoursSent true pins (some existing) = override_provider-Honours pins existing
pin_existing-HonoursSent false pins (some existing) =
    elim (Bool-cases (Dict.contains existing "order")) [
      | inl ordered ↦ rw ordered (rw ordered refl)
      | inr free ↦ rw free (
          rw free (
            get-default-other _ "allow_fallbacks" "order" _ refl
            ∙ get-set existing "order" "order" pins))
    ]

-- The object under `provider` in a body that has it.
get_object-own_body :
    (pinning : Pinning) (body : JsonObject)
    → get_object (own_body pinning body) "provider"
      ≡ sent_object pinning (get_object body "provider")
get_object-own_body unchanged body = refl
get_object-own_body (replaced p) body = simp (get-set, to_dict-from_dict)
get_object-own_body (edited p) body = simp (get-set, to_dict-from_dict)

-- With pins, the `provider` object that is forwarded has them: under `only`, without an `order`,
-- where the provider was matched and the client filtered by `only`; under `order` else; unless
-- the provider was not matched and the client gave an `order`, where the object stays as it was.
-- An object that the client did not send forbids fallbacks.
pub apply_provider_pinning-Honours :
    (body : JsonObject) (route : RouteResult)
    → is_given route.pinned_providers ≡ true
    → HonoursSent route.provider_aware_match
        (pins_value route.pinned_providers)
        (get_object body "provider")
        (get_object (apply_provider_pinning body route) "provider")
unfolding apply_provider_pinning provider_pinning
apply_provider_pinning-Honours body route given =
    rw (get_object-own_body, given)
      (pin_existing-HonoursSent route.provider_aware_match (pins_value route.pinned_providers)
        (get_object body "provider"))

-- Pinning touches no other field.
get-own_body-other :
    (pinning : Pinning) (body : JsonObject) (k : String)
    → ("provider" == k) ≡ false
    → Dict.get (own_body pinning body) k ≡ Dict.get body k
get-own_body-other unchanged body k h = refl
get-own_body-other (replaced p) body k h = rw (get-set, h)
get-own_body-other (edited p) body k h = rw (get-set, h)

get-shared_body-other :
    (pinning : Pinning) (body : JsonObject) (k : String)
    → ("provider" == k) ≡ false
    → Dict.get (shared_body pinning body) k ≡ Dict.get body k
get-shared_body-other unchanged body k h = refl
get-shared_body-other (replaced p) body k h = refl
get-shared_body-other (edited p) body k h = rw (get-set, h)

abbrev with_order : Json → JsonObject → JsonObject
with_order pins existing =
    Dict.set_default (Dict.set existing "order" pins) "allow_fallbacks" (bool false)

pin_existing-free :
    (pins : Json) (existing : JsonObject)
    → Dict.get existing "order" ≡ none
    → pin_existing false pins (some existing) ≡ edited (with_order pins existing)
unfolding pin_existing
pin_existing-free pins existing free = rw free

module _ (config : AppConfig) (headers : Dict String) (body : JsonObject)
    (route : RouteResult) where
  -- The model that is forwarded is the one of the route, and every field but `model` and `provider`
  -- is the client's, where no rule that applies names the field.
  pub prepare_forward_request-fields :
      (k : String)
      → ("provider" == k) ≡ false
      → All (Spares route.provider_name route.mapped_model k) config.modification_rules
      → Dict.get (prepare_forward_request config headers body route).forward_body k
        ≡ (if "model" == k then some (str route.mapped_model) else Dict.get body k)
  unfolding prepare_forward_request apply_provider_pinning
  prepare_forward_request-fields k other spared =
      let named = Dict.set body "model" (str route.mapped_model) in
      (apply_modifications-Spares config.modification_rules route.provider_name route.mapped_model k
        (own_body (provider_pinning route named) named) headers spared).0
      ∙ get-own_body-other (provider_pinning route named) named k other
      ∙ get-set body "model" k (str route.mapped_model)

  -- Every field but `provider` of the logged copy of the client's body is as the client sent it.
  pub prepare_forward_request-logged :
      (k : String)
      → ("provider" == k) ≡ false
      → Dict.get (prepare_forward_request config headers body route).client_request_body k
        ≡ Dict.get body k
  unfolding prepare_forward_request
  prepare_forward_request-logged k other = get-shared_body-other _ body k other

  -- Where the client sent a `provider` object without `order` and the route has pins but is no
  -- match of the provider, the logged copy of the client's body has the pins under `order`, as if
  -- the client had sent them.
  pub prepare_forward_request-leaks_pins :
      (existing : JsonObject)
      → is_given route.pinned_providers ≡ true
      → route.provider_aware_match ≡ false
      → get_object body "provider" ≡ some existing
      → Dict.get existing "order" ≡ none
      → (p : JsonObject) × (get_object
            (prepare_forward_request config headers body route).client_request_body
            "provider"
          ≡ some p)
        × (Dict.get p "order" ≡ some (pins_value route.pinned_providers))
  unfolding prepare_forward_request provider_pinning
  prepare_forward_request-leaks_pins existing given unmatched sent free =
      let same : Dict.get (Dict.set body "model" (str route.mapped_model)) "provider"
          ≡ Dict.get body "provider" =
        get-set body "model" "provider" (str route.mapped_model) in
      let pins = pins_value route.pinned_providers in
      (
        with_order pins existing,
        rw (given, unmatched, same, sent, pin_existing-free pins existing free)
            (simp (get-set, to_dict-from_dict)),
        get-default-other _ "allow_fallbacks" "order" _ refl
            ∙ get-set existing "order" "order" pins,
      )
