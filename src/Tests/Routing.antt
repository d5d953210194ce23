-- ===== src/Tests/Routing.antt =====
-- The theorems on routes, mappings and the catalog at the configuration of the tests.
use ai_proxy.Common.{Bool, eq_iff, ◌≡◌, refl, inl, inr, true, false, none, some, [], ◌∷◌}
use ai_proxy.Dict
use ai_proxy.Text.{has_char, lower, join, strip, strip_left, strip_right, is_space}
use ai_proxy.Mappings.{
  has_glob, format_route_label, parse_mapping, strip_client_provider_suffix,
  build_provider_qualified_key, extract_body_provider_slugs,
}
use ai_proxy.Mappings.Laws.{
  parse_mapping-format_route_label, strip_client_provider_suffix-build_provider_qualified_key,
}
use ai_proxy.Routing.{RouteResult, route_result, found, resolve_model}
use ai_proxy.Routing.Consistent.{IsConsistent, resolve_model-IsConsistent}
use ai_proxy.Routing.Configured.{resolve_model-IsConfigured}
use ai_proxy.Routing.Listed.{IsConfigured}
use ai_proxy.Routing.Precedence.{resolve_model-exact, resolve_model-qualified}
use ai_proxy.Tests.{config, registry, router_adapter, mappings, ask_fast}

abbrev fast : RouteResult
fast =
    route_result "router" "acme/fast" router_adapter none
      (some (format_route_label "router" "acme/fast" none))

resolve_model-exact_example : resolve_model config registry [] "fast" ask_fast ≡ found fast
unfolding has_char extract_body_provider_slugs Dict.get format_route_label has_glob
resolve_model-exact_example =
    resolve_model-exact config registry [] "fast" "router" "acme/fast" none router_adapter ask_fast
      refl refl refl (refl, refl) refl refl

resolve_model-qualified_example :
    resolve_model config registry [] (build_provider_qualified_key "big" "acme") ask_fast
    ≡ found
        (record (route_result "router" "acme/big" router_adapter
          (some ("acme" ∷ []))
          (some (format_route_label "router" "acme/big" (some ("acme" ∷ []))))) {
            provider_aware_match = true;
          })
unfolding has_char Dict.get format_route_label has_glob lower strip strip_left strip_right is_space
    join build_provider_qualified_key
resolve_model-qualified_example =
    resolve_model-qualified config registry [] "big" "acme" "big+Acme" "router" "acme/big"
      (some ("acme" ∷ [])) router_adapter ask_fast ((refl, refl), refl, refl) refl
      (inr (λ e. cc), (inl refl, tt)) refl (refl, (((refl, refl), refl, refl), tt)) refl
      (λ e. let h : Path Bool false true = (eq_iff "acme/big" "big+Acme").1 e in absurd (cc)) refl

resolve_model-IsConsistent_example : IsConsistent registry fast
resolve_model-IsConsistent_example =
    resolve_model-IsConsistent config registry [] "fast" ask_fast fast resolve_model-exact_example

resolve_model-IsConfigured_example :
    IsConfigured mappings
      (strip_client_provider_suffix "fast").0
      fast.provider_name
      fast.mapped_model
resolve_model-IsConfigured_example =
    resolve_model-IsConfigured config registry [] "fast" ask_fast fast resolve_model-exact_example

parse_mapping-format_route_label_example :
    parse_mapping (format_route_label "router" "acme/big" (some ("a" ∷ "b" ∷ [])))
    ≡ ("router", "acme/big", some ("a" ∷ "b" ∷ []))
unfolding has_char strip strip_left strip_right is_space
parse_mapping-format_route_label_example =
    parse_mapping-format_route_label "router" "acme/big" (some ("a" ∷ "b" ∷ []))
      (refl, (((refl, refl), refl, refl), (((refl, refl), refl, refl), tt)))

strip_client_provider_suffix-build_provider_qualified_key_example :
    strip_client_provider_suffix (build_provider_qualified_key "big" "acme")
    ≡ ("big", some ("acme" ∷ []))
unfolding has_char strip strip_left strip_right is_space
strip_client_provider_suffix-build_provider_qualified_key_example =
    strip_client_provider_suffix-build_provider_qualified_key "big" "acme"
      ((refl, refl), refl, refl)
