-- ===== src/Routing/Precedence.antt =====
-- The order of the stages of `resolve_model`, and the comparison of provider names.
use ai_proxy.Common.{
  String, ◌≡◌, refl, ap, sym, ◌∙◌, true, false, ◌⊎◌, inl, inr, Option, none, some, List, [], ◌∷◌,
  arith, if◌then◌else◌, Bool-cases, ◌==◌, eq_iff, is_given, eq_refl, texts_eq, ◌≢◌, ◌&&◌,
}
use ai_proxy.Dict
use ai_proxy.Dict.{Dict}
use ai_proxy.Dict.Laws.{HasEntry, get-HasEntry, get-set}
use ai_proxy.Text.{lower, has_char}
use ai_proxy.Text.Laws.{lower-append, rsplit_once-none}
use ai_proxy.Json.{JsonObject}
use ai_proxy.Config.{AppConfig}
use ai_proxy.Adapter.{BaseAdapter}
use ai_proxy.Mappings.{
  format_route_label, strip_client_provider_suffix, extract_body_provider_slugs,
  build_provider_qualified_key, merge_pinned, has_glob,
}
use ai_proxy.Mappings.Laws.{
  IsLabelled, IsSlug, parse_mapping-format_route_label,
  strip_client_provider_suffix-build_provider_qualified_key,
}
use ai_proxy.Catalog.{ProviderModels}
use ai_proxy.Routing.{
  route_result, resolve_mapped_model_name, build_route_result, resolve_exact_mapping, resolve_slug,
  resolve_slugs, resolve_provider_aware, resolve_lookup, found, resolve_model, ci_keys_from,
  ci_mapping_keys, provider_sources,
}

has_glob-star : (m : String) → (m == "*") ≡ true → has_glob m ≡ true
unfolding has_glob has_char
has_glob-star m e = rw ((eq_iff m "*").0 e) refl

-- A mapping that spells out its model is followed literally.
resolve_mapped_model_name-literal :
    (l k m : String)
    → has_glob m ≡ false
    → (m ≡ k → l ≡ m)
    → resolve_mapped_model_name l k m ≡ some m
unfolding resolve_mapped_model_name
resolve_mapped_model_name-literal l k m h e = ground (arith, eq_iff m k, has_glob-star m)

merge_pinned-none :
    (p m : String) (pinned : Option (List String))
    → IsLabelled p m pinned
    → merge_pinned pinned none ≡ pinned
unfolding merge_pinned
merge_pinned-none p m none h = refl
merge_pinned-none p m (some []) h = absurd h
merge_pinned-none p m (some (w ∷ ws)) h = refl

-- The route that a mapping in the notation of the route labels stands for.
build_route_result-label :
    (registry : Dict BaseAdapter) (l k p m : String) (pinned : Option (List String))
    (a : BaseAdapter)
    → IsLabelled p m pinned
    → has_glob m ≡ false
    → (m ≡ k → l ≡ m)
    → Dict.get registry p ≡ some a
    → build_route_result registry l k (format_route_label p m pinned) none
      ≡ some (route_result p m a pinned (some (format_route_label p m pinned)))
unfolding build_route_result
build_route_result-label registry l k p m pinned a labelled plain same known = rw (
  parse_mapping-format_route_label p m pinned labelled,
  resolve_mapped_model_name-literal l k m plain same,
  known,
  merge_pinned-none p m pinned labelled,
)

strip-plain :
    (model : String)
    → has_char "+" model ≡ false
    → strip_client_provider_suffix model ≡ (model, none)
unfolding strip_client_provider_suffix
strip-plain model h = rw (rsplit_once-none "+" model h)

module _ (config : AppConfig) (registry : Dict BaseAdapter)
    (provider_models : Dict ProviderModels) where
  resolve_lookup-exact :
      (model p m : String) (pinned : Option (List String)) (a : BaseAdapter)
      → Dict.get config.model_mappings model ≡ some (format_route_label p m pinned)
      → IsLabelled p m pinned
      → has_glob m ≡ false
      → Dict.get registry p ≡ some a
      → resolve_lookup config registry provider_models model none none
        ≡ some (route_result p m a pinned (some (format_route_label p m pinned)))
  unfolding resolve_lookup resolve_provider_aware resolve_exact_mapping provider_sources
      resolve_slugs
  resolve_lookup-exact model p m pinned a mapped labelled literal known = rw (
    mapped,
    build_route_result-label registry model model p m pinned a labelled literal sym known,
  )

  -- A model that the client names without a suffix, with no provider hints in the body, and that a
  -- mapping to a registered provider spells out goes to exactly the provider, model and pins of
  -- that mapping, whatever the catalog and the wildcard mappings say.
  pub resolve_model-exact :
      (model p m : String) (pinned : Option (List String)) (a : BaseAdapter) (body : JsonObject)
      → has_char "+" model ≡ false
      → extract_body_provider_slugs body ≡ none
      → Dict.get config.model_mappings model ≡ some (format_route_label p m pinned)
      → IsLabelled p m pinned
      → has_glob m ≡ false
      → Dict.get registry p ≡ some a
      → resolve_model config registry provider_models model body
        ≡ found (route_result p m a pinned (some (format_route_label p m pinned)))
  unfolding resolve_model
  resolve_model-exact model p m pinned a body plain hints mapped labelled literal known = rw (
    strip-plain model plain,
    hints,
    resolve_lookup-exact model p m pinned a mapped labelled literal known,
  )

-- A key of the mappings that differs from every other key by more than its case.
abbrev pub IsUnambiguous : Dict String → String → Type 0
IsUnambiguous [] key = Unit
IsUnambiguous ((k, v) ∷ mappings) key =
    ((k ≡ key) ⊎ (lower k ≢ lower key)) × IsUnambiguous mappings key

unambiguous :
    (mappings : Dict String) (key k v : String)
    → IsUnambiguous mappings key
    → HasEntry k v mappings
    → lower k ≡ lower key
    → k ≡ key
unambiguous [] key k v u e h = absurd e
unambiguous ((j, w) ∷ mappings) key k v (inl same, u) (inl e) h = sym e.0 ∙ same
unambiguous ((j, w) ∷ mappings) key k v (inr other, u) (inl e) h = absurd (other (ap lower e.0 ∙ h))
unambiguous ((j, w) ∷ mappings) key k v (f, u) (inr e) h = unambiguous mappings key k v u e h

-- What the lower-cased keys hold under a text: a key that was there, or one of the mappings'.
ci_keys_from-key :
    (mappings acc : Dict String) (key : String)
    → ((k v : String) → HasEntry k v mappings → lower k ≡ lower key → k ≡ key)
    → Dict.get acc (lower key) ≡ some key ⊎ ((v : String) × HasEntry key v mappings)
    → Dict.get (ci_keys_from acc mappings) (lower key) ≡ some key
unfolding ci_keys_from
ci_keys_from-key [] acc key unique (inl h) = h
ci_keys_from-key [] acc key unique (inr (v, e)) = absurd e
ci_keys_from-key ((k, w) ∷ mappings) acc key unique h =
    ci_keys_from-key mappings (Dict.set acc (lower k) k) key (λ j v e. unique j v (inr e)) (step h)
  where
    step :
        Dict.get acc (lower key) ≡ some key ⊎ ((v : String) × HasEntry key v ((k, w) ∷ mappings))
        → Dict.get (Dict.set acc (lower k) k) (lower key) ≡ some key
          ⊎ ((v : String) × HasEntry key v mappings)
    step (inr (v, inr e)) = inr (v, e)
    step (inr (v, inl (same, val))) = inl (rw (get-set, same, eq_refl) refl)
    step (inl old) = elim (Bool-cases (lower k == lower key)) [
      | inl same ↦
          inl (rw (get-set, same) (ap some (unique k w (inl (refl, refl)) ((eq_iff _ _).0 same))))
      | inr other ↦ inl (rw (get-set, other) old)
    ]

pub ci_mapping_keys-key :
    (mappings : Dict String) (key v : String)
    → IsUnambiguous mappings key
    → HasEntry key v mappings
    → Dict.get (ci_mapping_keys mappings) (lower key) ≡ some key
unfolding ci_mapping_keys
ci_mapping_keys-key mappings key v unique e =
    ci_keys_from-key mappings [] key (λ k w. unambiguous mappings key k w unique) (inr (v, e))

provider_sources-first :
    (slug : String) (body : Option (List String))
    → (rest : List String) × (provider_sources (some (slug ∷ [])) body ≡ slug ∷ rest)
unfolding provider_sources
provider_sources-first slug none = ([], refl)
provider_sources-first slug (some ws) = elim (Bool-cases (texts_eq ws (slug ∷ []))) [
  | inl same ↦ ([], rw same (no_more ws))
  | inr other ↦ rw other (more ws)
]
  where
    no_more :
        (ws : List String)
        → (if is_given (some ws) && false then slug ∷ ws else slug ∷ []) ≡ slug ∷ []
    no_more [] = refl
    no_more (w ∷ ws) = refl

    more :
        (ws : List String)
        → (rest : List String) × ((if is_given (some ws) && true then slug ∷ ws else slug ∷ [])
            ≡ slug ∷ rest)
    more [] = ([], refl)
    more (w ∷ ws) = (w ∷ ws, refl)

module _ (config : AppConfig) (registry : Dict BaseAdapter)
    (provider_models : Dict ProviderModels) where
  resolve_lookup-qualified :
      (model slug key p m : String) (pinned body : Option (List String)) (a : BaseAdapter)
      → lower key ≡ lower (build_provider_qualified_key model slug)
      → IsUnambiguous config.model_mappings key
      → Dict.get config.model_mappings key ≡ some (format_route_label p m pinned)
      → IsLabelled p m pinned
      → has_glob m ≡ false
      → m ≢ key
      → Dict.get registry p ≡ some a
      → resolve_lookup config registry provider_models model (some (slug ∷ [])) body
        ≡ some (record (route_result p m a pinned (some (format_route_label p m pinned))) {
          provider_aware_match = true;
        })
  unfolding resolve_lookup resolve_provider_aware resolve_slugs resolve_slug
  resolve_lookup-qualified model slug key p m pinned body a same unique mapped labelled literal
        other known =
      let (rest, e) = provider_sources-first slug body in
      rw (
        e,
        resolve_slugs,
        ← same,
        ci_mapping_keys-key config.model_mappings key _ unique
            (get-HasEntry config.model_mappings key _ mapped),
        mapped,
        build_route_result-label registry model key p m pinned a labelled literal
            (λ q. absurd (other q)) known,
      )

  -- A client that asks for `model+slug` is routed by the mapping whose key is that text, in whatever
  -- case, before every other stage: to its provider, its model and its own pins, as a match of the
  -- provider. The key is one that no other key equals but for case, and the mapping spells out a
  -- model other than the key itself and names a registered provider.
  pub resolve_model-qualified :
      (model slug key p m : String) (pinned : Option (List String)) (a : BaseAdapter)
      (body : JsonObject)
      → IsSlug slug
      → lower key ≡ lower (build_provider_qualified_key model slug)
      → IsUnambiguous config.model_mappings key
      → Dict.get config.model_mappings key ≡ some (format_route_label p m pinned)
      → IsLabelled p m pinned
      → has_glob m ≡ false
      → m ≢ key
      → Dict.get registry p ≡ some a
      → resolve_model config registry provider_models (build_provider_qualified_key model slug) body
        ≡ found (record (route_result p m a pinned (some (format_route_label p m pinned))) {
          provider_aware_match = true;
        })
  unfolding resolve_model
  resolve_model-qualified model slug key p m pinned a body clean same unique mapped labelled literal
        other known =
      rw (
        strip_client_provider_suffix-build_provider_qualified_key model slug clean,
        resolve_lookup-qualified model slug key p m pinned (extract_body_provider_slugs body) a same
            unique mapped labelled literal other known,
      )

abbrev pub SameLower : List String → List String → Type 0
SameLower [] [] = Unit
SameLower (s ∷ ss) (t ∷ ts) = (lower s ≡ lower t) × SameLower ss ts
SameLower _ _ = ⊥

lower-key :
    (model s t : String)
    → lower s ≡ lower t
    → lower (build_provider_qualified_key model s) ≡ lower (build_provider_qualified_key model t)
unfolding build_provider_qualified_key
lower-key model s t h = simp (lower-append, h)

resolve_slugs-SameLower :
    (registry : Dict BaseAdapter) (model : String) (ci_keys mappings : Dict String)
    (ss ts : List String)
    → SameLower ss ts
    → resolve_slugs registry model ci_keys mappings ss
      ≡ resolve_slugs registry model ci_keys mappings ts
unfolding resolve_slugs resolve_slug
resolve_slugs-SameLower registry model ci_keys mappings [] [] h = refl
resolve_slugs-SameLower registry model ci_keys mappings [] (t ∷ ts) h = absurd h
resolve_slugs-SameLower registry model ci_keys mappings (s ∷ ss) [] h = absurd h
resolve_slugs-SameLower registry model ci_keys mappings (s ∷ ss) (t ∷ ts) h =
    rw (lower-key model s t h.0, resolve_slugs-SameLower registry model ci_keys mappings ss ts h.1)

-- Provider names that differ in case alone select the same route, whether they come from the
-- client's suffix or from the body.
pub resolve_provider_aware-SameLower :
    (registry : Dict BaseAdapter) (model : String)
    (client body client' body' : Option (List String)) (mappings : Dict String)
    → SameLower (provider_sources client body) (provider_sources client' body')
    → resolve_provider_aware registry model client body mappings
      ≡ resolve_provider_aware registry model client' body' mappings
unfolding resolve_provider_aware
resolve_provider_aware-SameLower registry model client body client' body' mappings h =
    resolve_slugs-SameLower registry model (ci_mapping_keys mappings) mappings _ _ h
