-- ===== src/Catalog/Fresh.antt =====
-- When the cache of the models asks a provider, and what its entries have.
use ai_proxy.Common.{
  ℕ, ◌+◌, ◌<◌, String, ◌≡◌, refl, sym, ap, ◌∙◌, inl, inr, true, Option, none, some, List, [], ◌∷◌,
  ◌==◌, eq_refl, eq_iff, some-injective, ◌&&◌, arith, Bool-cases, Option-cases,
}
use ai_proxy.Dict
use ai_proxy.Dict.{Dict}
use ai_proxy.Dict.Laws.{get-set, get-empty, get-pop}
use ai_proxy.Json.{JsonObject, get_str, get_int}
use ai_proxy.Catalog.{ProviderModels, normalize_provider_model, created_too_early}
use ai_proxy.Catalog.Cache.{
  provider_models_ttl, if_fresh, Cached, from_cache, with_lock, fetched_entry,
  get_cached_provider_models, sanitize_models, keep_model, or_no_models,
}

with_lock-asked :
    (cache : Dict ProviderModels) (provider_name : String) (listed : Option (List JsonObject))
    (now done : ℕ)
    → (with_lock cache provider_name listed now done).fetched ≡ true
    → let after = with_lock cache provider_name listed now done in
      (Dict.get after.cache provider_name ≡ some after.entry)
      × (after.entry.expires_at ≡ done + provider_models_ttl)
unfolding with_lock fetched_entry
with_lock-asked cache provider_name listed now done h =
    elim (Option-cases (if_fresh now (Dict.get cache provider_name))) [
      | inl stale ↦
          rw (with_lock, stale)
            (
              get-set cache provider_name provider_name (fetched_entry provider_name listed done)
                  ∙ rw (eq_refl provider_name) refl,
              refl,
            )
      | inr (entry, fresh) ↦ let f = rw (with_lock, fresh) at h in absurd (cc)
    ]

if_fresh-found :
    (now : ℕ) (entry : ProviderModels)
    → now < entry.expires_at
    → if_fresh now (some entry) ≡ some entry
if_fresh-found now entry h = ground (arith, h)

fresh-call :
    (cache later : Dict ProviderModels) (provider_name : String) (listed : Option (List JsonObject))
    (start now done : ℕ) (entry : ProviderModels)
    → if_fresh start (Dict.get cache provider_name) ≡ some entry
    → get_cached_provider_models cache later provider_name listed start now done
      ≡ from_cache cache entry
unfolding get_cached_provider_models
fresh-call cache later provider_name listed start now done entry h =
    rw (get_cached_provider_models, h) refl

module _ (cache later : Dict ProviderModels) (provider_name : String)
    (listed : Option (List JsonObject)) (start now done : ℕ) where
  abbrev call : Cached
  call = get_cached_provider_models cache later provider_name listed start now done

  call-asked :
      call.fetched ≡ true
      → (Dict.get call.cache provider_name ≡ some call.entry)
        × (call.entry.expires_at ≡ done + provider_models_ttl)
  unfolding get_cached_provider_models
  call-asked h = elim (Option-cases (if_fresh start (Dict.get cache provider_name))) [
    | inl stale ↦
        rw (get_cached_provider_models, stale)
          (with_lock-asked later provider_name listed now done
            (rw (get_cached_provider_models, stale) at h))
    | inr (entry, fresh) ↦ let f = rw (get_cached_provider_models, fresh) at h in absurd (cc)
  ]

  -- A call that asked the provider leaves its answer in the cache, and until 300 seconds after that a
  -- call whose cache has it for the provider gives the same answer and does not ask again.
  pub get_cached_provider_models-kept :
      (again other : Dict ProviderModels) (listed' : Option (List JsonObject))
      (start' now' done' : ℕ)
      → call.fetched ≡ true
      → Dict.get again provider_name ≡ Dict.get call.cache provider_name
      → start' < done + provider_models_ttl
      → get_cached_provider_models again other provider_name listed' start' now' done'
        ≡ from_cache again call.entry
  get_cached_provider_models-kept again other listed' start' now' done' fetched same soon =
      let (found, expires) = call-asked fetched in
      let fresh = if_fresh-found start' call.entry (rw expires soon) in
      fresh-call again other provider_name listed' start' now' done' call.entry
        (ap (if_fresh start') (same ∙ found) ∙ fresh)

-- The model under an id has this id.
abbrev pub IsIndexed : Dict JsonObject → Type 0
IsIndexed by_id =
    (id : String) (m : JsonObject) → Dict.get by_id id ≡ some m → get_str m "id" ≡ some id

normalize_provider_model-id :
    (provider_name : String) (m : JsonObject)
    → get_str (normalize_provider_model provider_name m) "id" ≡ get_str m "id"
unfolding normalize_provider_model
normalize_provider_model-id provider_name m =
    elim (Bool-cases (provider_name == "nvidia" && created_too_early (get_int m "created"))) [
      | inl early ↦ rw (early, get-pop) refl
      | inr other ↦ rw other refl
    ]

keep_model-IsIndexed :
    (provider_name : String) (model : JsonObject) (o : Option String)
    (kept : List JsonObject × Dict JsonObject)
    → get_str model "id" ≡ o
    → IsIndexed kept.1
    → IsIndexed (keep_model provider_name model o kept).1
keep_model-IsIndexed provider_name model none kept e x = x
keep_model-IsIndexed provider_name model (some model_id) kept e x =
    elim (Bool-cases (model_id == "")) [
      | inl empty ↦ rw empty x
      | inr given ↦ rw given (λ id m h. elim (Bool-cases (model_id == id)) [
        | inl same ↦
            let f : Path (Option JsonObject) (some (normalize_provider_model provider_name model))
                (some m) =
              sym (get-set kept.1 model_id id _ ∙ rw same refl) ∙ h in
            rw (← some-injective f) (
              normalize_provider_model-id provider_name model
              ∙ e
              ∙ ap (λ (s : String). some s) ((eq_iff model_id id).0 same))
        | inr other ↦ x id m (sym (get-set kept.1 model_id id _ ∙ rw other refl) ∙ h)
      ])
    ]

sanitize_models-IsIndexed :
    (provider_name : String) (raw_models : List JsonObject)
    (kept : List JsonObject × Dict JsonObject)
    → IsIndexed kept.1
    → IsIndexed (sanitize_models provider_name raw_models kept).1
unfolding sanitize_models
sanitize_models-IsIndexed provider_name [] kept x = x
sanitize_models-IsIndexed provider_name (m ∷ ms) kept x =
    sanitize_models-IsIndexed provider_name ms (keep_model provider_name m (get_str m "id") kept)
      (keep_model-IsIndexed provider_name m (get_str m "id") kept refl x)

-- Whatever a provider lists, the entry that is made of it has each model under the id of that model.
pub fetched_entry-IsIndexed :
    (provider_name : String) (listed : Option (List JsonObject)) (now : ℕ)
    → IsIndexed (fetched_entry provider_name listed now).models_by_id
unfolding fetched_entry
fetched_entry-IsIndexed provider_name listed now =
    sanitize_models-IsIndexed provider_name (or_no_models listed) ([], [])
      (λ id m h. let f = rw get-empty at h in absurd (cc))
