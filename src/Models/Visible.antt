-- ===== src/Models/Visible.antt =====
-- Which models a client sees.
use ai_proxy.Common.{
  String, ◌≡◌, refl, ap, ◌∙◌, ◌↔◌, ◌⊎◌, inl, inr, true, false, List, [], ◌∷◌, Bool-cases,
}
use ai_proxy.Dict
use ai_proxy.Dict.{Dict}
use ai_proxy.Dict.Laws.{HasEntry}
use ai_proxy.Json.{JsonObject}
use ai_proxy.Config.{AppConfig}
use ai_proxy.Auth.{Validation, validate_proxy_api_key}
use ai_proxy.Auth.Laws.{IsAdmitted, validate_proxy_api_key_iff}
use ai_proxy.Access.{check_model_access}
use ai_proxy.Access.Laws.{Permits, check_model_access_iff}
use ai_proxy.Catalog.{CatalogModel, serialize_catalog_model, get_proxy_model_catalog}
use ai_proxy.Flow.{Env, continue, extract_api_key, configured_keys}
use ai_proxy.Models.{visible_models, answer_models, list_models}

abbrev pub IsIn : JsonObject → List JsonObject → Type 0
IsIn m [] = ⊥
IsIn m (x ∷ xs) = (x ≡ m) ⊎ IsIn m xs

-- The model is an entry of the catalog that the rule for the key permits, if there is one.
abbrev pub IsVisible : AppConfig → String → Dict CatalogModel → JsonObject → Type 0
IsVisible config key_hash catalog m =
    (name : String) × (entry : CatalogModel) × HasEntry name entry catalog
    × Permits (Dict.get config.access_rules key_hash) name
    × (serialize_catalog_model entry ≡ m)

module _ (config : AppConfig) (key_hash : String) where
  visible_models-IsVisible :
      (catalog : Dict CatalogModel) (m : JsonObject)
      → IsIn m (visible_models config key_hash catalog)
      → IsVisible config key_hash catalog m
  unfolding visible_models
  visible_models-IsVisible [] m h = absurd h
  visible_models-IsVisible ((name, entry) ∷ catalog) m h =
      elim (Bool-cases (check_model_access config key_hash name).0) [
        | inl granted ↦ here granted (visible_models-IsVisible catalog m) (rw granted at h)
        | inr denied ↦ later (visible_models-IsVisible catalog m (rw denied at h))
      ]
    where
      later :
          IsVisible config key_hash catalog m
          → IsVisible config key_hash ((name, entry) ∷ catalog) m
      later (n, e, listed, permitted, same) = (n, e, inr listed, permitted, same)

      here :
          (check_model_access config key_hash name).0 ≡ true
          → (IsIn m (visible_models config key_hash catalog) → IsVisible config key_hash catalog m)
          → (serialize_catalog_model entry ≡ m) ⊎ IsIn m (visible_models config key_hash catalog)
          → IsVisible config key_hash ((name, entry) ∷ catalog) m
      here granted rest (inl same) = (
        name,
        entry,
        inl (refl, refl),
        (check_model_access_iff config key_hash name).0 granted,
        same,
      )
      here granted rest (inr h) = later (rest h)

  IsIn-visible_models :
      (catalog : Dict CatalogModel) (m : JsonObject)
      → IsVisible config key_hash catalog m
      → IsIn m (visible_models config key_hash catalog)
  unfolding visible_models
  IsIn-visible_models [] m (name, entry, listed, permitted, same) = absurd listed
  IsIn-visible_models ((j, w) ∷ catalog) m (name, entry, inl (named, same_entry), permitted, same) =
      let granted : (check_model_access config key_hash j).0 ≡ true =
        rw named ((check_model_access_iff config key_hash name).1 permitted) in
      rw granted (inl (ap (λ (e : CatalogModel). serialize_catalog_model e) same_entry ∙ same))
  IsIn-visible_models ((j, w) ∷ catalog) m (name, entry, inr listed, permitted, same) =
      let rest = IsIn-visible_models catalog m (name, entry, listed, permitted, same) in
      elim (Bool-cases (check_model_access config key_hash j).0) [
        | inl granted ↦ rw granted (inr rest)
        | inr denied ↦ rw denied rest
      ]

answer_models-IsVisible :
    (env : Env) (v : Validation) (models : List JsonObject) (m : JsonObject)
    → answer_models env v ≡ continue models
    → (v.0 ≡ true)
      × (IsIn m models
          ↔ IsVisible env.config v.1 (get_proxy_model_catalog env.config env.provider_models) m)
answer_models-IsVisible env (true, key_hash, known) models m h = (
  refl,
  let e : visible_models env.config key_hash
            (get_proxy_model_catalog env.config env.provider_models)
          ≡ models =
        cc in
      rw (← e) (
        visible_models-IsVisible env.config key_hash _ m,
        IsIn-visible_models env.config key_hash _ m,
      ),
)
answer_models-IsVisible env (false, key_hash, known) models m h = absurd cc

-- A client that is to be let in is shown exactly the models of the catalog that its key may use, and
-- a client that is not is shown none.
pub list_models-IsVisible :
    (env : Env) (headers : Dict String) (models : List JsonObject) (m : JsonObject)
    → list_models env headers ≡ continue models
    → (let key = extract_api_key headers in
        let keys = configured_keys env in
        let bypass = env.config.bypass.enabled in
        IsAdmitted env.hash_api_key keys key bypass
        × (IsIn m models
            ↔ IsVisible env.config
                (validate_proxy_api_key env.hash_api_key keys key bypass).1
                (get_proxy_model_catalog env.config env.provider_models)
                m))
unfolding list_models
list_models-IsVisible env headers models m h =
    let (admitted, visible) =
      answer_models-IsVisible env
        (validate_proxy_api_key env.hash_api_key (configured_keys env) (extract_api_key headers)
          env.config.bypass.enabled)
        models m h in
    (
      (validate_proxy_api_key_iff env.hash_api_key (configured_keys env) (extract_api_key headers)
            env.config.bypass.enabled).0
          admitted,
      visible,
    )
