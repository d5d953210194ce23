-- ===== src/Access/Laws.antt =====
-- When access is granted.
use ai_proxy.Common.{
  String, ◌≡◌, refl, ◌↔◌, ◌⊎◌, true, false, Option, none, some, [], ◌∷◌, arith, is_empty,
  if◌then◌else◌,
}
use ai_proxy.Dict
use ai_proxy.Dict.{Dict}
use ai_proxy.Dict.Laws.{get-empty}
use ai_proxy.Config.{AppConfig, AccessRule}
use ai_proxy.Access.{matches_any, check_rule, check_model_access}

-- What a rule says of a model: no pattern blocks it, and one allows it unless none is listed.
abbrev pub Permits : Option AccessRule → String → Type 0
Permits none model = Unit
Permits (some rule) model =
    (matches_any model rule.block ≡ false)
    × ((rule.allow ≡ []) ⊎ (matches_any model rule.allow ≡ true))

check_rule_iff :
    (o : Option AccessRule) (model : String) → ((check_rule o model).0 ≡ true) ↔ Permits o model
unfolding check_rule
check_rule_iff none model = (λ e. tt, λ h. refl)
check_rule_iff (some rule) model = ground arith

Permits-none : {o : Option AccessRule} → o ≡ none → (model : String) → Permits o model
Permits-none e model = rw e tt

-- A key may use a model exactly when the rule for the key, if there is one, permits it: blocking
-- comes before allowing, and a key without a rule may use every model.
pub check_model_access_iff :
    (config : AppConfig) (key model : String)
    → ((check_model_access config key model).0 ≡ true)
      ↔ Permits (Dict.get config.access_rules key) model
unfolding check_model_access
check_model_access_iff config key model = split config.access_rules
  where
    split :
        (rules : Dict AccessRule)
        → ((if is_empty rules then (true, "") else check_rule (Dict.get rules key) model).0 ≡ true)
          ↔ Permits (Dict.get rules key) model
    split [] = (λ e. Permits-none (get-empty key) model, λ h. refl)
    split (r ∷ rs) = check_rule_iff (Dict.get (r ∷ rs) key) model
