-- ===== src/Modification.antt =====
-- core/modification.py: the rules that rewrite a request on its way to a provider.
pub mod Laws
use ai_proxy.Common.{String, Bool, ◌&&◌, Option, none, some, List, [], ◌∷◌, ◌==◌, if◌then◌else◌}
use ai_proxy.Dict
use ai_proxy.Dict.{Dict}
use ai_proxy.Text.Glob.{fnmatch}
use ai_proxy.Json.{Json, null, str, JsonObject}
use ai_proxy.Config.{ModificationRule}

-- `rule.value or ""`
abbrev pub text_value : Option String → String
text_value none = ""
text_value (some s) = s

abbrev pub json_value : Option String → Json
json_value none = null
json_value (some s) = str s

unfoldable pub rule_applies : String → String → ModificationRule → Bool
rule_applies provider_name model rule =
    fnmatch provider_name rule.match_provider && fnmatch model rule.match_model

unfoldable pub apply_rule : ModificationRule → JsonObject × Dict String → JsonObject × Dict String
apply_rule rule (request_body, headers) =
    if rule.action == "add_header"
    then (request_body, Dict.set headers rule.key (text_value rule.value))
    else if rule.action == "remove_header"
    then (request_body, Dict.pop headers rule.key)
    else if rule.action == "set_field"
    then (Dict.set request_body rule.key (json_value rule.value), headers)
    else if rule.action == "remove_field"
    then (Dict.pop request_body rule.key, headers)
    else (request_body, headers)

unfoldable pub apply_modifications :
    List ModificationRule → String → String → JsonObject × Dict String → JsonObject × Dict String
apply_modifications [] provider_name model request = request
apply_modifications (rule ∷ rules) provider_name model request =
    apply_modifications rules provider_name model
      (if rule_applies provider_name model rule then apply_rule rule request else request)
