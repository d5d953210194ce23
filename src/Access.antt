-- ===== src/Access.antt =====
-- core/access.py: may the key use the model?
pub mod Laws
use ai_proxy.Common.{
  String, append, Bool, true, false, Option, none, some, List, [], ◌∷◌, if◌then◌else◌, any,
  is_empty,
}
use ai_proxy.Dict
use ai_proxy.Text.Glob.{fnmatch}
use ai_proxy.Config.{AppConfig, AccessRule}

-- The loops over the patterns: does one of them match?
abbrev pub matches_any : String → List String → Bool
matches_any model patterns = any (fnmatch model) patterns

unfoldable pub check_rule : Option AccessRule → String → Bool × String
check_rule none model = (true, "")
check_rule (some rule) model =
    if matches_any model rule.block
    then (false, append "Model " (append model " is blocked for this API key"))
    else if is_empty rule.allow
    then (true, "")
    else if matches_any model rule.allow
    then (true, "")
    else (false, append "Model " (append model " is not in the allowlist for this API key"))

unfoldable pub check_model_access : AppConfig → String → String → Bool × String
unfolding check_rule
check_model_access config client_key_hash model =
    if is_empty config.access_rules
    then (true, "")
    else check_rule (Dict.get config.access_rules client_key_hash) model
