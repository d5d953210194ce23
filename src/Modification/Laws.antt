-- ===== src/Modification/Laws.antt =====
-- What the rules leave alone, and what the last rule for a key decides.
use ai_proxy.Common.{
  String, ◌≡◌, refl, ◌∙◌, ◌⊎◌, inl, inr, true, false, Option, none, some, List, [], ◌∷◌, ◌++◌,
  arith, All, Bool-cases, eq_refl, ◌==◌, eq_iff, if◌then◌else◌,
}
use ai_proxy.Dict
use ai_proxy.Dict.{Dict}
use ai_proxy.Dict.Laws.{get-set, get-pop}
use ai_proxy.Json.{Json, JsonObject}
use ai_proxy.Config.{ModificationRule}
use ai_proxy.Modification.{text_value, json_value, rule_applies, apply_rule, apply_modifications}

-- The rule is for another key, or for another provider or model.
abbrev pub Spares : String → String → String → ModificationRule → Type 0
Spares provider model k rule =
    ((rule.key == k) ≡ false) ⊎ (rule_applies provider model rule ≡ false)

apply_rule_other :
    (rule : ModificationRule) (body : JsonObject) (headers : Dict String) (k : String)
    → (rule.key == k) ≡ false
    → (Dict.get (apply_rule rule (body, headers)).0 k ≡ Dict.get body k)
      × (Dict.get (apply_rule rule (body, headers)).1 k ≡ Dict.get headers k)
unfolding apply_rule
apply_rule_other rule body headers k h = grind (arith, get-set, get-pop)

-- A field or a header that no applicable rule names is the same after the rules as before them.
pub apply_modifications-Spares :
    (rules : List ModificationRule) (provider model k : String) (body : JsonObject)
    (headers : Dict String)
    → All (Spares provider model k) rules
    → (Dict.get (apply_modifications rules provider model (body, headers)).0 k ≡ Dict.get body k)
      × (Dict.get (apply_modifications rules provider model (body, headers)).1 k
          ≡ Dict.get headers k)
unfolding apply_modifications
apply_modifications-Spares [] provider model k body headers h = (refl, refl)
apply_modifications-Spares (rule ∷ rules) provider model k body headers h =
    elim (Bool-cases (rule_applies provider model rule)) [
      | inl applies ↦
          let (b, s) = apply_rule rule (body, headers) in
          let rest = apply_modifications-Spares rules provider model k b s h.1 in
          let this = apply_rule_other rule body headers k (ground arith) in
          rw (applies, apply_modifications) (rest.0 ∙ this.0, rest.1 ∙ this.1)
      | inr skipped ↦
          rw (skipped, apply_modifications)
            (apply_modifications-Spares rules provider model k body headers h.1)
    ]

apply_modifications-append :
    (rules later : List ModificationRule) (provider model : String) (r : JsonObject × Dict String)
    → apply_modifications (rules ++ later) provider model r
      ≡ apply_modifications later provider model (apply_modifications rules provider model r)
unfolding apply_modifications
apply_modifications-append [] later provider model r = refl
apply_modifications-append (rule ∷ rules) later provider model r =
    apply_modifications-append rules later provider model _

-- What a rule leaves under its own key in the body, where `old` was.
abbrev pub field_after : ModificationRule → Option Json → Option Json
field_after rule old =
    if rule.action == "set_field"
    then some (json_value rule.value)
    else if rule.action == "remove_field"
    then none
    else old

-- What it leaves in the headers.
abbrev pub header_after : ModificationRule → Option String → Option String
header_after rule old =
    if rule.action == "add_header"
    then some (text_value rule.value)
    else if rule.action == "remove_header"
    then none
    else old

apply_rule_own :
    (rule : ModificationRule) (body : JsonObject) (headers : Dict String)
    → (Dict.get (apply_rule rule (body, headers)).0 rule.key
        ≡ field_after rule (Dict.get body rule.key))
      × (Dict.get (apply_rule rule (body, headers)).1 rule.key
          ≡ header_after rule (Dict.get headers rule.key))
unfolding apply_rule
apply_rule_own rule body headers = elim (Bool-cases (rule.action == "add_header")) [
  | inl add ↦ rw ((eq_iff rule.action "add_header").0 add) (refl, rw (get-set, eq_refl))
  | inr e₁ ↦ elim (Bool-cases (rule.action == "remove_header")) [
    | inl remove ↦ rw ((eq_iff rule.action "remove_header").0 remove) (refl, rw (get-pop, eq_refl))
    | inr e₂ ↦ elim (Bool-cases (rule.action == "set_field")) [
      | inl put ↦ rw ((eq_iff rule.action "set_field").0 put) (rw (get-set, eq_refl), refl)
      | inr e₃ ↦ elim (Bool-cases (rule.action == "remove_field")) [
        | inl pop ↦ rw ((eq_iff rule.action "remove_field").0 pop) (rw (get-pop, eq_refl), refl)
        | inr e₄ ↦ rw (e₁, e₂, e₃, e₄) (refl, refl)
      ]
    ]
  ]
]

-- Of the rules that apply and have one key, the last one decides what the provider gets under it: it
-- sets or removes the field or the header, as its action says, whatever the rules before it did, and
-- only what its action does not concern is as those rules left it.
pub apply_modifications-last :
    (earlier later : List ModificationRule) (rule : ModificationRule) (provider model : String)
    (body : JsonObject) (headers : Dict String)
    → rule_applies provider model rule ≡ true
    → All (Spares provider model rule.key) later
    → (let before = apply_modifications earlier provider model (body, headers) in
        let sent = apply_modifications (earlier ++ rule ∷ later) provider model (body, headers) in
        (Dict.get sent.0 rule.key ≡ field_after rule (Dict.get before.0 rule.key))
        × (Dict.get sent.1 rule.key ≡ header_after rule (Dict.get before.1 rule.key)))
unfolding apply_modifications
apply_modifications-last earlier later rule provider model body headers applies spared =
    let (b, s) = apply_modifications earlier provider model (body, headers) in
    let (b', s') = apply_rule rule (b, s) in
    let own = apply_rule_own rule b s in
    let same = apply_modifications-Spares later provider model rule.key b' s' spared in
    rw
      (
        apply_modifications-append earlier (rule ∷ later) provider model (body, headers),
        apply_modifications,
        applies,
      )
      (same.0 ∙ own.0, same.1 ∙ own.1)
