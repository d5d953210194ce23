-- ===== src/OpenaiCompat/Bodies.antt =====
-- Which fields a provider gets.
use ai_proxy.Common.{
  String, ◌≡◌, refl, ◌∙◌, inl, inr, ◌⊎◌, Bool, true, false, ◌||◌, Option, none, some, List, ◌∷◌,
  arith, ◌==◌, eq_refl, if◌then◌else◌, contains, Bool-cases, Option-cases, ◌>>=◌,
}
use ai_proxy.Dict
use ai_proxy.Dict.{Dict}
use ai_proxy.Dict.Laws.{get-set, get-pop, get-pop_all, get-set_default, get-set_default-none}
use ai_proxy.Text.{lower, has_prefix}
use ai_proxy.Text.Laws.{drop_prefix-append}
use ai_proxy.Json.{Json, bool, str, JsonObject, get_truthy, get_object, get_str, as_object}
use ai_proxy.Json.Laws.{to_dict-from_dict}
use ai_proxy.OpenaiCompat.{
  google_unsupported_params, fireworks_unsupported_params, fireworks_model_prefix,
  set_google_thinking, add_thoughts, add_effort, add_usage_option, prepare_google_body,
  fireworks_model, prepare_fireworks_body, map_google_gemma_reasoning_effort, or_empty_object,
  extract_google_reasoning_effort, rename_model, add_fireworks_effort,
}

-- The fields that the adapter for Google writes itself.
abbrev pub IsLeft : String → Type 0
IsLeft k =
    (("extra_body" == k) ≡ false)
    × (("reasoning_effort" == k) ≡ false)
    × (("stream_options" == k) ≡ false)

-- The fields that it takes out.
abbrev pub google_removed : List String
google_removed = "provider" ∷ "include" ∷ "reasoning" ∷ google_unsupported_params

get-set_google_thinking :
    (d : JsonObject) (key k : String) (v : Json)
    → ("extra_body" == k) ≡ false
    → Dict.get (set_google_thinking d key v) k ≡ Dict.get d k
unfolding set_google_thinking
get-set_google_thinking d key k v h = rw (get-set, h)

get-add_thoughts :
    (include : Option Json) (d : JsonObject) (k : String)
    → ("extra_body" == k) ≡ false
    → Dict.get (add_thoughts include d) k ≡ Dict.get d k
unfolding add_thoughts
get-add_thoughts include d k h =
    ground (arith, get-set_google_thinking d "include_thoughts" k (bool true))

get-add_effort :
    (effort : Option String) (d : JsonObject) (k : String)
    → IsLeft k
    → Dict.get (add_effort effort d) k ≡ Dict.get d k
unfolding add_effort
get-add_effort none d k h = refl
get-add_effort (some e) d k h = ground (
  arith,
  get-set d "reasoning_effort" k (str e),
  get-set_google_thinking d "thinking_level" k (str (map_google_gemma_reasoning_effort e)),
)

get-add_usage_option :
    (d : JsonObject) (k : String)
    → ("stream_options" == k) ≡ false
    → Dict.get (add_usage_option d) k ≡ Dict.get d k
unfolding add_usage_option
get-add_usage_option d k h = elim (Bool-cases (get_truthy d "stream")) [
  | inl on ↦ rw on (rw (get-set, h))
  | inr off ↦ rw off
]

four_tests :
    (p i r u : Bool) (x : Option Json)
    → (if r then none else if i then none else if u then none else if p then none else x)
      ≡ (if p || (i || (r || u)) then none else x)
four_tests p i r u x = ground arith

-- Of the fields other than `extra_body`, `reasoning_effort` and `stream_options`, Google gets
-- each as the client gave it, unless it is one that Google does not take, or `provider`,
-- `include` or `reasoning`: none of these is sent.
pub get-prepare_google_body :
    (body : JsonObject) (k : String)
    → IsLeft k
    → Dict.get (prepare_google_body body) k
      ≡ (if contains k google_removed then none else Dict.get body k)
unfolding prepare_google_body
get-prepare_google_body body k h =
    get-add_usage_option _ k h.2
    ∙ get-add_effort _ _ k h
    ∙ get-pop _ "reasoning_effort" k
    ∙ rw (h.1, get-pop)
        (rw (get-add_thoughts, h.0, get-pop, get-pop_all, get-pop)
          (four_tests ("provider" == k) ("include" == k) ("reasoning" == k) _ (Dict.get body k)))

get_truthy-cong :
    (d e : JsonObject) (k : String) → Dict.get d k ≡ Dict.get e k → get_truthy d k ≡ get_truthy e k
unfolding get_truthy
get_truthy-cong d e k h = rw h

contains-set_default :
    (d : JsonObject) (k : String) (v : Json) → Dict.contains (Dict.set_default d k v) k ≡ true
contains-set_default d k v = elim (Option-cases (Dict.get d k)) [
  | inl absent ↦ rw (get-set_default-none d k k v absent, eq_refl k) refl
  | inr (w, present) ↦ rw (get-set_default d k k v w present, present) refl
]

add_usage_option-included :
    (d : JsonObject)
    → get_truthy d "stream" ≡ true
    → (options : JsonObject) × (get_object (add_usage_option d) "stream_options" ≡ some options)
      × (Dict.contains options "include_usage" ≡ true)
unfolding add_usage_option
add_usage_option-included d on =
    let given = or_empty_object (get_object d "stream_options") in
    (
      Dict.set_default given "include_usage" (bool true),
      rw on (simp (get-set, to_dict-from_dict)),
      contains-set_default given "include_usage" (bool true),
    )

-- What is prepared for Google before the option for streams is added.
abbrev before_usage : JsonObject → JsonObject
before_usage body =
    let supported = Dict.pop_all (Dict.pop body "provider") google_unsupported_params in
    let with_thoughts =
      add_thoughts (Dict.get supported "include") (Dict.pop supported "include") in
    add_effort
      (extract_google_reasoning_effort (Dict.get with_thoughts "reasoning")
        (Dict.get with_thoughts "reasoning_effort"))
      (Dict.pop (Dict.pop with_thoughts "reasoning") "reasoning_effort")

get-before_usage-stream :
    (body : JsonObject) → Dict.get (before_usage body) "stream" ≡ Dict.get body "stream"
get-before_usage-stream body =
    get-add_effort _ _ "stream" (refl, refl, refl)
    ∙ get-pop _ "reasoning_effort" "stream"
    ∙ get-pop _ "reasoning" "stream"
    ∙ get-add_thoughts _ _ "stream" refl
    ∙ get-pop _ "include" "stream"
    ∙ get-pop_all _ google_unsupported_params "stream"
    ∙ get-pop body "provider" "stream"

-- The options for the stream that Google gets with a request that streams have `include_usage`.
pub prepare_google_body-include_usage :
    (body : JsonObject)
    → get_truthy body "stream" ≡ true
    → (options : JsonObject) × (get_object (prepare_google_body body) "stream_options"
        ≡ some options)
      × (Dict.contains options "include_usage" ≡ true)
unfolding prepare_google_body
prepare_google_body-include_usage body on =
    add_usage_option-included (before_usage body)
      (get_truthy-cong (before_usage body) body "stream" (get-before_usage-stream body) ∙ on)

-- The prefix of Fireworks is there after it was added, and is added once.
pub fireworks_model-prefixed :
    (model : String) → has_prefix fireworks_model_prefix (fireworks_model model) ≡ true
unfolding fireworks_model
fireworks_model-prefixed model = elim (Bool-cases (has_prefix fireworks_model_prefix model)) [
  | inl there ↦ rw there there
  | inr absent ↦ rw absent (rw (drop_prefix-append fireworks_model_prefix model) refl)
]

fireworks_model-kept :
    (model : String)
    → (has_prefix fireworks_model_prefix model ≡ false) ⊎ (fireworks_model model ≡ model)
unfolding fireworks_model
fireworks_model-kept model = ground arith

get-add_fireworks_effort :
    (effort : Option String) (d : JsonObject) (k : String)
    → ("reasoning_effort" == k) ≡ false
    → Dict.get (add_fireworks_effort effort d) k ≡ Dict.get d k
get-add_fireworks_effort none d k h = refl
get-add_fireworks_effort (some e) d k h =
    ground (arith, get-set d "reasoning_effort" k (str (lower e)))

get-rename_model :
    (d : JsonObject) (model : String)
    → Dict.get d "model" ≡ some (str model)
    → Dict.get (rename_model (get_str d "model") d) "model" ≡ some (str (fireworks_model model))
get-rename_model d model h = rw h (get-set d "model" "model" (str (fireworks_model model)))

-- The model that Fireworks gets, where the client named one by a text, has the prefix of its
-- models, and is the client's own if that has the prefix.
pub prepare_fireworks_body-model :
    (body : JsonObject) (model : String)
    → Dict.get body "model" ≡ some (str model)
    → (sent : String) × (Dict.get (prepare_fireworks_body body) "model" ≡ some (str sent))
      × (has_prefix fireworks_model_prefix sent ≡ true)
      × ((has_prefix fireworks_model_prefix model ≡ false) ⊎ (sent ≡ model))
unfolding prepare_fireworks_body
prepare_fireworks_body-model body model h =
    let supported =
      Dict.pop_all (Dict.pop (Dict.pop body "provider") "include") fireworks_unsupported_params in
    let kept : Dict.get supported "model" ≡ some (str model) =
      get-pop_all _ fireworks_unsupported_params "model"
      ∙ get-pop _ "include" "model"
      ∙ get-pop body "provider" "model"
      ∙ h in
    let named = rename_model (get_str supported "model") supported in
    (
      fireworks_model model,
      get-add_fireworks_effort
            (Dict.get named "reasoning" >>= as_object >>= λ reasoning. get_str reasoning "effort")
            (Dict.pop named "reasoning") "model" refl
          ∙ get-pop named "reasoning" "model"
          ∙ get-rename_model supported model kept,
      fireworks_model-prefixed model,
      fireworks_model-kept model,
    )
