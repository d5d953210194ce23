-- ===== src/Proxy/Guards.antt =====
-- What is certain of a request that reaches a provider.
use ai_proxy.Common.{
  append, ap, ◌∙◌, Option-cases, String, ◌≡◌, refl, inl, inr, Bool, true, false, Option, none, some,
  arith,
}
use ai_proxy.Dict
use ai_proxy.Dict.{Dict}
use ai_proxy.Text.{drop_prefix}
use ai_proxy.Text.Laws.{drop_prefix-append, drop_prefix-some}
use ai_proxy.Json.{Json, null, bool, int, float, str, arr, obj, JsonObject, Fields, to_dict}
use ai_proxy.Auth.{validate_proxy_api_key}
use ai_proxy.Auth.Laws.{IsAdmitted, validate_proxy_api_key_iff}
use ai_proxy.Access.{check_model_access}
use ai_proxy.Access.Laws.{Permits, check_model_access_iff}
use ai_proxy.Routing.{RouteResult, found, resolve_model}
use ai_proxy.Routing.Consistent.{IsConsistent, resolve_model-IsConsistent}
use ai_proxy.RateLimiter.{Limiter, is_queue_full, begin_acquire}
use ai_proxy.Flow.{
  Env, Reply, continue, respond, crash, ◌>>=◌, authenticated, authenticate_proxy_request,
  validate_and_route_request, route_model, route_value, configured_keys, extract_api_key,
  apply_rate_limit,
}
use ai_proxy.Proxy.{Request, Forwarded, parse_request_body, chat_completions}

-- Inversion of a step that let the request go on.
>>=-eq-continue :
    {A B : Type 0} (m : Reply A) (f : A → Reply B) {b : B}
    → (m >>= f) ≡ continue b
    → (a : A) × (m ≡ continue a) × (f a ≡ continue b)
>>=-eq-continue (continue a) f h = (a, refl, h)
>>=-eq-continue (respond s m) f h = cc
>>=-eq-continue crash f h = cc

continue-injective : {A : Type 0} {a b : A} → Path (Reply A) (continue a) (continue b) → a ≡ b
continue-injective e = cc

-- The key that the headers have: what follows `Bearer ` in `authorization`, and none where nothing does.
abbrev pub IsClientKey : Dict String → Option String → Type 0
IsClientKey headers (some k) = Dict.get headers "authorization" ≡ some (append "Bearer " k)
IsClientKey headers none =
    (k : String) → ¬ (Dict.get headers "authorization" ≡ some (append "Bearer " k))

extract_api_key-IsClientKey :
    (headers : Dict String) → IsClientKey headers (extract_api_key headers)
unfolding extract_api_key drop_prefix
extract_api_key-IsClientKey headers = elim (Option-cases (Dict.get headers "authorization")) [
  | inl absent ↦ rw (extract_api_key, absent) (λ k e. absurd (cc))
  | inr (v, given) ↦ elim (Option-cases (drop_prefix "Bearer " v)) [
    | inl other ↦
        rw (extract_api_key, given, other)
          (λ k e.
            let f = drop_prefix-append "Bearer " k in
            let same : v ≡ append "Bearer " k = cc in absurd (cc (rw (← same) at f, other)))
    | inr (k, bearer) ↦
        rw (extract_api_key, given, bearer)
          (given ∙ ap (λ (t : String). some t) (drop_prefix-some "Bearer " v k bearer))
  ]
]

-- The hash under which a client is known: that of its key, or of the text `anonymous` without one.
abbrev pub hash_of : (String → String) → Option String → String
hash_of hash none = hash "anonymous"
hash_of hash (some k) = hash k

authenticated-hash :
    (env : Env) (headers : Dict String) (a : String × String × Bool)
    → authenticate_proxy_request env headers ≡ continue a
    → IsAdmitted env.hash_api_key
        (configured_keys env)
        (extract_api_key headers)
        env.config.bypass.enabled
unfolding authenticate_proxy_request
authenticated-hash env headers a h =
    (validate_proxy_api_key_iff env.hash_api_key (configured_keys env) (extract_api_key headers)
        env.config.bypass.enabled).0
      (ground arith)

validated-hash :
    (env : Env) (o : Option String) (a : String × String × Bool)
    → authenticated o
        (validate_proxy_api_key env.hash_api_key (configured_keys env) o env.config.bypass.enabled)
      ≡ continue a
    → a.1 ≡ hash_of env.hash_api_key o
unfolding validate_proxy_api_key
validated-hash env none a h = ground arith
validated-hash env (some k) a h = ground arith

module _ (env : Env) (body : JsonObject) (key_hash model : String) (route : RouteResult) where
  route_model-found :
      (asked : String)
      → route_model env body key_hash asked ≡ continue (model, route)
      → (asked ≡ model)
        × ((check_model_access env.config key_hash model).0 ≡ true)
        × (resolve_model env.config env.registry env.provider_models model body ≡ found route)
  route_model-found asked h = ground arith

  validate_and_route_request-found :
      validate_and_route_request env body key_hash ≡ continue (model, route)
      → (Dict.get body "model" ≡ some (str model))
        × ((check_model_access env.config key_hash model).0 ≡ true)
        × (resolve_model env.config env.registry env.provider_models model body ≡ found route)
  unfolding validate_and_route_request
  validate_and_route_request-found h = go (Dict.get body "model") refl h
    where
      go :
          (o : Option Json)
          → Dict.get body "model" ≡ o
          → route_value env body key_hash o ≡ continue (model, route)
          → (Dict.get body "model" ≡ some (str model))
            × ((check_model_access env.config key_hash model).0 ≡ true)
            × (resolve_model env.config env.registry env.provider_models model body ≡ found route)
      go none e h = cc
      go (some (str asked)) e h = ground (arith, route_model-found asked)
      go (some v) e h = ground arith

-- What became of the limiters: those of a provider with a limiter had room, and one more waits there.
abbrev pub HasRoom : Dict Limiter → Dict Limiter → String → Option Limiter → Type 0
HasRoom limiters after provider none = after ≡ limiters
HasRoom limiters after provider (some l) =
    (is_queue_full l ≡ false) × (after ≡ Dict.set limiters provider (begin_acquire l))

apply_rate_limit-HasRoom :
    (limiters after : Dict Limiter) (provider : String)
    → apply_rate_limit limiters provider ≡ continue after
    → HasRoom limiters after provider (Dict.get limiters provider)
unfolding apply_rate_limit
apply_rate_limit-HasRoom limiters after provider h =
    elim (Option-cases (Dict.get limiters provider)) [
      | inl absent ↦ rw absent (ground arith)
      | inr (l, present) ↦ rw present (ground arith)
    ]

parse_request_body-decoded :
    (request : Request) (body : JsonObject)
    → parse_request_body request ≡ continue body
    → (fields : Fields) × (request.decoded ≡ some (obj fields)) × (to_dict fields ≡ body)
unfolding parse_request_body
parse_request_body-decoded request body h = by_value request.decoded refl
  where
    by_value :
        (o : Option Json)
        → request.decoded ≡ o
        → (fields : Fields) × (o ≡ some (obj fields)) × (to_dict fields ≡ body)
    by_value none e = let f = rw e at h in absurd (cc)
    by_value (some (obj fields)) e = let f = rw e at h in (fields, refl, cc)
    by_value (some null) e = let f = rw e at h in absurd (cc)
    by_value (some (bool b)) e = let f = rw e at h in absurd (cc)
    by_value (some (int n)) e = let f = rw e at h in absurd (cc)
    by_value (some (float x)) e = let f = rw e at h in absurd (cc)
    by_value (some (str t)) e = let f = rw e at h in absurd (cc)
    by_value (some (arr vs)) e = let f = rw e at h in absurd (cc)

-- What holds of a request that is handed to an adapter.
pub record IsGuarded (env : Env) (limiters : Dict Limiter) (request : Request) (f : Forwarded)
    : Type 0 where
  pub client_key : Option String
  pub sent : IsClientKey request.headers client_key
  pub admitted :
      IsAdmitted env.hash_api_key (configured_keys env) client_key env.config.bypass.enabled
  pub for_client : f.key_hash ≡ hash_of env.hash_api_key client_key
  pub fields : Fields
  pub decoded : request.decoded ≡ some (obj fields)
  pub asked : Dict.get (to_dict fields) "model" ≡ some (str f.model_requested)
  pub permitted :
      Permits
        (Dict.get env.config.access_rules (hash_of env.hash_api_key client_key))
        f.model_requested
  pub resolved :
      resolve_model env.config env.registry env.provider_models f.model_requested (to_dict fields)
      ≡ found f.route
  pub consistent : IsConsistent env.registry f.route
  pub room :
      HasRoom limiters f.limiters f.route.provider_name (Dict.get limiters f.route.provider_name)

-- A request reaches an adapter only if the key in its headers, or its having none, is to be let in,
-- the access rules under the hash of this key permit the model that its body asks for, and this model
-- has a route, whose adapter is the registered one of the route's provider. The queue of the
-- provider's limiter, if it has one, was not full; and then the request joined that queue. It is
-- handed on with this hash, this model and this route.
pub chat_completions-IsGuarded :
    (env : Env) (limiters : Dict Limiter) (request : Request) (f : Forwarded)
    → chat_completions env limiters request ≡ continue f
    → IsGuarded env limiters request f
unfolding chat_completions authenticate_proxy_request
chat_completions-IsGuarded env limiters request f h =
    let (body, parsed, h₁) = >>=-eq-continue (parse_request_body request) _ h in
    let (fields, decoded, same) = parse_request_body-decoded request body parsed in
    let (auth, authentic, h₂) =
      >>=-eq-continue (authenticate_proxy_request env request.headers) _ h₁ in
    let (choice, chosen, h₃) = >>=-eq-continue (validate_and_route_request env body auth.1) _ h₂ in
    let (limiters', limited, h₄) =
      >>=-eq-continue (apply_rate_limit limiters choice.1.provider_name) _ h₃ in
    let facts = validate_and_route_request-found env body auth.1 choice.0 choice.1 chosen in
    let hash = validated-hash env (extract_api_key request.headers) auth authentic in
    rw (← continue-injective h₄) (record {
      client_key = extract_api_key request.headers;
      sent = extract_api_key-IsClientKey request.headers;
      admitted = authenticated-hash env request.headers auth authentic;
      for_client = hash;
      fields = fields;
      decoded = decoded;
      asked = rw same facts.0;
      permitted = rw (← hash) ((check_model_access_iff env.config auth.1 choice.0).0 facts.1);
      resolved = rw same facts.2;
      consistent =
          resolve_model-IsConsistent env.config env.registry env.provider_models choice.0 body
            choice.1 facts.2;
      room = apply_rate_limit-HasRoom limiters limiters' choice.1.provider_name limited;
    })
