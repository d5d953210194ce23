-- ===== src/Handlers/Logged.antt =====
-- What the log says of a response that the client got, and when the client gets one.
use ai_proxy.Common.{
  Option-cases, ◌∙◌, ℕ, String, ◌≡◌, refl, ap, inl, inr, not, ◌||◌, Option, none, some, arith,
  Bool-cases, ltb, bind-some, bind-of, some-injective,
}
use ai_proxy.Dict
use ai_proxy.Json.{ℤ, Json, null, bool, int, float, str, arr, obj, to_dict}
use ai_proxy.Upstream.{
  ProviderResponse, ProviderStreamResponse, Bytes, TransportError, Outcome, responded, failed,
  raised, parse_body, parsed_error_body,
}
use ai_proxy.LogEntry.{LogEntry, ProxyContext, container, log_entry, from_proxy_context}
use ai_proxy.ResponseUtils.{
  extract_usage, extract_cost, normalize_error_response_body, extract_error_message,
  inject_ai_proxy_route, normalize_by, message_in,
}
use ai_proxy.Handlers.{
  Tools, Call, Response, context, transport_error_status, transport_error_response,
  transport_error_context, non_streaming_context, stream_error_context, inject_route,
  transport_error_body, client_body_of, finalize_non_streaming_response, handle_non_streaming,
  stream_error_response, error_text,
}

-- The entry is for the call, and says that the client got this status with this error.
pub record IsEntryOf (call : Call) (status : ℕ) (entry : LogEntry) : Type 0 where
  pub for_request : entry.id ≡ call.request_id
  pub for_key : entry.client_api_key_hash ≡ some call.key_hash
  pub for_model : entry.model_resolved ≡ some call.route.mapped_model
  pub for_provider : entry.provider_name ≡ some call.route.provider_name
  pub with_status : entry.response_status_code ≡ some status

-- The context says of the call what the call is.
pub record IsContextOf (call : Call) (c : ProxyContext) : Type 0 where
  pub for_request : c.entry_id ≡ call.request_id
  pub for_key : c.client_api_key_hash ≡ call.key_hash
  pub for_model : c.model_resolved ≡ call.route.mapped_model
  pub for_provider : c.provider_name ≡ call.route.provider_name

pub from_proxy_context-IsEntryOf :
    (validate_int : Option Json → Option (Option ℤ)) (call : Call) (c : ProxyContext)
    (entry : LogEntry)
    → IsContextOf call c
    → from_proxy_context validate_int c ≡ some entry
    → IsEntryOf call c.response_status_code entry
unfolding from_proxy_context
from_proxy_context-IsEntryOf validate_int call c entry of_call h =
    let (a, e₁, h₁) = bind-some (container c.response_body) _ h in
    let (b, e₂, h₂) = bind-some (container c.client_response_body) _ h₁ in
    let (i, e₃, h₃) = bind-some (validate_int c.input_tokens) _ h₂ in
    let (o, e₄, h₄) = bind-some (validate_int c.output_tokens) _ h₃ in
    let (t, e₅, h₅) = bind-some (validate_int c.total_tokens) _ h₄ in
    rw (← some-injective h₅) (record {
      for_request = of_call.for_request;
      for_key = ap (λ (s : String). some s) of_call.for_key;
      for_model = ap (λ (s : String). some s) of_call.for_model;
      for_provider = ap (λ (s : String). some s) of_call.for_provider;
      with_status = refl;
    })

module _ (tools : Tools) (call : Call) (response : Response) (entry : LogEntry) where
  IsEntryOf-transport_error :
      (error : TransportError)
      → transport_error_response tools call error ≡ some (response, entry)
      → IsEntryOf call response.status_code entry
  unfolding transport_error_response transport_error_context context
  IsEntryOf-transport_error error h =
      let (e, made, h₁) = bind-some (from_proxy_context tools.validate_int _) _ h in
      rw
        (
          ← ap (λ (p : Response × LogEntry). p.0) (some-injective h₁),
          ← ap (λ (p : Response × LogEntry). p.1) (some-injective h₁),
        )
        (from_proxy_context-IsEntryOf tools.validate_int call _ e
          (record { for_request = refl; for_key = refl; for_model = refl; for_provider = refl })
          made)

  IsEntryOf-finalize :
      (upstream : ProviderResponse)
      → finalize_non_streaming_response tools call upstream ≡ some (response, entry)
      → IsEntryOf call response.status_code entry
  unfolding finalize_non_streaming_response non_streaming_context context
  IsEntryOf-finalize upstream h =
      let (body, read, h₃) = bind-some (parse_body tools.codec upstream.body) _ h in
      let (cost, in_range, h₂) = bind-some (extract_cost tools.floats body) _ h₃ in
      let (e, made, h₁) = bind-some (from_proxy_context tools.validate_int _) _ h₂ in
      let d =
        from_proxy_context-IsEntryOf tools.validate_int call _ e
          (record { for_request = refl; for_key = refl; for_model = refl; for_provider = refl })
          made in
      rw
        (
          ← ap (λ (p : Response × LogEntry). p.0) (some-injective h₁),
          ← ap (λ (p : Response × LogEntry). p.1) (some-injective h₁),
        )
        (record {
          for_request = d.for_request;
          for_key = d.for_key;
          for_model = d.for_model;
          for_provider = d.for_provider;
          with_status = d.with_status;
        })

  -- A response to a request that does not stream comes with an entry for the log that has the
  -- same status, and the request, the key, the model and the provider that the call was for,
  -- however the call of the adapter ended.
  pub handle_non_streaming-IsEntryOf :
      (outcome : Outcome ProviderResponse)
      → handle_non_streaming tools call outcome ≡ some (response, entry)
      → IsEntryOf call response.status_code entry
  unfolding handle_non_streaming
  handle_non_streaming-IsEntryOf (responded upstream) h = IsEntryOf-finalize upstream h
  handle_non_streaming-IsEntryOf (failed error) h = IsEntryOf-transport_error error h
  handle_non_streaming-IsEntryOf raised h = cc

-- What makes a value one that can be logged.
abbrev pub IsContainer : Json → Type 0
IsContainer v = container v ≡ some v

IsContainer-normalize : (v : Json) → IsContainer v → IsContainer (normalize_error_response_body v)
unfolding normalize_error_response_body
IsContainer-normalize null h = refl
IsContainer-normalize (arr vs) h = refl
IsContainer-normalize (obj fs) h = elim (Bool-cases (Dict.contains (to_dict fs) "raw_text")) [
  | inl raw ↦ rw raw refl
  | inr plain ↦ rw plain (by_message (message_in (to_dict fs)))
]
  where
    by_message : (o : Option String) → IsContainer (normalize_by (to_dict fs) o (obj fs))
    by_message none = refl
    by_message (some m) = ground arith
IsContainer-normalize (bool b) h = cc
IsContainer-normalize (int n) h = cc
IsContainer-normalize (float x) h = cc
IsContainer-normalize (str s) h = cc

-- The entry is made where its parts are valid, and has them.
pub from_proxy_context-made :
    (validate_int : Option Json → Option (Option ℤ)) (c : ProxyContext)
    (input output total : Option ℤ)
    → IsContainer c.response_body
    → IsContainer c.client_response_body
    → (validate_int c.input_tokens ≡ some input)
      × (validate_int c.output_tokens ≡ some output)
      × (validate_int c.total_tokens ≡ some total)
    → (e : LogEntry) × (from_proxy_context validate_int c ≡ some e)
      × (e.error_message ≡ c.error_message)
      × (e.response_body ≡ c.response_body)
      × (e.input_tokens ≡ input)
      × (e.output_tokens ≡ output)
      × (e.total_tokens ≡ total)
unfolding from_proxy_context
from_proxy_context-made validate_int c input output total h k counts = (
  log_entry c c.response_body c.client_response_body input output total,
  rw (h, k, counts.0, counts.1, counts.2) refl,
  refl,
  refl,
  refl,
  refl,
  refl,
)

module _ (tools : Tools) (call : Call) where
  IsContainer-inject : (v : Json) → IsContainer v → IsContainer (inject_route tools call v)
  unfolding inject_route inject_ai_proxy_route
  IsContainer-inject (obj fs) h =
      elim (Bool-cases
        (not tools.include_ai_proxy_route || Dict.contains (to_dict fs) "raw_text")) [
          | inl skip ↦ rw skip refl
          | inr put ↦ rw put refl
        ]
  IsContainer-inject null h = refl
  IsContainer-inject (arr vs) h = refl
  IsContainer-inject (bool b) h = cc
  IsContainer-inject (int n) h = cc
  IsContainer-inject (float x) h = cc
  IsContainer-inject (str s) h = cc

  IsContainer-client_body_of :
      (status : ℕ) (v : Json) → IsContainer v → IsContainer (client_body_of tools call status v)
  unfolding client_body_of
  IsContainer-client_body_of status v h = elim (Bool-cases (ltb status 400)) [
    | inl good ↦ rw good (IsContainer-inject v h)
    | inr bad ↦ rw bad (IsContainer-inject _ (IsContainer-normalize v h))
  ]

  -- A call that fails in transport is always answered, by 504 where the provider took too long
  -- and else by 502, and its entry has the text of the error, where an absent count of tokens is
  -- valid.
  pub handle_non_streaming-failed :
      (error : TransportError)
      → tools.validate_int none ≡ some none
      → (answer : Response × LogEntry) × (handle_non_streaming tools call (failed error)
          ≡ some answer)
        × (answer.0.status_code ≡ transport_error_status error)
        × (answer.1.error_message ≡ some (error_text error))
  unfolding handle_non_streaming transport_error_response transport_error_context context
      transport_error_body
  handle_non_streaming-failed error absent =
      let (e, made, message, stored, i, o, t) =
        from_proxy_context-made tools.validate_int (transport_error_context tools call error) none
          none none refl (IsContainer-inject _ refl) (absent, absent, absent) in
      (_, bind-of _ _ made, refl, message)

  -- A provider's response is passed on with its status, where its body is read and is an object, a
  -- list or empty, its costs are in the range of floats and its counts of tokens are valid; the entry
  -- has the body, the cost and the counts.
  pub handle_non_streaming-responded :
      (upstream : ProviderResponse) (body : Json) (cost : Option ℕ) (input output total : Option ℤ)
      → parse_body tools.codec upstream.body ≡ some body
      → IsContainer body
      → extract_cost tools.floats body ≡ some cost
      → (let (i, o, t) = extract_usage body in
          (tools.validate_int i ≡ some input)
          × (tools.validate_int o ≡ some output)
          × (tools.validate_int t ≡ some total))
      → (answer : Response × LogEntry) × (handle_non_streaming tools call (responded upstream)
          ≡ some answer)
        × (answer.0.status_code ≡ upstream.status_code)
        × (answer.1.response_body ≡ body)
        × (answer.1.cost ≡ cost)
        × (answer.1.input_tokens ≡ input)
        × (answer.1.output_tokens ≡ output)
        × (answer.1.total_tokens ≡ total)
  unfolding handle_non_streaming finalize_non_streaming_response non_streaming_context context
  handle_non_streaming-responded upstream body cost input output total read h in_range counts =
      let (e, made, message, stored, i, o, t) =
        from_proxy_context-made tools.validate_int (non_streaming_context tools call upstream body)
          input output total h (IsContainer-client_body_of upstream.status_code _ h) counts in
      (_, bind-of _ _ read ∙ bind-of _ _ in_range ∙ bind-of _ _ made, refl, stored, refl, i, o, t)

  -- A provider's error to a request that streams is passed on with its status and comes with an
  -- entry for the call that has the message found in it, where its body is read and is an object, a
  -- list or empty and an absent count of tokens is valid.
  pub stream_error_response-answers :
      (upstream : ProviderStreamResponse) (error_body : Bytes) (body : Json)
      → parsed_error_body tools.codec upstream ≡ some body
      → IsContainer body
      → tools.validate_int none ≡ some none
      → (answer : Response × LogEntry) × (stream_error_response tools call upstream error_body
          ≡ some answer)
        × (answer.0.status_code ≡ upstream.status_code)
        × (answer.1.error_message ≡ extract_error_message body none)
        × IsEntryOf call upstream.status_code answer.1
  unfolding stream_error_response stream_error_context context
  stream_error_response-answers upstream error_body body read h absent =
      let (e, made, message, stored, i, o, t) =
        from_proxy_context-made tools.validate_int (stream_error_context tools call upstream body)
          none none none h (IsContainer-inject _ (IsContainer-normalize _ h))
          (absent, absent, absent) in
      (
        _,
        bind-of _ _ read ∙ bind-of _ _ made,
        refl,
        message,
        from_proxy_context-IsEntryOf tools.validate_int call
            (stream_error_context tools call upstream body) e
            (record { for_request = refl; for_key = refl; for_model = refl; for_provider = refl })
            made,
      )

  -- A provider's response whose body is a bare number, text or truth value is not passed on: its
  -- entry cannot be made, and the exception leaves the client without the response.
  pub handle_non_streaming-bare :
      (upstream : ProviderResponse) (body : Json)
      → parse_body tools.codec upstream.body ≡ some body
      → container body ≡ none
      → handle_non_streaming tools call (responded upstream) ≡ none
  unfolding handle_non_streaming finalize_non_streaming_response non_streaming_context
      from_proxy_context
  handle_non_streaming-bare upstream body read h =
      elim (Option-cases (extract_cost tools.floats body)) [
        | inl out_of_range ↦ rw (read, out_of_range) refl
        | inr (cost, in_range) ↦ rw (read, in_range, h) refl
      ]
