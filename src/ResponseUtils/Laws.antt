-- ===== src/ResponseUtils/Laws.antt =====
-- What the client's copy of a response keeps, and what it has for certain.
use ai_proxy.Common.{
  String, ◌≡◌, refl, ◌∙◌, inl, inr, Bool, true, false, not, ◌||◌, ◌&&◌, Option, none, some, ◌==◌,
  if◌then◌else◌, contains, Bool-cases, Option-cases, or_else, ◌>>=◌,
}
use ai_proxy.Dict
use ai_proxy.Dict.{Dict}
use ai_proxy.Dict.Laws.{get-set, get-cons, get-filter_keys, get-set_default, get-set_default-none}
use ai_proxy.Text.{lower}
use ai_proxy.Json.{
  Json, null, bool, int, float, str, arr, obj, object, as_object, to_dict, JsonObject, get_object,
  get_str,
}
use ai_proxy.Json.Laws.{to_dict-from_dict}
use ai_proxy.Routing.{RouteResult}
use ai_proxy.ResponseUtils.{
  hop_by_hop_headers, proxy_response_headers, message_in, extract_error_message, with_message,
  normalize_by, normalize_object, normalize_error_response_body, inject_ai_proxy_route,
}

if-not :
    {A : Type 0} (b : Bool) (x : Option A) → (if not b then x else none) ≡ (if b then none else x)
if-not true x = refl
if-not false x = refl

if-not-swap :
    {A : Type 0} (c b : Bool) (a x : Option A)
    → (if c then a else if not b then x else none) ≡ (if c then a else if b then none else x)
if-not-swap true b a x = refl
if-not-swap false b a x = if-not b x

-- The headers for the client are those of the provider but the ones for a single hop, however
-- their names are spelled in ASCII, and with a JSON body `content-type` says so.
pub get-proxy_response_headers :
    (headers : Dict String) (json_body : Bool) (k : String)
    → Dict.get (proxy_response_headers headers json_body) k ≡ (
        if json_body && ("content-type" == k)
        then some "application/json"
        else if contains (lower k) hop_by_hop_headers
        then none
        else Dict.get headers k)
unfolding proxy_response_headers
get-proxy_response_headers headers true k =
    get-set _ "content-type" k "application/json"
    ∙ rw get-filter_keys (
        if-not-swap ("content-type" == k) (contains (lower k) hop_by_hop_headers)
          (some "application/json") (Dict.get headers k))
get-proxy_response_headers headers false k =
    get-filter_keys _ headers k ∙ if-not (contains (lower k) hop_by_hop_headers) _

-- The message is found as before where it was written into an error that had none.
message-with_message :
    (error : Option JsonObject) (m : String) (other : Option String)
    → or_else (error >>= λ e. get_str e "message") other ≡ some m
    → or_else (get_str (with_message error m) "message") other ≡ some m
message-with_message none m other h = rw get-cons refl
message-with_message (some e) m other h = elim (Option-cases (Dict.get e "message")) [
  | inl absent ↦ rw (get-set_default-none e "message" "message" (str m) absent) refl
  | inr (w, present) ↦ rw (get-set_default e "message" "message" (str m) w present) h
]

message_in-with_message :
    (body : JsonObject) (m : String)
    → message_in body ≡ some m
    → message_in (Dict.set body "error" (object (with_message (get_object body "error") m)))
      ≡ some m
message_in-with_message body m h =
    rw (get-set, get-set, get-set)
      (rw to_dict-from_dict (message-with_message (get_object body "error") m _ h))

extract-normalize_object :
    (body : JsonObject) (v : Json) (fallback : Option String)
    → as_object v ≡ some body
    → extract_error_message (normalize_object body v) fallback ≡ extract_error_message v fallback
unfolding extract_error_message
extract-normalize_object body v fallback h = elim (Bool-cases (Dict.contains body "raw_text")) [
  | inl raw ↦ rw raw
  | inr plain ↦ rw plain (by_message (message_in body) refl)
]
  where
    by_message :
        (o : Option String)
        → message_in body ≡ o
        → or_else (as_object (normalize_by body o v) >>= message_in) fallback
          ≡ or_else (as_object v >>= message_in) fallback
    by_message none e = refl
    by_message (some m) e = elim (Bool-cases (m == "")) [
      | inl empty ↦ rw empty
      | inr given ↦ rw given (rw (h, to_dict-from_dict, message_in-with_message body m e, e) refl)
    ]

-- The message that is found in a normalized error response is the one that is found in the
-- provider's own.
pub extract_error_message-normalize :
    (response_body : Json) (fallback : Option String)
    → extract_error_message (normalize_error_response_body response_body) fallback
      ≡ extract_error_message response_body fallback
unfolding normalize_error_response_body
extract_error_message-normalize null fallback = refl
extract_error_message-normalize (bool b) fallback = refl
extract_error_message-normalize (int n) fallback = refl
extract_error_message-normalize (float x) fallback = refl
extract_error_message-normalize (str s) fallback = refl
extract_error_message-normalize (arr vs) fallback = refl
extract_error_message-normalize (obj fs) fallback =
    extract-normalize_object (to_dict fs) (obj fs) fallback refl

-- The field of the value, where it is an object.
abbrev pub field_of : Json → String → Option Json
field_of v k = as_object v >>= λ d. Dict.get d k

-- Adding the name of the route changes no other field of a response.
pub field_of-inject_ai_proxy_route :
    (include : Bool) (route : RouteResult) (response_body : Json) (k : String)
    → ("ai_proxy_route" == k) ≡ false
    → field_of (inject_ai_proxy_route include route response_body) k ≡ field_of response_body k
unfolding inject_ai_proxy_route
field_of-inject_ai_proxy_route include route (obj fs) k h =
    elim (Bool-cases (not include || Dict.contains (to_dict fs) "raw_text")) [
      | inl skip ↦ rw skip
      | inr written ↦ rw written (rw (to_dict-from_dict, get-set, h) refl)
    ]
field_of-inject_ai_proxy_route include route null k h = refl
field_of-inject_ai_proxy_route include route (bool b) k h = refl
field_of-inject_ai_proxy_route include route (int n) k h = refl
field_of-inject_ai_proxy_route include route (float x) k h = refl
field_of-inject_ai_proxy_route include route (str s) k h = refl
field_of-inject_ai_proxy_route include route (arr vs) k h = refl
