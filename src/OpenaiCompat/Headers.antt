-- ===== src/OpenaiCompat/Headers.antt =====
-- Which headers a provider gets.
use ai_proxy.Common.{
  String, append, ◌≡◌, refl, ◌∙◌, inl, inr, Bool, not, Option, none, some, arith, ◌==◌, eq_iff,
  if◌then◌else◌, contains, Bool-cases, or_else,
}
use ai_proxy.Dict
use ai_proxy.Dict.{Dict}
use ai_proxy.Dict.Laws.{get-set, get-filter_keys, get-update-none}
use ai_proxy.Text.{lower}
use ai_proxy.Adapter.{BaseAdapter}
use ai_proxy.OpenaiCompat.{
  build_headers, effective_key, stripped_request_headers, add_authorization,
}

-- The value of `Authorization` for a key, if there is one to send.
abbrev pub bearer : Option String → Option String
bearer none = none
bearer (some key) = if key == "" then none else some (append "Bearer " key)

-- What is sent under a name that the provider's own headers do not have.
abbrev pub sent_header : Option String → Option String → String → Option String
sent_header key given k =
    if "Authorization" == k
    then bearer key
    else if "Content-Type" == k
    then some "application/json"
    else if "Accept-Encoding" == k
    then some "identity"
    else if contains (lower k) stripped_request_headers
    then none
    else given

-- The client's headers that are kept, with the two that the proxy always sets.
abbrev typed : Dict String → Dict String
typed headers =
    Dict.set
      (Dict.set (Dict.filter_keys (λ j. not (contains (lower j) stripped_request_headers)) headers)
        "Accept-Encoding" "identity")
      "Content-Type" "application/json"

get-typed_authorization : (headers : Dict String) → Dict.get (typed headers) "Authorization" ≡ none
unfolding lower
get-typed_authorization headers = rw (get-set, get-set, get-filter_keys) refl

typed-authorization :
    (headers : Dict String) (k : String) → "Authorization" ≡ k → Dict.get (typed headers) k ≡ none
typed-authorization headers k e = rw (← e) (get-typed_authorization headers)

or_given : (b : Option String) → or_else b none ≡ b
or_given none = refl
or_given (some v) = refl

three_tests :
    (c e s : Bool) (x y z : Option String)
    → (if c then x else if e then y else if not s then z else none)
      ≡ (if c then x else if e then y else if s then none else z)
three_tests c e s x y z = ground arith

get-add_authorization :
    (key : Option String) (out : Dict String) (k : String)
    → Dict.get (add_authorization key out) k
      ≡ (if "Authorization" == k then or_else (bearer key) (Dict.get out k) else Dict.get out k)
get-add_authorization none out k = ground arith
get-add_authorization (some key) out k =
    ground (arith, get-set out "Authorization" k (append "Bearer " key))

-- Under a name that the provider's own configured headers do not have, the provider gets the
-- proxy's `Authorization`, `Content-Type` and `Accept-Encoding`, nothing of a client's header
-- that is on the list of stripped ones, and every other header of the client's as it was.
pub get-build_headers :
    (adapter : BaseAdapter) (headers : Dict String) (override : Option String) (k : String)
    → Dict.get adapter.extra_headers k ≡ none
    → Dict.get (build_headers adapter headers override) k
      ≡ sent_header (effective_key adapter override) (Dict.get headers k) k
unfolding build_headers
get-build_headers adapter headers override k own =
    get-update-none _ adapter.extra_headers k own
    ∙ get-add_authorization (effective_key adapter override) (typed headers) k
    ∙ elim (Bool-cases ("Authorization" == k)) [
      | inl same ↦ rw same (
          rw (typed-authorization headers k ((eq_iff "Authorization" k).0 same))
            (or_given (bearer (effective_key adapter override))))
      | inr other ↦ rw other (
          rw (get-set, get-set, get-filter_keys)
            (three_tests ("Content-Type" == k) ("Accept-Encoding" == k)
              (contains (lower k) stripped_request_headers) (some "application/json")
              (some "identity") (Dict.get headers k)))
    ]
