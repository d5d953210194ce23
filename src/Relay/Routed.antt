-- ===== src/Relay/Routed.antt =====
-- What the client of a stream is sent of one chunk.
use ai_proxy.Common.{
  ◌⊎◌, sym, ◌∙◌, eq_iff, ◌==◌, if◌then◌else◌, some-injective, false, String, ◌≡◌, refl, ap, inl,
  inr, Option, none, some, Bool-cases,
}
use ai_proxy.Dict
use ai_proxy.Json.{Json, null, bool, int, float, str, arr, obj, Fields, end, field, to_dict, truthy}
use ai_proxy.Upstream.{Loaded, loaded, no_json, not_loaded, Bytes, Codec}
use ai_proxy.Events.{event, inject_parsed, parse_sse_chunk, inject_ai_proxy_route_chunk}

module _ (codec : Codec) (ai_proxy_route : Option String) where
  -- A chunk, and what the client is sent of it: the object that it has, with the route, where there is
  -- a route to give; and the chunk as it is, where there is none, or where the chunk has no JSON, or
  -- a value that counts as false.
  pub data IsRouted (c d : Bytes) : Type 0 where
    with_object :
        (route : String) (k : String) (v : Json) (fields : Fields)
        → ai_proxy_route ≡ some route
        → parse_sse_chunk codec c ≡ loaded (obj (field k v fields))
        → d ≡ event codec (Dict.set (to_dict (field k v fields)) "ai_proxy_route" (str route))
        → IsRouted c d
    no_route : (ai_proxy_route ≡ none) ⊎ (ai_proxy_route ≡ some "") → d ≡ c → IsRouted c d
    no_value : parse_sse_chunk codec c ≡ no_json → d ≡ c → IsRouted c d
    no_object :
        (v : Json) → parse_sse_chunk codec c ≡ loaded v → truthy v ≡ false → d ≡ c → IsRouted c d

  not_truthy :
      (c d : Bytes) (v : Json)
      → parse_sse_chunk codec c ≡ loaded v
      → Path (Option Bytes) (if truthy v then none else some c) (some d)
      → IsRouted c d
  not_truthy c d v e h = elim (Bool-cases (truthy v)) [
    | inl holds ↦ let f = rw holds at h in absurd (cc)
    | inr fails ↦ no_object v e fails (sym (some-injective (rw fails at h)))
  ]

  pub inject-IsRouted :
      (c d : Bytes) → inject_ai_proxy_route_chunk codec ai_proxy_route c ≡ some d → IsRouted c d
  unfolding inject_ai_proxy_route_chunk truthy
  inject-IsRouted c d h = by_route ai_proxy_route refl
    where
      by_parsed :
          (route : String) (l : Loaded)
          → ai_proxy_route ≡ some route
          → parse_sse_chunk codec c ≡ l
          → inject_parsed codec c route l ≡ some d
          → IsRouted c d
      by_parsed route no_json r e g = no_value e (sym (some-injective g))
      by_parsed route not_loaded r e g = absurd (cc)
      by_parsed route (loaded (obj (field k v fields))) r e g =
          with_object route k v fields r e (sym (some-injective g))
      by_parsed route (loaded (obj end)) r e g = not_truthy c d (obj end) e g
      by_parsed route (loaded null) r e g = not_truthy c d null e g
      by_parsed route (loaded (bool b)) r e g = not_truthy c d (bool b) e g
      by_parsed route (loaded (int n)) r e g = not_truthy c d (int n) e g
      by_parsed route (loaded (float x)) r e g = not_truthy c d (float x) e g
      by_parsed route (loaded (str t)) r e g = not_truthy c d (str t) e g
      by_parsed route (loaded (arr vs)) r e g = not_truthy c d (arr vs) e g

      by_route : (o : Option String) → ai_proxy_route ≡ o → IsRouted c d
      by_route none r = no_route (inl r) (sym (some-injective (rw r at h)))
      by_route (some route) r = elim (Bool-cases (route == "")) [
        | inl empty ↦
            no_route (inr (r ∙ ap (λ (t : String). some t) ((eq_iff route "").0 empty)))
              (sym (some-injective (rw (r, empty) at h)))
        | inr given ↦ by_parsed route _ r refl (rw (r, given) at h)
      ]
