-- ===== src/Relay/Content.antt =====
-- The text of a stream from the provider to the log.
use text.Mathlib.TextLemmas.{append-nil, append_assoc}
use ai_proxy.Common.{
  String, append, ◌≡◌, refl, sym, ap, ◌∙◌, inl, inr, ◌⊎◌, Bool, true, false, some, List, [], ◌∷◌,
  ◌==◌, Bool-cases, contains, is_empty,
}
use ai_proxy.Dict
use ai_proxy.Dict.Laws.{get-set}
use ai_proxy.Json.{
  ℤ, Json, null, bool, int, float, str, arr, obj, object, JsonObject, end, field, from_dict,
}
use ai_proxy.Json.Laws.{to_dict-from_dict}
use ai_proxy.Upstream.{loaded, no_json, Bytes, Codec}
use ai_proxy.Merging.{string_merge_keys}
use ai_proxy.Streaming.{StreamState, list_or_empty, capture_stream_chunk, capture_object}
use ai_proxy.Streaming.Pieces.{IsTextChunk, AreTextual, choice_text, stream_pieces, listed_pieces}
use ai_proxy.Streaming.Choice.{
  IsTextValue, object_of, objects_of, IsStreamCaptured, capture_object-IsStreamCaptured,
}
use ai_proxy.Streaming.Sorted.{IsDistinct, capture_stream_chunk-IsDistinct}
use ai_proxy.Events.{parse_sse_chunk, event, inject_ai_proxy_route_chunk}
use ai_proxy.Relay.{capture_client_chunk, relay_end, relay_chunks, Ending, Relayed}
use ai_proxy.Relay.Chunks.{IsWritten, parse_sse_chunk-event}

-- The object with the route.
abbrev pub routed_object : String → Json → JsonObject
routed_object route v = Dict.set (object_of v) "ai_proxy_route" (str route)

set-is_empty : (d : JsonObject) (k : String) (v : Json) → is_empty (Dict.set d k v) ≡ false
unfolding Dict.set
set-is_empty [] k v = refl
set-is_empty ((j, w) ∷ d) k v = elim (Bool-cases (j == k)) [ inl e ↦ rw e refl | inr e ↦ rw e refl ]

capture_stream_chunk-object :
    (state : StreamState) (d : JsonObject)
    → is_empty d ≡ false
    → capture_stream_chunk state (loaded (object d)) ≡ capture_object state d
unfolding capture_stream_chunk
capture_stream_chunk-object state [] h = absurd (cc)
capture_stream_chunk-object state ((k, v) ∷ d) h = rw to_dict-from_dict refl

-- A chunk of the provider that has a JSON object with texts, which is written with the route.
pub record IsGoodChunk (codec : Codec) (route : String) (chunk_bytes : Bytes) (v : Json)
    : Type 0 where
  pub parsed : parse_sse_chunk codec chunk_bytes ≡ loaded v
  pub texts : IsTextValue v
  pub written : IsWritten codec (routed_object route v)

-- The chunks have these values, in their order, but for those that have none, as the message that the
-- adapter puts at the end.
abbrev pub AreGoodChunks : Codec → String → List Bytes → List Json → Type 0
AreGoodChunks codec route [] [] = Unit
AreGoodChunks codec route [] (v ∷ vs) = ⊥
AreGoodChunks codec route (c ∷ cs) [] =
    (parse_sse_chunk codec c ≡ no_json) × AreGoodChunks codec route cs []
AreGoodChunks codec route (c ∷ cs) (v ∷ vs) =
    ((parse_sse_chunk codec c ≡ no_json) × AreGoodChunks codec route cs (v ∷ vs))
    ⊎ (IsGoodChunk codec route c v × AreGoodChunks codec route cs vs)

module _ (codec : Codec) (route : String) where
  inject-good :
      (c : Bytes) (v : Json)
      → (route == "") ≡ false
      → parse_sse_chunk codec c ≡ loaded v
      → IsTextValue v
      → inject_ai_proxy_route_chunk codec (some route) c
        ≡ some (event codec (routed_object route v))
  unfolding inject_ai_proxy_route_chunk
  inject-good c (obj (field k v fields)) h e t = rw (h, e) refl
  inject-good c (obj end) h e t = absurd t
  inject-good c null h e t = absurd t
  inject-good c (bool b) h e t = absurd t
  inject-good c (int n) h e t = absurd t
  inject-good c (float x) h e t = absurd t
  inject-good c (str s) h e t = absurd t
  inject-good c (arr vs) h e t = absurd t

  inject-nothing :
      (c : Bytes)
      → (route == "") ≡ false
      → parse_sse_chunk codec c ≡ no_json
      → inject_ai_proxy_route_chunk codec (some route) c ≡ some c
  unfolding inject_ai_proxy_route_chunk
  inject-nothing c h e = rw (h, e) refl

  get-routed-choices :
      (v : Json) → Dict.get (routed_object route v) "choices" ≡ Dict.get (object_of v) "choices"
  get-routed-choices v = get-set (object_of v) "ai_proxy_route" "choices" (str route)

  IsTextChunk-routed : (v : Json) → IsTextValue v → IsTextChunk (routed_object route v)
  IsTextChunk-routed (obj (field k v fields)) t = rw (get-routed-choices (obj (field k v fields))) t
  IsTextChunk-routed (obj end) t = absurd t
  IsTextChunk-routed null t = absurd t
  IsTextChunk-routed (bool b) t = absurd t
  IsTextChunk-routed (int n) t = absurd t
  IsTextChunk-routed (float x) t = absurd t
  IsTextChunk-routed (str s) t = absurd t
  IsTextChunk-routed (arr vs) t = absurd t

  capture_object-routed :
      (state : StreamState) (v : Json)
      → AreTextual state.merged_choices
      → IsTextValue v
      → IsStreamCaptured state
          (capture_object state (routed_object route v))
          (object (routed_object route v) ∷ [])
  capture_object-routed state v t h =
      let fields = from_dict (routed_object route v) in
      let same = to_dict-from_dict (routed_object route v) in
      rw same at (capture_object-IsStreamCaptured state fields t (rw same (IsTextChunk-routed v h)))

  module _ (describe : StreamState → Bytes → String) where
    abbrev captured : StreamState → Json → StreamState × Bool
    captured state v =
        capture_client_chunk codec (some route) describe state (event codec (routed_object route v))

    captured-object :
        (state : StreamState) (v : Json)
        → IsWritten codec (routed_object route v)
        → captured state v ≡ capture_object state (routed_object route v)
    captured-object state v w =
        ap (capture_stream_chunk state) (parse_sse_chunk-event codec (routed_object route v) w)
        ∙ capture_stream_chunk-object state (routed_object route v) (set-is_empty (object_of v) _ _)

    -- The state in which a stream of good chunks ends.
    pub record IsThrough (state : StreamState) (values : List Json) (ending : Ending)
        (relayed : Relayed) : Type 0 where
      pub after : StreamState
      pub ended : relayed.state ≡ (relay_end codec (some route) describe after ending).state
      pub textual : AreTextual after.merged_choices
      pub distinct : IsDistinct after.merged_choices
      pub grown :
          (k : String) (i : ℤ)
          → contains k string_merge_keys ≡ true
          → choice_text k i after.merged_choices
            ≡ append (choice_text k i state.merged_choices) (stream_pieces k i (objects_of values))
      pub same_status : after.response_status_code ≡ state.response_status_code
      pub same_error : after.stream_error_message ≡ state.stream_error_message

    pieces-routed :
        (v : Json) (k : String) (i : ℤ)
        → stream_pieces k i (objects_of (object (routed_object route v) ∷ []))
          ≡ listed_pieces k i (list_or_empty (Dict.get (object_of v) "choices"))
    pieces-routed v k i = rw (to_dict-from_dict, get-routed-choices v, append-nil) refl

    -- A chunk without a value is sent as it is, and nothing is captured of it.
    skipped :
        (c : Bytes) (chunks : List Bytes) (values : List Json) (state : StreamState)
        (ending : Ending)
        → (route == "") ≡ false
        → parse_sse_chunk codec c ≡ no_json
        → IsThrough state values ending
            (relay_chunks codec (some route) describe state chunks ending)
        → IsThrough state values ending
            (relay_chunks codec (some route) describe state (c ∷ chunks) ending)
    unfolding relay_chunks capture_stream_chunk
    skipped c chunks values state ending h e rest = record {
      after = rest.after;
      ended = rw (relay_chunks, inject-nothing c h e, e) rest.ended;
      textual = rest.textual;
      distinct = rest.distinct;
      grown = rest.grown;
      same_status = rest.same_status;
      same_error = rest.same_error;
    }

    pub relay_chunks-IsThrough :
        (chunks : List Bytes) (values : List Json) (state : StreamState) (ending : Ending)
        → (route == "") ≡ false
        → AreGoodChunks codec route chunks values
        → AreTextual state.merged_choices
        → IsDistinct state.merged_choices
        → IsThrough state values ending
            (relay_chunks codec (some route) describe state chunks ending)
    unfolding relay_chunks
    relay_chunks-IsThrough [] [] state ending h g t d = record {
      after = state;
      ended = refl;
      textual = t;
      distinct = d;
      grown = λ k i m. sym (append-nil _);
      same_status = refl;
      same_error = refl;
    }
    relay_chunks-IsThrough [] (v ∷ values) state ending h g t d = absurd g
    relay_chunks-IsThrough (c ∷ chunks) [] state ending h (e, g) t d =
        let rest = relay_chunks-IsThrough chunks [] state ending h g t d in
        skipped c chunks [] state ending h e rest
    relay_chunks-IsThrough (c ∷ chunks) (v ∷ values) state ending h (inl (e, g)) t d =
        let rest = relay_chunks-IsThrough chunks (v ∷ values) state ending h g t d in
        skipped c chunks (v ∷ values) state ending h e rest
    relay_chunks-IsThrough (c ∷ chunks) (v ∷ values) state ending h (inr (good, g)) t d =
        let one = capture_object-routed state v t good.texts in
        let made = captured-object state v good.written ∙ one.made in
        let kept =
          rw (captured-object state v good.written, one.made) at
            (capture_stream_chunk-IsDistinct state
              (parse_sse_chunk codec (event codec (routed_object route v))) d) in
        let rest = relay_chunks-IsThrough chunks values one.after ending h g one.textual kept in
        record {
          after = rest.after;
          ended = rw (relay_chunks, inject-good c v h good.parsed good.texts, made) rest.ended;
          textual = rest.textual;
          distinct = rest.distinct;
          grown = λ k i m.
              rw (rest.grown k i m, one.grown k i m, pieces-routed v k i) (append_assoc _ _ _);
          same_status = rest.same_status ∙ one.same_status;
          same_error = rest.same_error ∙ one.same_error;
        }
