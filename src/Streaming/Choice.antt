-- ===== src/Streaming/Choice.antt =====
-- The text of each choice after the chunks of a stream.
use text.Mathlib.TextLemmas.{append-nil, append_assoc}
use ai_proxy.Common.{
  String, append, ◌≡◌, refl, sym, ◌∙◌, inl, inr, Bool, true, Option, none, some, List, [], ◌∷◌,
  ◌++◌, if◌then◌else◌, contains, Bool-cases, All,
}
use ai_proxy.Dict
use ai_proxy.Upstream.{loaded}
use ai_proxy.Json.{
  ℤ, Json, null, bool, int, float, str, arr, obj, object, JsonObject, get_object, to_dict, Fields,
  end, field,
}
use ai_proxy.Merging.{int_eq, string_merge_keys}
use ai_proxy.Streaming.{
  Choices, StreamState, get_choice, set_choice, or_new, object_or_empty, list_or_empty, add_finish,
  merge_choice, capture_at, capture_choice, capture_choices, captured_choices, capture_object,
  capture_extra, usage_or, capture_stream_chunk,
}
use ai_proxy.Json.Laws.{from_dict-to_dict}
use ai_proxy.Streaming.Content.{
  IsTextual, IsTextField, pieces, Grows, Grows-same, Grows-set, AllTextual, IsMerged,
  merge_delta-IsMerged,
}
use ai_proxy.Streaming.Pieces.{
  int_eq_iff, get_choice-set_choice, choice_text, IsIndex, IsTextDelta, IsTextChoice, IsTextChoices,
  IsTextChunk, delta_piece, choice_piece, choice_pieces, listed_pieces, stream_pieces, AreTextual,
}

pub record IsCaptured (choices : Choices) (result : Choices × Bool) (added : String → ℤ → String)
    : Type 0 where
  pub after : Choices
  pub made : result ≡ (after, true)
  pub textual : AreTextual after
  pub grown :
      (k : String) (i : ℤ)
      → contains k string_merge_keys ≡ true
      → choice_text k i after ≡ append (choice_text k i choices) (added k i)

IsCaptured-none :
    (choices : Choices) → AreTextual choices → IsCaptured choices (choices, true) (λ k i. "")
IsCaptured-none choices t = record {
  after = choices;
  made = refl;
  textual = t;
  grown = λ k i g. sym (append-nil _);
}

add_finish-Grows :
    (finish : Option Json) (merged : JsonObject) (k : String)
    → contains k string_merge_keys ≡ true
    → IsTextual (Dict.get merged k)
    → Grows merged (add_finish finish merged) k ""
add_finish-Grows none merged k g t = Grows-same merged merged k refl t
add_finish-Grows (some null) merged k g t = Grows-same merged merged k refl t
add_finish-Grows (some (bool b)) merged k g t = Grows-set merged "finish_reason" k (bool b) refl g t
add_finish-Grows (some (int n)) merged k g t = Grows-set merged "finish_reason" k (int n) refl g t
add_finish-Grows (some (float x)) merged k g t =
    Grows-set merged "finish_reason" k (float x) refl g t
add_finish-Grows (some (str s)) merged k g t = Grows-set merged "finish_reason" k (str s) refl g t
add_finish-Grows (some (arr vs)) merged k g t = Grows-set merged "finish_reason" k (arr vs) refl g t
add_finish-Grows (some (obj fs)) merged k g t = Grows-set merged "finish_reason" k (obj fs) refl g t

merge_choice-IsMerged :
    (merged delta : JsonObject) (finish : Option Json)
    → AllTextual merged
    → All IsTextField delta
    → IsMerged merged (merge_choice merged (some delta) finish) (λ k. pieces k delta)
merge_choice-IsMerged merged delta finish t h =
    let one = merge_delta-IsMerged delta merged t h in
    record {
      after = add_finish finish one.after;
      made = rw one.made refl;
      grows = λ k g.
          let last = add_finish-Grows finish one.after k g (one.grows k g).textual in
          record {
            textual = last.textual;
            grown = last.grown ∙ append-nil _ ∙ (one.grows k g).grown;
          };
    }

module _ (choices : Choices) (idx : ℤ) (after : JsonObject) where
  put-textual : AreTextual choices → AllTextual after → AreTextual (set_choice choices idx after)
  put-textual t h i = elim (Bool-cases (int_eq idx i)) [
    | inl same ↦ rw (get_choice-set_choice choices idx i after, same) h
    | inr other ↦ rw (get_choice-set_choice choices idx i after, other) (t i)
  ]

  put-grown :
      (k added : String) (i : ℤ)
      → Grows (or_new (get_choice choices idx)) after k added
      → choice_text k i (set_choice choices idx after)
        ≡ append (choice_text k i choices) (if int_eq idx i then added else "")
  put-grown k added i g = elim (Bool-cases (int_eq idx i)) [
    | inl same ↦
        rw (get_choice-set_choice choices idx i after, same, ← (int_eq_iff idx i).0 same) g.grown
    | inr other ↦ rw (get_choice-set_choice choices idx i after, other) (sym (append-nil _))
  ]

capture_at-IsCaptured :
    (choices : Choices) (choice : JsonObject) (o : Option ℤ) (d : Option JsonObject)
    → AreTextual choices
    → IsIndex o
    → object_or_empty (Dict.get choice "delta") ≡ d
    → IsTextDelta d
    → IsCaptured choices (capture_at choices choice o) (λ k i. delta_piece k i o d)
capture_at-IsCaptured choices choice none d t i e h = absurd i
capture_at-IsCaptured choices choice (some idx) none t i e h = absurd h
capture_at-IsCaptured choices choice (some idx) (some delta) t i e h =
    let merged =
      merge_choice-IsMerged (or_new (get_choice choices idx)) delta
        (Dict.get choice "finish_reason") (t idx) h in
    record {
      after = set_choice choices idx merged.after;
      made = rw (e, merged.made) refl;
      textual = put-textual choices idx merged.after t (λ k g. (merged.grows k g).textual);
      grown = λ k j g. put-grown choices idx merged.after k (pieces k delta) j (merged.grows k g);
    }

capture_choice-IsCaptured :
    (choices : Choices) (choice : Json)
    → AreTextual choices
    → IsTextChoice choice
    → IsCaptured choices (capture_choice choices choice) (λ k i. choice_piece k i choice)
unfolding capture_choice
capture_choice-IsCaptured choices (obj fields) t h =
    capture_at-IsCaptured choices (to_dict fields) _ _ t h.0 refl h.1
capture_choice-IsCaptured choices null t h = absurd h
capture_choice-IsCaptured choices (bool b) t h = absurd h
capture_choice-IsCaptured choices (int n) t h = absurd h
capture_choice-IsCaptured choices (float x) t h = absurd h
capture_choice-IsCaptured choices (str s) t h = absurd h
capture_choice-IsCaptured choices (arr vs) t h = absurd h

capture_choices-IsCaptured :
    (cs : List Json) (choices : Choices)
    → AreTextual choices
    → All IsTextChoice cs
    → IsCaptured choices (capture_choices choices cs) (λ k i. choice_pieces k i cs)
unfolding capture_choices
capture_choices-IsCaptured [] choices t h = IsCaptured-none choices t
capture_choices-IsCaptured (c ∷ cs) choices t (f, h) =
    let one = capture_choice-IsCaptured choices c t f in
    let rest = capture_choices-IsCaptured cs one.after one.textual h in
    record {
      after = rest.after;
      made = rw one.made rest.made;
      textual = rest.textual;
      grown = λ k i g. rw (rest.grown k i g, one.grown k i g) (append_assoc _ _ _);
    }

captured_choices-IsCaptured :
    (o : Option (List Json)) (choices : Choices)
    → AreTextual choices
    → IsTextChoices o
    → IsCaptured choices (captured_choices choices o) (λ k i. listed_pieces k i o)
captured_choices-IsCaptured none choices t h = absurd h
captured_choices-IsCaptured (some cs) choices t h = capture_choices-IsCaptured cs choices t h

-- What a chunk is: a JSON object with a field, whose choices have texts.
abbrev pub IsTextValue : Json → Type 0
IsTextValue (obj (field k v fields)) = IsTextChunk (to_dict (field k v fields))
IsTextValue v = ⊥

abbrev pub object_of : Json → JsonObject
object_of (obj fields) = to_dict fields
object_of v = []

abbrev pub objects_of : List Json → List JsonObject
objects_of [] = []
objects_of (v ∷ vs) = object_of v ∷ objects_of vs

pub record IsStreamCaptured (state : StreamState) (result : StreamState × Bool) (chunks : List Json)
    : Type 0 where
  pub after : StreamState
  pub made : result ≡ (after, true)
  pub textual : AreTextual after.merged_choices
  pub grown :
      (k : String) (i : ℤ)
      → contains k string_merge_keys ≡ true
      → choice_text k i after.merged_choices
        ≡ append (choice_text k i state.merged_choices) (stream_pieces k i (objects_of chunks))
  pub collected : after.chunks_collected ≡ state.chunks_collected ++ chunks
  pub same_status : after.response_status_code ≡ state.response_status_code
  pub same_error : after.stream_error_message ≡ state.stream_error_message

pub capture_object-IsStreamCaptured :
    (state : StreamState) (fields : Fields)
    → AreTextual state.merged_choices
    → IsTextChunk (to_dict fields)
    → IsStreamCaptured state (capture_object state (to_dict fields)) (obj fields ∷ [])
unfolding capture_object
capture_object-IsStreamCaptured state fields t h =
    let parsed = to_dict fields in
    let r =
      captured_choices-IsCaptured (list_or_empty (Dict.get parsed "choices")) state.merged_choices t
        h in
    record {
      after = record state {
        chunks_collected = state.chunks_collected ++ object parsed ∷ [];
        extra_fields = capture_extra state.extra_fields parsed;
        merged_choices = r.after;
        usage_data = usage_or state.usage_data (get_object parsed "usage");
      };
      made = rw r.made refl;
      textual = r.textual;
      grown = λ k i g. rw append-nil (r.grown k i g);
      collected = rw from_dict-to_dict refl;
      same_status = refl;
      same_error = refl;
    }

pub capture_stream_chunk-IsStreamCaptured :
    (state : StreamState) (v : Json)
    → AreTextual state.merged_choices
    → IsTextValue v
    → IsStreamCaptured state (capture_stream_chunk state (loaded v)) (v ∷ [])
unfolding capture_stream_chunk
capture_stream_chunk-IsStreamCaptured state (obj (field k v fields)) t h =
    capture_object-IsStreamCaptured state (field k v fields) t h
capture_stream_chunk-IsStreamCaptured state (obj end) t h = absurd h
capture_stream_chunk-IsStreamCaptured state null t h = absurd h
capture_stream_chunk-IsStreamCaptured state (bool b) t h = absurd h
capture_stream_chunk-IsStreamCaptured state (int n) t h = absurd h
capture_stream_chunk-IsStreamCaptured state (float x) t h = absurd h
capture_stream_chunk-IsStreamCaptured state (str s) t h = absurd h
capture_stream_chunk-IsStreamCaptured state (arr vs) t h = absurd h
