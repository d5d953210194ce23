-- ===== src/Streaming.antt =====
-- The capture of a stream in api/proxy/streaming.py: how the chunks of a stream are put together to
-- one response. Each step gives what it leaves, with whether it went through: it raises where the code
-- takes a field for an object, a list or a text that is none, and what was merged before stays. An
-- `index` is an integer, and a value of another type is taken for one that raises.
pub mod Content
pub mod Pieces
pub mod Choice
pub mod Sorted
pub mod Assembled
use Prim.Native.Nat.{compare}
use ai_proxy.Common.{
  ℕ, String, append, Bool, true, false, not, ◌&&◌, Option, none, some, List, [], ◌∷◌, ◌++◌, ◌==◌,
  if◌then◌else◌, nat_eq, ltb, contains, ◌>>=◌, is_empty,
}
use ai_proxy.Dict
use ai_proxy.Dict.{Dict}
use ai_proxy.Upstream.{Loaded, loaded, no_json, not_loaded}
use ai_proxy.Json.{
  ℤ, pos, negsuc, Json, null, bool, int, float, str, arr, obj, array, object, as_object, as_array,
  as_int, Elems, nil, cons, Fields, end, field, to_list, from_list, to_dict, from_dict, get_object,
  get_array, get_int, JsonObject, truthy,
}
use ai_proxy.Merging.{int_eq, merge_delta}

-- The choices of a response by their index, in the order in which they came up.
abbrev pub Choices : Type 0
Choices = List (ℤ × JsonObject)

-- A chunk is kept as it was when it came in. (In the code it shares objects with the choices, whose
-- merging may write into it; no other field depends on that.)
pub record StreamState : Type 0 where
  pub chunks_collected : List Json
  pub merged_choices : Choices
  pub usage_data : JsonObject
  pub extra_fields : JsonObject
  pub response_headers : Dict String
  pub response_status_code : ℕ
  pub stream_error_message : Option String
  pub ttft_ms : Option ℕ

unfoldable pub get_choice : Choices → ℤ → Option JsonObject
get_choice [] idx = none
get_choice ((i, merged) ∷ choices) idx =
    if int_eq i idx then some merged else get_choice choices idx

unfoldable pub set_choice : Choices → ℤ → JsonObject → Choices
set_choice [] idx merged = (idx, merged) ∷ []
set_choice ((i, m) ∷ choices) idx merged =
    if int_eq i idx then (idx, merged) ∷ choices else (i, m) ∷ set_choice choices idx merged

abbrev pub or_new : Option JsonObject → JsonObject
or_new none = []
or_new (some d) = d

-- `choice.get("index", 0)`, an integer: the code takes any value that can be a key, and such a value is
-- taken here for one that raises.
abbrev pub index_or_zero : Option Json → Option ℤ
index_or_zero none = some (pos 0)
index_or_zero (some v) = as_int v

-- `choice.get("delta", {})`, where it is an object
abbrev pub object_or_empty : Option Json → Option JsonObject
object_or_empty none = some []
object_or_empty (some v) = as_object v

-- `parsed.get("choices", [])`, where a loop over it gives objects or nothing
abbrev pub list_or_empty : Option Json → Option (List Json)
list_or_empty none = some []
list_or_empty (some (obj end)) = some []
list_or_empty (some (str s)) = if s == "" then some [] else none
list_or_empty (some v) = as_array v

abbrev pub add_finish : Option Json → JsonObject → JsonObject
add_finish none merged = merged
add_finish (some null) merged = merged
add_finish (some finish) merged = Dict.set merged "finish_reason" finish

-- The choice after its delta: a delta that is no object leaves it as it was, but there.
abbrev pub merge_choice : JsonObject → Option JsonObject → Option Json → JsonObject × Bool
merge_choice merged none finish = (merged, false)
merge_choice merged (some delta) finish =
    let (merged', ok) = merge_delta merged delta in
    if ok then (add_finish finish merged', true) else (merged', false)

abbrev pub put_choice : Choices → ℤ → JsonObject × Bool → Choices × Bool
put_choice choices idx (merged, ok) = (set_choice choices idx merged, ok)

abbrev pub capture_at : Choices → JsonObject → Option ℤ → Choices × Bool
capture_at choices choice none = (choices, false)
capture_at choices choice (some idx) = put_choice choices idx (
    merge_choice (or_new (get_choice choices idx)) (object_or_empty (Dict.get choice "delta"))
      (Dict.get choice "finish_reason"))

-- One choice of a chunk.
unfoldable pub capture_choice : Choices → Json → Choices × Bool
unfolding merge_delta get_choice set_choice
capture_choice choices (obj fields) =
    capture_at choices (to_dict fields) (index_or_zero (Dict.get (to_dict fields) "index"))
capture_choice choices v = (choices, false)

unfoldable pub capture_choices : Choices → List Json → Choices × Bool
unfolding capture_choice
capture_choices choices [] = (choices, true)
capture_choices choices (choice ∷ rest) =
    let (choices', ok) = capture_choice choices choice in
    let later = capture_choices choices' rest in if ok then later else (choices', false)

abbrev pub is_extra : String → Json → Bool
is_extra key null = false
is_extra key value = not (contains key ("choices" ∷ "usage" ∷ []))

unfoldable pub capture_extra : JsonObject → JsonObject → JsonObject
capture_extra extra [] = extra
capture_extra extra ((key, value) ∷ parsed) =
    capture_extra (if is_extra key value then Dict.set extra key value else extra) parsed

abbrev pub usage_or : JsonObject → Option JsonObject → JsonObject
usage_or old none = old
usage_or old (some usage) = usage

-- `for choice in parsed.get("choices", [])`
abbrev pub captured_choices : Choices → Option (List Json) → Choices × Bool
captured_choices merged none = (merged, false)
captured_choices merged (some choices) = capture_choices merged choices

-- What `capture_stream_chunk` does with a chunk that is an object, and not an empty one.
unfoldable pub capture_object : StreamState → JsonObject → StreamState × Bool
unfolding capture_choices capture_extra
capture_object state parsed =
    let (merged, ok) =
      captured_choices state.merged_choices (list_or_empty (Dict.get parsed "choices")) in
    (
      record state {
        chunks_collected = state.chunks_collected ++ object parsed ∷ [];
        extra_fields = capture_extra state.extra_fields parsed;
        merged_choices = merged;
        usage_data =
            if ok then usage_or state.usage_data (get_object parsed "usage") else state.usage_data;
      },
      ok,
    )

abbrev pub capture_other : StreamState → Json → StreamState × Bool
capture_other state v =
    if truthy v
    then (record state { chunks_collected = state.chunks_collected ++ v ∷ [] }, false)
    else (state, true)

-- `capture_stream_chunk`, on what was parsed: nothing and a falsy value are skipped, and a value that
-- is no object is collected before the code raises.
unfoldable pub capture_stream_chunk : StreamState → Loaded → StreamState × Bool
unfolding capture_object
capture_stream_chunk state no_json = (state, true)
capture_stream_chunk state not_loaded = (state, false)
capture_stream_chunk state (loaded (obj (field k v fields))) =
    capture_object state (to_dict (field k v fields))
capture_stream_chunk state (loaded v) = capture_other state v

-- `state.merged_choices` in the order of the indices
abbrev pub int_lt : ℤ → ℤ → Bool
int_lt (pos m) (pos n) = ltb m n
int_lt (negsuc m) (negsuc n) = ltb n m
int_lt (negsuc m) (pos n) = true
int_lt (pos m) (negsuc n) = false

unfoldable pub insert_choice : ℤ → JsonObject → Choices → Choices
insert_choice idx merged [] = (idx, merged) ∷ []
insert_choice idx merged ((i, m) ∷ choices) =
    if int_lt i idx
    then (i, m) ∷ insert_choice idx merged choices
    else (idx, merged) ∷ (i, m) ∷ choices

unfoldable pub sort_choices : Choices → Choices
unfolding insert_choice
sort_choices [] = []
sort_choices ((i, merged) ∷ choices) = insert_choice i merged (sort_choices choices)

abbrev pub with_finish : Option Json → JsonObject → JsonObject
with_finish none choice = choice
with_finish (some finish) choice = Dict.set choice "finish_reason" finish

-- One choice of the response.
unfoldable pub assembled_choice : ℤ → JsonObject → JsonObject
assembled_choice idx merged =
    let message =
      Dict.set_default (Dict.filter_keys (λ k. not (k == "finish_reason")) merged) "role"
        (str "assistant") in
    with_finish (Dict.get merged "finish_reason")
      (("index", int idx) ∷ ("message", object message) ∷ [])

unfoldable pub assembled_choices : Choices → List Json
unfolding assembled_choice
assembled_choices [] = []
assembled_choices ((idx, merged) ∷ choices) =
    object (assembled_choice idx merged) ∷ assembled_choices choices

-- The choice that stands for a stream without one.
abbrev pub empty_choice : Json
empty_choice = object (
    ("index", int (pos 0))
    ∷ ("message", object (("role", str "assistant") ∷ ("content", str "") ∷ []))
    ∷ [])

abbrev or_empty_choice : List Json → List Json
or_empty_choice [] = empty_choice ∷ []
or_empty_choice (c ∷ cs) = c ∷ cs

unfoldable pub assembled_stream_response : StreamState → Option JsonObject
unfolding sort_choices assembled_choices
assembled_stream_response state =
    if is_empty state.merged_choices && is_empty state.chunks_collected
    then none
    else some (
        Dict.set
          (Dict.set state.extra_fields "choices"
            (array (or_empty_choice (assembled_choices (sort_choices state.merged_choices)))))
          "usage" (object state.usage_data))

abbrev pub object_or_null : Option JsonObject → Json
object_or_null none = null
object_or_null (some d) = object d

-- `_extract_reasoning_tokens`
unfoldable pub extract_reasoning_tokens : JsonObject → Option ℤ
extract_reasoning_tokens usage_data = do
  details ← get_object usage_data "completion_tokens_details"
  tokens ← get_int details "reasoning_tokens"
  if int_lt (pos 0) tokens then some tokens else none
