-- ===== src/Streaming/Assembled.antt =====
-- The response that is put together at the end of a stream.
use ai_proxy.Common.{
  String, ◌≡◌, refl, ap, sym, ◌∙◌, inl, inr, Bool, true, false, not, Option, none, some, List, [],
  ◌∷◌, ◌==◌, ◌&&◌, is_empty, eq_iff, contains, if◌then◌else◌, Bool-cases,
}
use ai_proxy.Dict
use ai_proxy.Dict.Laws.{get-set, get-cons, get-empty, get-filter_keys, get-set_default-other}
use ai_proxy.Json.Laws.{to_dict-from_dict, to_list-from_list}
use ai_proxy.Json.{ℤ, pos, Json, int, str, obj, JsonObject, to_dict, get_array, object}
use ai_proxy.Merging.{int_eq, string_merge_keys}
use ai_proxy.Streaming.{
  Choices, get_choice, sort_choices, StreamState, with_finish, or_new, assembled_choice,
  assembled_choices, or_empty_choice, assembled_stream_response, object_or_null,
}
use ai_proxy.Streaming.Sorted.{IsDistinct, sort_choices_lem}
use ai_proxy.Streaming.Pieces.{choice_text}
use ai_proxy.Streaming.Content.{text_of, other_key}

-- The text of a message under a key.
abbrev text_in : String → Json → String
text_in k (obj fields) = text_of (Dict.get (to_dict fields) k)
text_in k v = ""

abbrev field_text : String → Option Json → String
field_text k none = ""
field_text k (some v) = text_in k v

abbrev is_index : ℤ → Option Json → Bool
is_index i (some (int j)) = int_eq j i
is_index i _ = false

-- The text under a key in the message of the choice with an index, in a list of choices.
abbrev find_text : String → ℤ → List Json → String
find_text k i [] = ""
find_text k i (obj fields ∷ choices) =
    if is_index i (Dict.get (to_dict fields) "index")
    then field_text k (Dict.get (to_dict fields) "message")
    else find_text k i choices
find_text k i (v ∷ choices) = find_text k i choices

abbrev listed_text : String → ℤ → Option (List Json) → String
listed_text k i none = ""
listed_text k i (some choices) = find_text k i choices

-- The same in a response.
abbrev pub response_text : String → ℤ → Json → String
response_text k i (obj fields) = listed_text k i (get_array (to_dict fields) "choices")
response_text k i v = ""

get-with_finish :
    (finish : Option Json) (choice : JsonObject) (k : String)
    → ("finish_reason" == k) ≡ false
    → Dict.get (with_finish finish choice) k ≡ Dict.get choice k
get-with_finish none choice k h = refl
get-with_finish (some v) choice k h = get-set choice "finish_reason" k v ∙ rw h refl

message-text :
    (merged : JsonObject) (k : String)
    → contains k string_merge_keys ≡ true
    → Dict.get
        (Dict.set_default
          (Dict.filter_keys (λ j. not (j == "finish_reason")) merged)
          "role"
          (str "assistant"))
        k
      ≡ Dict.get merged k
message-text merged k g = elim (Bool-cases (k == "finish_reason")) [
  | inl same ↦
      let e = (eq_iff k "finish_reason").0 same in
      let f : contains k string_merge_keys ≡ false =
        ap (λ (s : String). contains s string_merge_keys) e in
      absurd (cc)
  | inr other ↦
      get-set_default-other _ "role" k (str "assistant") (other_key "role" k refl g)
      ∙ get-filter_keys _ merged k
      ∙ rw other refl
]

find_text-assembled :
    (k : String) (i j : ℤ) (merged : JsonObject) (choices : List Json)
    → contains k string_merge_keys ≡ true
    → find_text k i (object (assembled_choice j merged) ∷ choices)
      ≡ (if int_eq j i then text_of (Dict.get merged k) else find_text k i choices)
unfolding assembled_choice
find_text-assembled k i j merged choices g =
    rw
      (
        to_dict-from_dict,
        get-with_finish (Dict.get merged "finish_reason") _ "index" refl,
        get-with_finish (Dict.get merged "finish_reason") _ "message" refl,
        get-cons,
        get-cons,
        get-cons,
        to_dict-from_dict,
        message-text merged k g,
      )
      refl

find_text-assembled_choices :
    (k : String) (i : ℤ) (choices : Choices)
    → contains k string_merge_keys ≡ true
    → find_text k i (assembled_choices choices) ≡ choice_text k i choices
unfolding assembled_choices get_choice
find_text-assembled_choices k i [] g = rw get-empty refl
find_text-assembled_choices k i ((j, merged) ∷ choices) g = elim (Bool-cases (int_eq j i)) [
  | inl same ↦ find_text-assembled k i j merged (assembled_choices choices) g ∙ rw same refl
  | inr other ↦
      find_text-assembled k i j merged (assembled_choices choices) g
      ∙ rw other (find_text-assembled_choices k i choices g)
]

empty_text :
    (k : String)
    → contains k string_merge_keys ≡ true
    → text_of (Dict.get (("role", str "assistant") ∷ ("content", str "") ∷ []) k) ≡ ""
unfolding Dict.get
empty_text k g =
    rw (other_key "role" k refl g)
      (elim (Bool-cases ("content" == k)) [ inl same ↦ rw same refl | inr other ↦ rw other refl ])

same_branches : (b : Bool) (s t : String) → s ≡ t → (if b then s else t) ≡ t
same_branches true s t e = e
same_branches false s t e = refl

find_text-or_empty_choice :
    (k : String) (i : ℤ) (choices : List Json)
    → contains k string_merge_keys ≡ true
    → find_text k i (or_empty_choice choices) ≡ find_text k i choices
unfolding Dict.get
find_text-or_empty_choice k i [] g = same_branches (int_eq (pos 0) i) _ "" (empty_text k g)
find_text-or_empty_choice k i (c ∷ choices) g = refl

choice_text-empty :
    (choices : Choices) (k : String) (i : ℤ) (b : Bool)
    → (is_empty choices && b) ≡ true
    → choice_text k i choices ≡ ""
unfolding get_choice
choice_text-empty [] k i b h = rw get-empty refl
choice_text-empty (c ∷ choices) k i b h = absurd (cc)

-- The response that is put together has, in the message of each choice, the texts of that choice.
pub response_text-assembled_stream_response :
    (state : StreamState) (k : String) (i : ℤ)
    → IsDistinct state.merged_choices
    → contains k string_merge_keys ≡ true
    → response_text k i (object_or_null (assembled_stream_response state))
      ≡ choice_text k i state.merged_choices
unfolding assembled_stream_response
response_text-assembled_stream_response state k i d g =
    elim (Bool-cases (is_empty state.merged_choices && is_empty state.chunks_collected)) [
      | inl nothing ↦ rw nothing (sym (choice_text-empty state.merged_choices k i _ nothing))
      | inr something ↦
          rw (something, to_dict-from_dict, get-set, get-set, to_list-from_list)
            (find_text-or_empty_choice k i (assembled_choices (sort_choices state.merged_choices)) g
              ∙ find_text-assembled_choices k i (sort_choices state.merged_choices) g
              ∙ ap (λ (o : Option JsonObject). text_of (Dict.get (or_new o) k))
                  ((sort_choices_lem state.merged_choices d).1 i))
    ]
