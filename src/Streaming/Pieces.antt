-- ===== src/Streaming/Pieces.antt =====
-- The pieces of text that the chunks of a stream have for a choice.
use ai_proxy.Common.{
  String, append, ◌≡◌, refl, ◌↔◌, true, Option, none, some, List, [], ◌∷◌, if◌then◌else◌, All,
  arith,
}
use ai_proxy.Dict
use ai_proxy.Json.{ℤ, pos, negsuc, Json, obj, JsonObject, to_dict}
use ai_proxy.Merging.{int_eq}
use ai_proxy.Streaming.{
  Choices, get_choice, set_choice, or_new, index_or_zero, object_or_empty, list_or_empty,
}
use ai_proxy.Streaming.Content.{text_of, IsTextField, pieces, AllTextual}

pub int_eq_iff : (i j : ℤ) → (int_eq i j ≡ true) ↔ (i ≡ j)
unfolding int_eq
int_eq_iff (pos m) (pos n) = ground arith
int_eq_iff (negsuc m) (negsuc n) = ground arith
int_eq_iff (pos m) (negsuc n) = (λ h. cc, λ h. cc)
int_eq_iff (negsuc m) (pos n) = (λ h. cc, λ h. cc)

pub get_choice-set_choice :
    (choices : Choices) (i j : ℤ) (m : JsonObject)
    → get_choice (set_choice choices i m) j ≡ (if int_eq i j then some m else get_choice choices j)
unfolding get_choice set_choice
get_choice-set_choice [] i j m = refl
get_choice-set_choice ((k, w) ∷ choices) i j m =
    ground
      (arith, int_eq_iff i j, int_eq_iff k i, int_eq_iff k j, get_choice-set_choice choices i j m)

-- The text under a key of the choice with an index.
abbrev pub choice_text : String → ℤ → Choices → String
choice_text k i choices = text_of (Dict.get (or_new (get_choice choices i)) k)

-- A choice that the code takes without an exception: an index, and a delta whose texts are texts.
abbrev pub IsIndex : Option ℤ → Type 0
IsIndex none = ⊥
IsIndex (some i) = Unit

abbrev pub IsTextDelta : Option JsonObject → Type 0
IsTextDelta none = ⊥
IsTextDelta (some delta) = All IsTextField delta

abbrev pub IsTextChoice : Json → Type 0
IsTextChoice (obj fields) =
    IsIndex (index_or_zero (Dict.get (to_dict fields) "index"))
    × IsTextDelta (object_or_empty (Dict.get (to_dict fields) "delta"))
IsTextChoice v = ⊥

abbrev pub IsTextChoices : Option (List Json) → Type 0
IsTextChoices none = ⊥
IsTextChoices (some choices) = All IsTextChoice choices

-- A chunk with such choices.
abbrev pub IsTextChunk : JsonObject → Type 0
IsTextChunk parsed = IsTextChoices (list_or_empty (Dict.get parsed "choices"))

-- What a choice of a chunk adds to the text under a key of the choice with an index.
abbrev pub delta_piece : String → ℤ → Option ℤ → Option JsonObject → String
delta_piece k i (some idx) (some delta) = if int_eq idx i then pieces k delta else ""
delta_piece k i _ _ = ""

abbrev pub choice_piece : String → ℤ → Json → String
choice_piece k i (obj fields) =
    delta_piece k i (index_or_zero (Dict.get (to_dict fields) "index"))
      (object_or_empty (Dict.get (to_dict fields) "delta"))
choice_piece k i v = ""

abbrev pub choice_pieces : String → ℤ → List Json → String
choice_pieces k i [] = ""
choice_pieces k i (choice ∷ choices) = append (choice_piece k i choice) (choice_pieces k i choices)

abbrev pub listed_pieces : String → ℤ → Option (List Json) → String
listed_pieces k i none = ""
listed_pieces k i (some choices) = choice_pieces k i choices

-- What the chunks of a stream have for a choice under a key, one after another.
abbrev pub stream_pieces : String → ℤ → List JsonObject → String
stream_pieces k i [] = ""
stream_pieces k i (parsed ∷ chunks) =
    append (listed_pieces k i (list_or_empty (Dict.get parsed "choices")))
      (stream_pieces k i chunks)

-- Every choice has texts, or nothing, under the keys whose texts are put together.
abbrev pub AreTextual : Choices → Type 0
AreTextual choices = (i : ℤ) → AllTextual (or_new (get_choice choices i))
