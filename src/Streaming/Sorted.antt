-- ===== src/Streaming/Sorted.antt =====
-- The order of the merged choices, and that each index is there once.
use ai_proxy.Common.{
  ◌≡◌, refl, sym, ◌∙◌, inl, inr, true, false, Option, none, some, List, [], ◌∷◌, Bool-cases, All,
  arith,
}
use ai_proxy.Json.{
  ℤ, pos, negsuc, Json, null, bool, int, float, str, arr, obj, JsonObject, to_dict, end, field,
  truthy,
}
use ai_proxy.Merging.{int_eq}
use ai_proxy.Upstream.{Loaded, loaded, no_json, not_loaded}
use ai_proxy.Streaming.{
  Choices, get_choice, int_lt, insert_choice, sort_choices, set_choice, StreamState, capture_at,
  capture_choice, capture_choices, captured_choices, capture_object, capture_other,
  capture_stream_chunk,
}
use ai_proxy.Streaming.Pieces.{int_eq_iff, get_choice-set_choice}

int_lt-asym : (i j : ℤ) → int_lt i j ≡ true → int_eq i j ≡ false
unfolding int_eq
int_lt-asym (pos m) (pos n) h = ground arith
int_lt-asym (negsuc m) (negsuc n) h = ground arith
int_lt-asym (pos m) (negsuc n) h = refl
int_lt-asym (negsuc m) (pos n) h = refl

int_lt-total : (i j : ℤ) → int_lt i j ≡ false → int_eq i j ≡ false → int_lt j i ≡ true
unfolding int_eq
int_lt-total (pos m) (pos n) h g = ground arith
int_lt-total (negsuc m) (negsuc n) h g = ground arith
int_lt-total (pos m) (negsuc n) h g = refl
int_lt-total (negsuc m) (pos n) h g = absurd (cc)

int_lt_trans : (i j k : ℤ) → int_lt i j ≡ true → int_lt j k ≡ true → int_lt i k ≡ true
int_lt_trans (pos m) (pos n) (pos o) h g = ground arith
int_lt_trans (negsuc m) (negsuc n) (negsuc o) h g = ground arith
int_lt_trans (pos m) (negsuc n) k h g = absurd (cc)
int_lt_trans i (pos m) (negsuc n) h g = absurd (cc)
int_lt_trans (negsuc m) (negsuc n) (pos o) h g = refl
int_lt_trans (negsuc m) (pos n) (pos o) h g = refl

-- Every index is above the one that is given.
abbrev AllAbove : ℤ → Choices → Type 0
AllAbove i choices = All (λ (c : ℤ × JsonObject). int_lt i c.0 ≡ true) choices

-- The indices go up, each there once.
abbrev pub IsSorted : Choices → Type 0
IsSorted [] = Unit
IsSorted ((i, m) ∷ choices) = AllAbove i choices × IsSorted choices

AllAbove-trans :
    (i j : ℤ) (choices : Choices) → int_lt i j ≡ true → AllAbove j choices → AllAbove i choices
AllAbove-trans i j [] h a = tt
AllAbove-trans i j ((k, m) ∷ choices) h (f, a) =
    (int_lt_trans i j k h f, AllAbove-trans i j choices h a)

insert_choice-AllAbove :
    (i idx : ℤ) (m : JsonObject) (choices : Choices)
    → int_lt i idx ≡ true
    → AllAbove i choices
    → AllAbove i (insert_choice idx m choices)
unfolding insert_choice
insert_choice-AllAbove i idx m [] h a = (h, tt)
insert_choice-AllAbove i idx m ((k, w) ∷ choices) h (f, a) = elim (Bool-cases (int_lt k idx)) [
  | inl below ↦ rw below (f, insert_choice-AllAbove i idx m choices h a)
  | inr above ↦ rw above (h, (f, a))
]

get_choice-tail :
    (choices : Choices) (k idx : ℤ) (w : JsonObject)
    → int_eq k idx ≡ false
    → get_choice ((k, w) ∷ choices) idx ≡ get_choice choices idx
unfolding get_choice
get_choice-tail choices k idx w h = rw h refl

get_choice-head-none :
    (choices : Choices) (k idx : ℤ) (w : JsonObject)
    → get_choice ((k, w) ∷ choices) idx ≡ none
    → (int_eq k idx ≡ false) × (get_choice choices idx ≡ none)
unfolding get_choice
get_choice-head-none choices k idx w e = elim (Bool-cases (int_eq k idx)) [
  | inl same ↦ let found : some w ≡ none = sym (rw same refl) ∙ e in absurd (cc)
  | inr other ↦ (other, sym (get_choice-tail choices k idx w other) ∙ e)
]

insert_choice-IsSorted :
    (idx : ℤ) (m : JsonObject) (choices : Choices)
    → get_choice choices idx ≡ none
    → IsSorted choices
    → IsSorted (insert_choice idx m choices)
unfolding insert_choice
insert_choice-IsSorted idx m [] e s = (tt, tt)
insert_choice-IsSorted idx m ((k, w) ∷ choices) e (a, s) =
    let absent = get_choice-head-none choices k idx w e in
    elim (Bool-cases (int_lt k idx)) [
      | inl below ↦ rw below (
        insert_choice-AllAbove k idx m choices below a,
        insert_choice-IsSorted idx m choices absent.1 s,
      )
      | inr above ↦
          let before = int_lt-total k idx above absent.0 in
          rw above ((before, AllAbove-trans idx k choices before a), (a, s))
    ]

get_choice-insert_choice :
    (idx j : ℤ) (m : JsonObject) (choices : Choices)
    → get_choice choices idx ≡ none
    → get_choice (insert_choice idx m choices) j ≡ get_choice ((idx, m) ∷ choices) j
unfolding insert_choice get_choice
get_choice-insert_choice idx j m [] e = refl
get_choice-insert_choice idx j m ((k, w) ∷ choices) e =
    let absent = get_choice-head-none choices k idx w e in
    ground (
      arith,
      int_eq_iff k j,
      int_eq_iff idx j,
      int_eq_iff k idx,
      absent,
      get_choice-insert_choice idx j m choices absent.1,
    )

-- The dict of the choices has each index once.
abbrev pub IsDistinct : Choices → Type 0
IsDistinct [] = Unit
IsDistinct ((i, m) ∷ choices) = (get_choice choices i ≡ none) × IsDistinct choices

pub sort_choices_lem :
    (choices : Choices)
    → IsDistinct choices
    → IsSorted (sort_choices choices)
      × ((j : ℤ) → get_choice (sort_choices choices) j ≡ get_choice choices j)
unfolding sort_choices get_choice
sort_choices_lem [] d = (tt, λ j. refl)
sort_choices_lem ((i, m) ∷ choices) (absent, d) =
    let (sorted, same) = sort_choices_lem choices d in
    let absent' = same i ∙ absent in
    (
      insert_choice-IsSorted i m (sort_choices choices) absent' sorted,
      λ j. get_choice-insert_choice i j m (sort_choices choices) absent' ∙ rw (same j) refl,
    )

set_choice-IsDistinct :
    (choices : Choices) (i : ℤ) (m : JsonObject)
    → IsDistinct choices
    → IsDistinct (set_choice choices i m)
unfolding set_choice get_choice
set_choice-IsDistinct [] i m d = (refl, tt)
set_choice-IsDistinct ((k, w) ∷ choices) i m (absent, d) = elim (Bool-cases (int_eq k i)) [
  | inl same ↦ rw same (rw (← (int_eq_iff k i).0 same) absent, d)
  | inr other ↦ rw other (
    get_choice-set_choice choices i k m ∙ ground (arith, int_eq_iff i k, int_eq_iff k i, absent),
    set_choice-IsDistinct choices i m d,
  )
]

capture_at-IsDistinct :
    (choices : Choices) (choice : JsonObject) (o : Option ℤ)
    → IsDistinct choices
    → IsDistinct (capture_at choices choice o).0
capture_at-IsDistinct choices choice none d = d
capture_at-IsDistinct choices choice (some idx) d = set_choice-IsDistinct choices idx _ d

capture_choice-IsDistinct :
    (choices : Choices) (choice : Json)
    → IsDistinct choices
    → IsDistinct (capture_choice choices choice).0
unfolding capture_choice
capture_choice-IsDistinct choices (obj fields) d =
    capture_at-IsDistinct choices (to_dict fields) _ d
capture_choice-IsDistinct choices null d = d
capture_choice-IsDistinct choices (bool b) d = d
capture_choice-IsDistinct choices (int n) d = d
capture_choice-IsDistinct choices (float x) d = d
capture_choice-IsDistinct choices (str s) d = d
capture_choice-IsDistinct choices (arr vs) d = d

capture_choices-IsDistinct :
    (cs : List Json) (choices : Choices)
    → IsDistinct choices
    → IsDistinct (capture_choices choices cs).0
unfolding capture_choices
capture_choices-IsDistinct [] choices d = d
capture_choices-IsDistinct (c ∷ cs) choices d =
    let one = capture_choice-IsDistinct choices c d in
    elim (Bool-cases (capture_choice choices c).1) [
      | inl ok ↦ rw ok (capture_choices-IsDistinct cs _ one)
      | inr raised ↦ rw raised one
    ]

captured_choices-IsDistinct :
    (choices : Choices) (o : Option (List Json))
    → IsDistinct choices
    → IsDistinct (captured_choices choices o).0
captured_choices-IsDistinct choices none d = d
captured_choices-IsDistinct choices (some cs) d = capture_choices-IsDistinct cs choices d

capture_object-IsDistinct :
    (state : StreamState) (parsed : JsonObject)
    → IsDistinct state.merged_choices
    → IsDistinct (capture_object state parsed).0.merged_choices
unfolding capture_object
capture_object-IsDistinct state parsed d = captured_choices-IsDistinct state.merged_choices _ d

skipped-IsDistinct :
    (state : StreamState) (v : Json)
    → IsDistinct state.merged_choices
    → IsDistinct (capture_other state v).0.merged_choices
skipped-IsDistinct state v d = elim (Bool-cases (truthy v)) [ inl e ↦ rw e d | inr e ↦ rw e d ]

-- Whatever a chunk is, and wherever its capture raises, the merged choices keep one entry for each
-- index.
pub capture_stream_chunk-IsDistinct :
    (state : StreamState) (parsed : Loaded)
    → IsDistinct state.merged_choices
    → IsDistinct (capture_stream_chunk state parsed).0.merged_choices
unfolding capture_stream_chunk
capture_stream_chunk-IsDistinct state no_json d = d
capture_stream_chunk-IsDistinct state not_loaded d = d
capture_stream_chunk-IsDistinct state (loaded (obj (field k v fields))) d =
    capture_object-IsDistinct state _ d
capture_stream_chunk-IsDistinct state (loaded (obj end)) d = skipped-IsDistinct state (obj end) d
capture_stream_chunk-IsDistinct state (loaded null) d = skipped-IsDistinct state null d
capture_stream_chunk-IsDistinct state (loaded (bool b)) d = skipped-IsDistinct state (bool b) d
capture_stream_chunk-IsDistinct state (loaded (int n)) d = skipped-IsDistinct state (int n) d
capture_stream_chunk-IsDistinct state (loaded (float x)) d = skipped-IsDistinct state (float x) d
capture_stream_chunk-IsDistinct state (loaded (str s)) d = skipped-IsDistinct state (str s) d
capture_stream_chunk-IsDistinct state (loaded (arr vs)) d = skipped-IsDistinct state (arr vs) d
