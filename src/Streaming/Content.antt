-- ===== src/Streaming/Content.antt =====
-- The text of a merged choice.
use text.Mathlib.TextLemmas.{append-nil, append_assoc}
use ai_proxy.Common.{
  String, append, ◌≡◌, refl, ◌∙◌, inl, inr, true, false, Option, none, some, List, [], ◌∷◌, ◌==◌,
  eq_iff, if◌then◌else◌, contains, Bool, Bool-cases, Option-cases, All,
}
use ai_proxy.Dict
use ai_proxy.Dict.Laws.{get-set}
use ai_proxy.Json.{
  Json, null, bool, int, float, str, arr, obj, array, to_list, JsonObject, get_array,
}
use ai_proxy.Merging.{
  string_merge_keys, appended, merge_field, merge_list_field, merge_items, merge_delta,
}

abbrev pub IsTextual : Option Json → Type 0
IsTextual none = Unit
IsTextual (some (str s)) = Unit
IsTextual _ = ⊥

abbrev pub text_of : Option Json → String
text_of (some (str s)) = s
text_of _ = ""

-- A field of a delta: where its key is one whose texts are put together, it has a text or nothing.
abbrev pub IsTextField : String × Json → Type 0
IsTextField (key, null) = Unit
IsTextField (key, str s) = Unit
IsTextField (key, v) = contains key string_merge_keys ≡ false

-- What a field adds to the text under a key.
abbrev pub piece : String → String × Json → String
piece k (key, str s) = if key == k then s else ""
piece k _ = ""

abbrev pub pieces : String → JsonObject → String
pieces k [] = ""
pieces k (f ∷ delta) = append (piece k f) (pieces k delta)

pub other_key :
    (key k : String)
    → contains key string_merge_keys ≡ false
    → contains k string_merge_keys ≡ true
    → (key == k) ≡ false
other_key key k h g = elim (Bool-cases (key == k)) [
  | inl same ↦ let e = (eq_iff key k).0 same in absurd (cc)
  | inr other ↦ other
]

-- A step of the merging for a key: the text grows by the piece, and is one.
pub record Grows (merged after : JsonObject) (k added : String) : Type 0 where
  pub textual : IsTextual (Dict.get after k)
  pub grown : text_of (Dict.get after k) ≡ append (text_of (Dict.get merged k)) added

pub Grows-same :
    (merged after : JsonObject) (k : String)
    → Dict.get after k ≡ Dict.get merged k
    → IsTextual (Dict.get merged k)
    → Grows merged after k ""
Grows-same merged after k e h = record { textual = rw e h; grown = rw (e, append-nil) refl }

pub Grows-set :
    (merged : JsonObject) (key k : String) (v : Json)
    → contains key string_merge_keys ≡ false
    → contains k string_merge_keys ≡ true
    → IsTextual (Dict.get merged k)
    → Grows merged (Dict.set merged key v) k ""
Grows-set merged key k v h g t =
    Grows-same merged _ k (get-set merged key k v ∙ rw (other_key key k h g) refl) t

abbrev pub AllTextual : JsonObject → Type 0
AllTextual merged =
    (k : String) → contains k string_merge_keys ≡ true → IsTextual (Dict.get merged k)

-- What the merging of fields gives: an object whose texts have all grown.
pub record IsMerged (merged : JsonObject) (result : JsonObject × Bool) (added : String → String)
    : Type 0 where
  pub after : JsonObject
  pub made : result ≡ (after, true)
  pub grows : (k : String) → contains k string_merge_keys ≡ true → Grows merged after k (added k)

append-appended :
    (o : Option Json) (s : String) → IsTextual o → appended o s ≡ some (append (text_of o) s)
append-appended none s h = refl
append-appended (some (str old)) s h = refl
append-appended (some null) s h = absurd h
append-appended (some (bool b)) s h = absurd h
append-appended (some (int n)) s h = absurd h
append-appended (some (float x)) s h = absurd h
append-appended (some (arr vs)) s h = absurd h
append-appended (some (obj fs)) s h = absurd h

Grows-append :
    (merged : JsonObject) (key k s : String)
    → IsTextual (Dict.get merged k)
    → Grows merged
        (Dict.set merged key (str (append (text_of (Dict.get merged key)) s)))
        k
        (if key == k then s else "")
Grows-append merged key k s t = elim (Bool-cases (key == k)) [
  | inl same ↦ rw same (
      let e = (eq_iff key k).0 same in
      record { textual = rw (get-set, same) tt; grown = rw (get-set, same, e) refl })
  | inr other ↦ rw other (Grows-same merged _ k (get-set merged key k _ ∙ rw other refl) t)
]

other_value :
    (merged : JsonObject) (key : String) (v : Json)
    → contains key string_merge_keys ≡ false
    → AllTextual merged
    → IsMerged merged (Dict.set merged key v, true) (λ k. "")
other_value merged key v h t = record {
  after = Dict.set merged key v;
  made = refl;
  grows = λ k g. Grows-set merged key k v h g (t k g);
}

merge_list_field-set :
    (merged : JsonObject) (key : String) (items : List Json)
    → (v : Json) × (merge_list_field merged key items ≡ Dict.set merged key v)
unfolding merge_list_field
merge_list_field-set merged key items = elim (Option-cases (get_array merged key)) [
  | inl absent ↦ (array items, rw (absent, merge_list_field) refl)
  | inr (existing, present) ↦
      (array (merge_items existing items), rw (present, merge_list_field) refl)
]

merge_field-IsMerged :
    (merged : JsonObject) (key : String) (v : Json)
    → AllTextual merged
    → IsTextField (key, v)
    → IsMerged merged (merge_field merged key v) (λ k. piece k (key, v))
unfolding merge_field
merge_field-IsMerged merged key null t h = record {
  after = merged;
  made = refl;
  grows = λ k g. Grows-same merged merged k refl (t k g);
}
merge_field-IsMerged merged key (str s) t h = elim (Bool-cases (contains key string_merge_keys)) [
  | inl joined ↦
      rw (joined, append-appended (Dict.get merged key) s (t key joined))
        (record {
          after = Dict.set merged key (str (append (text_of (Dict.get merged key)) s));
          made = refl;
          grows = λ k g. Grows-append merged key k s (t k g);
        })
  | inr plain ↦ rw plain (record {
    after = Dict.set merged key (str s);
    made = refl;
    grows = λ k g. rw (other_key key k plain g) (Grows-set merged key k (str s) plain g (t k g));
  })
]
merge_field-IsMerged merged key (arr items) t h =
    let (v, e) = merge_list_field-set merged key (to_list items) in
    rw e (other_value merged key v h t)
merge_field-IsMerged merged key (bool b) t h = other_value merged key (bool b) h t
merge_field-IsMerged merged key (int n) t h = other_value merged key (int n) h t
merge_field-IsMerged merged key (float x) t h = other_value merged key (float x) h t
merge_field-IsMerged merged key (obj fs) t h = other_value merged key (obj fs) h t

pub merge_delta-IsMerged :
    (delta merged : JsonObject)
    → AllTextual merged
    → All IsTextField delta
    → IsMerged merged (merge_delta merged delta) (λ k. pieces k delta)
unfolding merge_delta
merge_delta-IsMerged [] merged t h = record {
  after = merged;
  made = refl;
  grows = λ k g. Grows-same merged merged k refl (t k g);
}
merge_delta-IsMerged ((key, v) ∷ delta) merged t (f, h) =
    let one = merge_field-IsMerged merged key v t f in
    let rest = merge_delta-IsMerged delta one.after (λ k g. (one.grows k g).textual) h in
    record {
      after = rest.after;
      made = rw one.made rest.made;
      grows = λ k g. record {
        textual = (rest.grows k g).textual;
        grown = rw ((rest.grows k g).grown, (one.grows k g).grown) (append_assoc _ _ _);
      };
    }
