-- ===== src/Conversations/Labels.antt =====
-- What the SQL of a group has to do with the code that does the same in Python.
use text.Mathlib.TextLemmas.{append-nil, append_assoc}
use ai_proxy.Common.{
  String, append, ◌≡◌, refl, sym, ap, false, ◌&&◌, Option, none, some, ◌++◌, ◌==◌, Bool-cases, inl,
  inr,
}
use ai_proxy.Conversations.{
  Format, ProxyRequest, or_text, group_identity, group_texts, labelled, or_unknown,
  first_assistant_response_text,
}
use ai_proxy.Conversations.Groups.{
  group_key_expression, group_label_expression, pair_label_case, triple_label_case, concat,
}
use ai_proxy.Text.{join}

-- A column that has a text that is not empty, or NULL.
abbrev pub IsFilled : Option String → Type 0
IsFilled none = Unit
IsFilled (some s) = (s == "") ≡ false

labels-pair :
    (system user : Option String)
    → IsFilled system
    → IsFilled user
    → pair_label_case system user
      ≡ or_unknown (labelled "System: " (or_text system) ++ labelled "User: " (or_text user))
unfolding pair_label_case concat join
labels-pair none none h g = refl
labels-pair (some s) none h g = rw (h, append-nil) refl
labels-pair none (some u) h g = rw (g, append-nil) refl
labels-pair (some s) (some u) h g =
    rw (h, g, append-nil, append_assoc)
      (ap (λ (x : String). append "System: " (append s x)) (append_assoc "\n" "User: " u))

labels-triple :
    (system user assistant : Option String)
    → IsFilled system
    → IsFilled user
    → IsFilled assistant
    → triple_label_case system user assistant
      ≡ or_unknown (
          labelled "System: " (or_text system)
          ++ labelled "User: " (or_text user)
          ++ labelled "Assistant: " (or_text assistant))
unfolding triple_label_case concat join
labels-triple none none none h g k = refl
labels-triple (some s) none none h g k = rw (h, append-nil) refl
labels-triple none (some u) none h g k = rw (g, append-nil) refl
labels-triple none none (some a) h g k = rw (k, append-nil) refl
labels-triple (some s) (some u) none h g k = rw (h, g, append-nil, append_assoc) refl
labels-triple (some s) none (some a) h g k = rw (h, k, append-nil, append_assoc) refl
labels-triple none (some u) (some a) h g k = rw (g, k, append-nil, append_assoc) refl
labels-triple (some s) (some u) (some a) h g k =
    rw (h, g, k, append-nil, append_assoc)
      (ap (λ (x : String). append "System: " (append s (append "\n" x)))
        (sym (append_assoc "User: " u (append "\n" (append "Assistant: " a)))))

-- The label that the database gives a group is the one that `_group_identity` gives its requests,
-- where the columns have texts that are not empty or NULL, one of the first two has a text, and the
-- one of the answer has.
pub group_label_expression-group_identity :
    (format : Format) (row : ProxyRequest) (group_by : String)
    → IsFilled row.system_prompt_text
    → IsFilled row.first_user_message_text
    → IsFilled row.first_assistant_response_text
    → (or_text row.system_prompt_text == "" && or_text row.first_user_message_text == "") ≡ false
    → (or_text row.first_assistant_response_text == "") ≡ false
    → group_label_expression group_by row ≡ (group_identity format row group_by).1
unfolding group_label_expression group_identity group_texts first_assistant_response_text
group_label_expression-group_identity format row group_by s u a given answered =
    elim (Bool-cases (group_by == "system_prompt_first_user")) [
      | inl pair ↦
          rw (pair, given) (labels-pair row.system_prompt_text row.first_user_message_text s u)
      | inr triple ↦
          rw (triple, given, answered)
            (labels-triple row.system_prompt_text row.first_user_message_text
              row.first_assistant_response_text s u a)
    ]

abbrev pub separator : String
separator = "\", \"system_prompt\": \""

abbrev pub with_texts : ProxyRequest → String → String → ProxyRequest
with_texts row user system = record row {
  first_user_message_text = some user;
  system_prompt_text = some system;
}

-- The key that the database gives a group does not tell apart all pairs of texts: what stands between
-- them may also stand in a text, at either of two places, and two requests with other system prompts
-- and other first messages of the user are in one group.
pub group_key_expression-ambiguous :
    (row : ProxyRequest) (group_by a b c : String)
    → group_key_expression group_by (with_texts row (append a (append separator b)) c)
      ≡ group_key_expression group_by (with_texts row a (append b (append separator c)))
unfolding group_key_expression concat
group_key_expression-ambiguous row group_by a b c =
    elim (Bool-cases (group_by == "system_prompt_first_user")) [
      | inl pair ↦ rw pair (simp append_assoc)
      | inr triple ↦ rw triple (simp append_assoc)
    ]
