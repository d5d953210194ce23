-- ===== src/RequestViews/Excerpts.antt =====
-- What is shown of the messages of a request.
use Prim.Native.String.{count}
use text.Mathlib.TextLemmas.{length-cons}
use ai_proxy.Common.{
  ℕ, zero, suc, ◌≤◌, String, ◌≡◌, refl, sym, ap, ◌∙◌, inl, inr, ◌⊎◌, Option, none, some, List, [],
  ◌∷◌, ◌++◌, ◌==◌, Bool-cases, Option-cases, All, arith, bind-some, some-injective,
}
use ai_proxy.Json.{Json}
use ai_proxy.Masking.{take_chars, mask_sensitive_fields}
use ai_proxy.Masking.Laws.{IsMasked, mask_sensitive_fields-IsMasked}
use ai_proxy.RequestViews.{
  Row, TextOps, messages_of, user_text, last_user_text, extract_last_user_message,
  ordered_request_body,
}

count-take_chars_le : (n : ℕ) (s : String) → count (take_chars n s) ≤ n
unfolding take_chars
count-take_chars_le zero s = omega arith
count-take_chars_le (suc n) String.[] = omega arith
count-take_chars_le (suc n) (String.◌∷◌ c s) =
    rw length-cons (omega (arith, count-take_chars_le n s))

-- The last message that has a text of a user, and what comes before and after it.
pub record IsLast (messages : List Json) (text : String) : Type 0 where
  pub before : List Json
  pub message : Json
  pub after : List Json
  pub in_order : messages ≡ before ++ message ∷ after
  pub has_text : user_text message ≡ some text
  pub none_after : All (λ (m : Json). user_text m ≡ none) after

last_user_text-none :
    (messages : List Json)
    → last_user_text messages ≡ none
    → All (λ (m : Json). user_text m ≡ none) messages
unfolding last_user_text
last_user_text-none [] h = tt
last_user_text-none (m ∷ messages) h = elim (Option-cases (last_user_text messages)) [
  | inl absent ↦ (rw absent at h, last_user_text-none messages absent)
  | inr (text, found) ↦ let f = rw found at h in absurd (cc)
]

last_user_text-IsLast :
    (messages : List Json) (text : String)
    → last_user_text messages ≡ some text
    → IsLast messages text
unfolding last_user_text
last_user_text-IsLast [] text h = absurd (cc)
last_user_text-IsLast (m ∷ messages) text h = elim (Option-cases (last_user_text messages)) [
  | inl absent ↦ record {
    before = [];
    message = m;
    after = messages;
    in_order = refl;
    has_text = rw absent at h;
    none_after = last_user_text-none messages absent;
  }
  | inr (t, found) ↦
      let rest = last_user_text-IsLast messages text (found ∙ rw found at h) in
      record {
        before = m ∷ rest.before;
        message = rest.message;
        after = rest.after;
        in_order = ap (λ (l : List Json). m ∷ l) rest.in_order;
        has_text = rest.has_text;
        none_after = rest.none_after;
      }
]

-- The message that is shown of a request is at most the first 200 characters of a text: that of the
-- last message that is not the assistant's and has one.
pub extract_last_user_message-IsLast :
    (row : Row) (shown : String)
    → extract_last_user_message row ≡ some shown
    → (messages : List Json) × (text : String) × (messages_of row ≡ some messages)
      × IsLast messages text
      × (shown ≡ take_chars 200 text)
      × (count shown ≤ 200)
unfolding extract_last_user_message
extract_last_user_message-IsLast row shown h =
    let (messages, listed, h₁) = bind-some (messages_of row) _ h in
    let (text, found, h₂) = bind-some (last_user_text messages) _ h₁ in
    let e = sym (some-injective h₂) in
    (
      messages,
      text,
      listed,
      last_user_text-IsLast messages text found,
      e,
      rw e (count-take_chars_le 200 text),
    )

-- What is shown of a raw text is the stored body, or the value that the text has, masked.
abbrev pub IsShown : TextOps → Option String → Json → Json → Type 0
IsShown ops raw_text fallback shown =
    (shown ≡ fallback)
    ⊎ ((text : String) × (v : Json) × (raw_text ≡ some text)
        × (ops.loads text ≡ some v)
        × (shown ≡ mask_sensitive_fields v))

-- The body that is shown of a request is the stored one, or what its raw text is read as, masked: no
-- other text is shown. Where the stored body has no text under a sensitive name but a masked one,
-- neither has the body that is shown.
pub ordered_request_body-IsMasked :
    (ops : TextOps) (raw_text : Option String) (fallback : Json)
    → IsMasked fallback
    → IsShown ops raw_text fallback (ordered_request_body ops raw_text fallback)
      × IsMasked (ordered_request_body ops raw_text fallback)
unfolding ordered_request_body
ordered_request_body-IsMasked ops none fallback h = (inl refl, h)
ordered_request_body-IsMasked ops (some raw_text) fallback h = elim (Bool-cases (raw_text == "")) [
  | inl empty ↦ rw empty (inl refl, h)
  | inr given ↦ rw given (elim (Option-cases (ops.loads raw_text)) [
    | inl unread ↦ rw unread (inl refl, h)
    | inr (v, read) ↦
        rw read (inr (raw_text, v, refl, read, refl), mask_sensitive_fields-IsMasked v)
  ])
]
