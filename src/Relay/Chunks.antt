-- ===== src/Relay/Chunks.antt =====
-- Reading back the messages that are written to a stream.
use Prim.Native.Char.{Char}
use text.Mathlib.TextLemmas.{nil-append, cons-append, append_assoc}
use ai_proxy.Common.{
  String, append, ◌≡◌, refl, sym, ap, ◌∙◌, inl, inr, Bool, true, false, none, ◌==◌, eq_iff,
  Bool-cases,
}
use ai_proxy.Text.{is_space, strip_left, strip_right, strip, before, drop_prefix}
use ai_proxy.Text.Laws.{drop_prefix-append}
use ai_proxy.Json.{object, JsonObject}
use ai_proxy.Upstream.{loaded, Codec}
use ai_proxy.Events.{parse_sse_chunk, event}

before-append :
    (b : Bool) (c d : Char) (s u : String)
    → before b c (append s (String.◌∷◌ d u)) ≡ String.◌∷◌ c (append s (String.◌∷◌ d u))
before-append true c d String.[] u = rw nil-append refl
before-append true c d (String.◌∷◌ e s) u = rw cons-append refl
before-append false c d s u = refl

strip_right-append-spaces :
    (s t : String) → strip_right t ≡ "" → strip_right (append s t) ≡ strip_right s
unfolding strip_right
strip_right-append-spaces String.[] t h = rw nil-append h
strip_right-append-spaces (String.◌∷◌ c s) t h =
    rw (cons-append, strip_right, strip_right-append-spaces s t h) refl

strip_right-append :
    (s : String) (d : Char) (u : String)
    → strip_right (String.◌∷◌ d u) ≡ String.◌∷◌ d u
    → strip_right (append s (String.◌∷◌ d u)) ≡ append s (String.◌∷◌ d u)
unfolding strip_right
strip_right-append String.[] d u h = rw nil-append h
strip_right-append (String.◌∷◌ c s) d u h =
    rw (cons-append, strip_right, strip_right-append s d u h) (before-append (is_space c) c d s u)

-- What a codec gives for an object: a JSON text in braces that is read back, also from its bytes.
pub record IsWritten (codec : Codec) (payload : JsonObject) : Type 0 where
  pub middle : String
  pub in_braces : codec.dumps_text (object payload) ≡ append "{" (append middle "}")
  pub read_back : codec.loads_text (codec.dumps_text (object payload)) ≡ loaded (object payload)
  pub decoded :
      codec.decode (event codec payload)
      ≡ append (append "data: " (codec.dumps_text (object payload))) "\n\n"

abbrev data_text : String → String
data_text middle = append "data: " (append "{" (append middle "}"))

strip_left-data : (s : String) → strip_left (append "data: " s) ≡ append "data: " s
unfolding strip_left is_space
strip_left-data s = rw (cons-append "d" "ata: " s) refl

data_text_lem : (middle : String) → data_text middle ≡ append (append "data: {" middle) "}"
data_text_lem middle =
    sym (append_assoc "data: " "{" (append middle "}")) ∙ sym (append_assoc "data: {" middle "}")

strip-data_text : (middle : String) → strip (append (data_text middle) "\n\n") ≡ data_text middle
unfolding strip strip_right is_space
strip-data_text middle =
    ap strip_right (
      ap strip_left (append_assoc "data: " (append "{" (append middle "}")) "\n\n")
      ∙ strip_left-data _
      ∙ sym (append_assoc "data: " (append "{" (append middle "}")) "\n\n"))
    ∙ strip_right-append-spaces (data_text middle) "\n\n" refl
    ∙ ap strip_right (data_text_lem middle)
    ∙ strip_right-append (append "data: {" middle) "}" "" refl
    ∙ sym (data_text_lem middle)

data_text-other :
    (middle text : String) → drop_prefix "data: {" text ≡ none → (data_text middle == text) ≡ false
data_text-other middle text h = elim (Bool-cases (data_text middle == text)) [
  | inl same ↦
      let e = (eq_iff (data_text middle) text).0 same in
      let f =
        sym (drop_prefix-append "data: {" (append middle "}"))
        ∙ ap (drop_prefix "data: {") (append_assoc "data: " "{" (append middle "}") ∙ e)
        ∙ h in
      absurd (cc)
  | inr other ↦ other
]

-- A message that the proxy writes to a stream is read back as the object that was written, where the
-- codec writes it as a JSON text in braces and reads that back.
pub parse_sse_chunk-event :
    (codec : Codec) (payload : JsonObject)
    → IsWritten codec payload
    → parse_sse_chunk codec (event codec payload) ≡ loaded (object payload)
unfolding parse_sse_chunk drop_prefix
parse_sse_chunk-event codec payload w =
    rw
      (
        w.decoded,
        w.in_braces,
        strip-data_text w.middle,
        data_text-other w.middle "" refl,
        data_text-other w.middle "data: [DONE]" refl,
        drop_prefix-append "data: " (append "{" (append w.middle "}")),
      )
      (ap codec.loads_text (sym w.in_braces) ∙ w.read_back)
