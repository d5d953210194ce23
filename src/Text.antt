-- ===== src/Text.antt =====
-- Python's operations on texts that the backend calls: `lower`, `strip`, `split`, `rsplit`,
-- `join`. A text is a sequence of Unicode scalar values. `lower` is that of ASCII; a letter beyond
-- ASCII is left as it is.
pub mod Laws
pub mod Glob
use Prim.Native.Char.{Char, code}
use Prim.Native.String
use ai_proxy.Common.{
  ℕ, String, append, Bool, true, false, not, ◌&&◌, ◌||◌, Option, none, some, List, [], ◌∷◌, ◌==◌,
  if◌then◌else◌, nat_eq, leb,
}
use mathlib.Core.Option

-- `any(p(c) for c in s)`
unfoldable pub any_char : (Char → Bool) → String → Bool
any_char p String.[] = false
any_char p (String.◌∷◌ c s) = p c || any_char p s

abbrev pub char_eq : Char → Char → Bool
char_eq c d = nat_eq (code c) (code d)

-- `x in s`, for one character `x`
unfoldable pub has_char : Char → String → Bool
has_char x String.[] = false
has_char x (String.◌∷◌ c s) = char_eq c x || has_char x s

abbrev upper_letters : String
upper_letters = "ABCDEFGHIJKLMNOPQRSTUVWXYZ"

abbrev lower_letters : String
lower_letters = "abcdefghijklmnopqrstuvwxyz"

translate : String → String → Char → Char
translate (String.◌∷◌ u us) (String.◌∷◌ l ls) c =
    let rest = translate us ls c in if char_eq c u then l else rest
translate us ls c = c

unfoldable pub lower : String → String
unfolding translate
lower String.[] = String.[]
lower (String.◌∷◌ c s) = String.◌∷◌ (translate upper_letters lower_letters c) (lower s)

-- `s.upper()`, of ASCII letters
unfoldable pub upper : String → String
unfolding translate
upper String.[] = String.[]
upper (String.◌∷◌ c s) = String.◌∷◌ (translate lower_letters upper_letters c) (upper s)

-- `str.isspace`
unfoldable pub is_space : Char → Bool
is_space c =
    let n = code c in
    leb 9 n && leb n 13
    || leb 28 n && leb n 32
    || nat_eq n 133
    || nat_eq n 160
    || nat_eq n 5760
    || leb 8192 n && leb n 8202
    || nat_eq n 8232
    || nat_eq n 8233
    || nat_eq n 8239
    || nat_eq n 8287
    || nat_eq n 12288

unfoldable pub strip_left : String → String
strip_left String.[] = String.[]
strip_left (String.◌∷◌ c s) = let rest = strip_left s in if is_space c then rest else String.◌∷◌ c s

-- A character goes in front of what is left, unless it is white space before nothing.
abbrev pub before : Bool → Char → String → String
before true c String.[] = String.[]
before true c (String.◌∷◌ d s) = String.◌∷◌ c (String.◌∷◌ d s)
before false c s = String.◌∷◌ c s

unfoldable pub strip_right : String → String
strip_right String.[] = String.[]
strip_right (String.◌∷◌ c s) = before (is_space c) c (strip_right s)

-- `s.strip()`
unfoldable pub strip : String → String
unfolding strip_left strip_right is_space
strip s = strip_right (strip_left s)

-- `s.split(sep, 1)` where the separator is present.
unfoldable pub split_once : Char → String → Option (String × String)
split_once sep String.[] = none
split_once sep (String.◌∷◌ c s) =
    if char_eq c sep
    then some (String.[], s)
    else Option.map (λ (a, b). (String.◌∷◌ c a, b)) (split_once sep s)

abbrev last_part : Char → Char → String → Option (String × String) → Option (String × String)
last_part sep c s (some (a, b)) = some (String.◌∷◌ c a, b)
last_part sep c s none = if char_eq c sep then some (String.[], s) else none

-- `s.rsplit(sep, 1)` where the separator is present.
unfoldable pub rsplit_once : Char → String → Option (String × String)
rsplit_once sep String.[] = none
rsplit_once sep (String.◌∷◌ c s) = last_part sep c s (rsplit_once sep s)

abbrev extend_first : Char → List String → List String
extend_first c [] = String.◌∷◌ c String.[] ∷ []
extend_first c (w ∷ ws) = String.◌∷◌ c w ∷ ws

-- `s.split(sep)`
unfoldable pub split : Char → String → List String
split sep String.[] = String.[] ∷ []
split sep (String.◌∷◌ c s) =
    let rest = split sep s in if char_eq c sep then String.[] ∷ rest else extend_first c rest

-- `sep.join(ws)`
unfoldable pub join : String → List String → String
join sep [] = ""
join sep (w ∷ []) = w
join sep (w ∷ v ∷ ws) = append w (append sep (join sep (v ∷ ws)))

-- `[w.strip() for w in ws if w.strip()]`
unfoldable pub strip_all : List String → List String
strip_all [] = []
strip_all (w ∷ ws) = if strip w == "" then strip_all ws else strip w ∷ strip_all ws

-- The rest of a text after a prefix.
unfoldable pub drop_prefix : String → String → Option String
drop_prefix String.[] s = some s
drop_prefix (String.◌∷◌ p ps) String.[] = none
drop_prefix (String.◌∷◌ p ps) (String.◌∷◌ c s) = if char_eq p c then drop_prefix ps s else none

abbrev pub is_some {ℓ} : {A : Type ℓ} → Option A → Bool
is_some none = false
is_some (some a) = true

-- `s.startswith(prefix)`
abbrev pub has_prefix : String → String → Bool
has_prefix prefix s = is_some (drop_prefix prefix s)

-- `part in s`
unfoldable pub has_infix : String → String → Bool
unfolding drop_prefix
has_infix part String.[] = has_prefix part String.[]
has_infix part (String.◌∷◌ c s) = has_prefix part (String.◌∷◌ c s) || has_infix part s
