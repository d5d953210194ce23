-- ===== src/Text/Laws.antt =====
-- Laws of the operations on texts: what `split_once`, `rsplit_once` and `split` do to a text that
-- was put together from parts.
use Prim.Native.Char.{Char}
use ai_proxy.Common.{
  String, append, ◌≡◌, refl, ap, true, false, ◌||◌, none, some, List, [], ◌∷◌, arith, ◌==◌,
  Bool-cases, inl, inr, ◌⊎◌, Option-cases, All,
}
use text.Mathlib.TextLemmas.{nil-append, cons-append}
use text.Mathlib.TextEquality.{Char-path}
use ai_proxy.Text.{
  drop_prefix, lower, char_eq, has_char, split_once, rsplit_once, split, join, strip, strip_all,
}

pub char_eq_refl : (c : Char) → char_eq c c ≡ true
char_eq_refl c = ground arith

pub char_eq-path : (c d : Char) → char_eq c d ≡ true → c ≡ d
char_eq-path c d h = Char-path c d (ground arith)

pub has_char-append :
    (x : Char) (s t : String) → has_char x (append s t) ≡ (has_char x s || has_char x t)
unfolding has_char
has_char-append x String.[] t = rw nil-append
has_char-append x (String.◌∷◌ c s) t = rw cons-append (ground (arith, has_char-append x s t))

-- A separator of one character, put in front of a text.
pub single-append : (x : Char) (s : String) → append (String.◌∷◌ x String.[]) s ≡ String.◌∷◌ x s
single-append x s = rw (cons-append, nil-append)

-- Splitting at the first separator undoes joining, if the left part has none.
pub split_once-append :
    (x : Char) (a b : String)
    → has_char x a ≡ false
    → split_once x (append a (String.◌∷◌ x b)) ≡ some (a, b)
unfolding split_once has_char
split_once-append x String.[] b h = rw (nil-append, split_once) (ground arith)
split_once-append x (String.◌∷◌ c a) b h = rw cons-append (ground (arith, split_once-append x a b))

pub split_once-none : (x : Char) (s : String) → has_char x s ≡ false → split_once x s ≡ none
unfolding split_once has_char
split_once-none x String.[] h = refl
split_once-none x (String.◌∷◌ c s) h = ground (arith, split_once-none x s)

pub rsplit_once-none : (x : Char) (s : String) → has_char x s ≡ false → rsplit_once x s ≡ none
unfolding rsplit_once has_char
rsplit_once-none x String.[] h = refl
rsplit_once-none x (String.◌∷◌ c s) h = ground (arith, rsplit_once-none x s)

-- Splitting at the last separator undoes joining, if the right part has none.
pub rsplit_once-append :
    (x : Char) (a b : String)
    → has_char x b ≡ false
    → rsplit_once x (append a (String.◌∷◌ x b)) ≡ some (a, b)
unfolding rsplit_once
rsplit_once-append x String.[] b h =
    rw (nil-append, rsplit_once) (ground (arith, rsplit_once-none x b))
rsplit_once-append x (String.◌∷◌ c a) b h =
    rw cons-append (ground (arith, rsplit_once-append x a b))

pub has_char-rsplit_once-none :
    (x : Char) (s : String) → rsplit_once x s ≡ none → has_char x s ≡ false
unfolding rsplit_once has_char
has_char-rsplit_once-none x String.[] h = refl
has_char-rsplit_once-none x (String.◌∷◌ c s) h = elim (Option-cases (rsplit_once x s)) [
  | inl e ↦ ground (arith, has_char-rsplit_once-none x s e)
  | inr (p, e) ↦ ground arith
]

-- What was split puts together to the text again, at its last separator.
pub rsplit_once_sound :
    (x : Char) (s a b : String)
    → rsplit_once x s ≡ some (a, b)
    → (s ≡ append a (String.◌∷◌ x b)) × (has_char x b ≡ false)
unfolding rsplit_once
rsplit_once_sound x String.[] a b h = cc
rsplit_once_sound x (String.◌∷◌ c s) a b h = elim (Option-cases (rsplit_once x s)) [
  | inl e ↦
      ground (arith, has_char-rsplit_once-none x s e, char_eq-path c x, nil-append (String.◌∷◌ x b))
  | inr ((a', b'), e) ↦
      ground (arith, rsplit_once_sound x s a' b' e, cons-append c a' (String.◌∷◌ x b'))
]

pub split_once-cases :
    (x : Char) (s : String)
    → (has_char x s ≡ false) ⊎ ((p : String × String) × (split_once x s ≡ some p))
unfolding split_once has_char
split_once-cases x String.[] = inl refl
split_once-cases x (String.◌∷◌ c s) = elim (Bool-cases (char_eq c x)) [
  | inl here ↦ inr ((String.[], s), rw here)
  | inr e ↦ elim (split_once-cases x s) [
    | inl absent ↦ inl (rw (e, absent))
    | inr ((a, b), found) ↦ inr ((String.◌∷◌ c a, b), rw (e, found))
  ]
]

pub split-has_char-false : (x : Char) (s : String) → has_char x s ≡ false → split x s ≡ s ∷ []
unfolding split has_char
split-has_char-false x String.[] h = refl
split-has_char-false x (String.◌∷◌ c s) h = ground (arith, split-has_char-false x s)

pub split-append :
    (x : Char) (a b : String)
    → has_char x a ≡ false
    → split x (append a (String.◌∷◌ x b)) ≡ a ∷ split x b
unfolding split has_char
split-append x String.[] b h = rw (nil-append, split) (ground arith)
split-append x (String.◌∷◌ c a) b h = rw cons-append (ground (arith, split-append x a b))

pub split-join :
    (x : Char) (w : String) (ws : List String)
    → All (λ v. has_char x v ≡ false) (w ∷ ws)
    → split x (join (String.◌∷◌ x String.[]) (w ∷ ws)) ≡ w ∷ ws
unfolding join
split-join x w [] h = split-has_char-false x w h.0
split-join x w (v ∷ ws) h =
    rw (cons-append, nil-append, split-append x w (join (String.◌∷◌ x String.[]) (v ∷ ws)) h.0)
      (ap (λ (l : List String). w ∷ l) (split-join x v ws h.1))

-- A text that is not empty and that `strip` leaves as it is.
abbrev pub IsStripped : String → Type 0
IsStripped w = (strip w ≡ w) × ((w == "") ≡ false)

pub strip_all-IsStripped : (ws : List String) → All IsStripped ws → strip_all ws ≡ ws
unfolding strip_all
strip_all-IsStripped [] h = refl
strip_all-IsStripped (w ∷ ws) h = rw (h.0.0, h.0.1, strip_all-IsStripped ws h.1)

pub has_char-join :
    (x y : Char) (ws : List String)
    → char_eq y x ≡ false
    → All (λ v. has_char x v ≡ false) ws
    → has_char x (join (String.◌∷◌ y String.[]) ws) ≡ false
unfolding join has_char
has_char-join x y [] e h = refl
has_char-join x y (w ∷ []) e h = h.0
has_char-join x y (w ∷ v ∷ ws) e h =
    rw (has_char-append, has_char-append, h.0, e) (has_char-join x y (v ∷ ws) e h.1)

-- Lower case is taken character by character.
pub lower-append : (s t : String) → lower (append s t) ≡ append (lower s) (lower t)
unfolding lower
lower-append String.[] t = simp nil-append
lower-append (String.◌∷◌ c s) t = simp (cons-append, lower-append s t)

pub drop_prefix-append : (p s : String) → drop_prefix p (append p s) ≡ some s
unfolding drop_prefix
drop_prefix-append String.[] s = ap some (nil-append s)
drop_prefix-append (String.◌∷◌ c p) s =
    rw (cons-append, drop_prefix, char_eq_refl) (drop_prefix-append p s)

-- What is left of a text without its prefix.
pub drop_prefix-some : (p s r : String) → drop_prefix p s ≡ some r → s ≡ append p r
unfolding drop_prefix
drop_prefix-some String.[] s r h = let e : s ≡ r = cc in rw (nil-append, e) refl
drop_prefix-some (String.◌∷◌ p ps) String.[] r h = absurd (cc)
drop_prefix-some (String.◌∷◌ p ps) (String.◌∷◌ c s) r h = elim (Bool-cases (char_eq p c)) [
  | inl same ↦
      rw (cons-append, char_eq-path p c same)
        (ap (λ (t : String). String.◌∷◌ c t) (drop_prefix-some ps s r (rw same at h)))
  | inr other ↦ let f = rw other at h in absurd (cc)
]
