-- ===== src/Text/Glob.antt =====
-- `fnmatch.fnmatch` on POSIX, where case is kept: `*`, `?`, `[seq]` and `[!seq]`; a `[` that is
-- never closed stands for itself. As the standard library does, a `]` that comes first in a
-- sequence is a member, a `-` between two characters makes a range, an empty range matches nothing.
use Prim.Native.Char.{Char, code}
use Prim.Native.String
use ai_proxy.Common.{
  ℕ, zero, suc, String, Bool, true, false, not, ◌&&◌, ◌||◌, Option, none, some, List, [], ◌∷◌,
  if◌then◌else◌, leb, ◌≡◌, ◌↔◌, refl, arith,
}
use mathlib.Core.Option
use text.Mathlib.TextLemmas.{length-cons}
use ai_proxy.Text.{char_eq, has_char}
use ai_proxy.Text.Laws.{char_eq_refl, char_eq-path}

-- One part of a pattern.
pub data Glob : Type 0 where
  star any_one : Glob
  literal : Char → Glob
  one_of : (negated : Bool) → (members : String) → Glob

-- The members of a sequence up to the closing bracket, and what follows it.
close_bracket : String → Option (String × String)
close_bracket String.[] = none
close_bracket (String.◌∷◌ c s) =
    if char_eq c "]"
    then some (String.[], s)
    else Option.map (λ (a, b). (String.◌∷◌ c a, b)) (close_bracket s)

-- A closing bracket at the very start is a member.
bracket_members : String → Option (String × String)
unfolding close_bracket
bracket_members String.[] = none
bracket_members (String.◌∷◌ c s) = Option.map (λ (a, b). (String.◌∷◌ c a, b)) (close_bracket s)

bracket : String → Option (Bool × String × String)
unfolding bracket_members
bracket String.[] = none
bracket (String.◌∷◌ c s) =
    if char_eq c "!"
    then Option.map (λ (a, b). (true, a, b)) (bracket_members s)
    else Option.map (λ (a, b). (false, a, b)) (bracket_members (String.◌∷◌ c s))

-- Is the character among the members or in one of the ranges?
in_members : Char → String → Bool
in_members x (String.◌∷◌ a (String.◌∷◌ d (String.◌∷◌ b s))) =
    let range = leb (code a) (code x) && leb (code x) (code b) || in_members x s in
    let single = char_eq a x || in_members x (String.◌∷◌ d (String.◌∷◌ b s)) in
    if char_eq d "-" then range else single
in_members x (String.◌∷◌ a s) = char_eq a x || has_char x s
in_members x String.[] = false

abbrev bracket_glob : Bool × String × String → Glob
bracket_glob (negated, members, s) = one_of negated members

-- `fuel` bounds the number of parts; the length of the pattern is enough.
parse_glob : ℕ → String → List Glob
parse_glob zero s = []
parse_glob (suc fuel) String.[] = []
parse_glob (suc fuel) (String.◌∷◌ c s) =
    let plain = parse_glob fuel s in
    let sequence : List Glob = elim (bracket s) [
      | none ↦ literal c ∷ parse_glob fuel s
      | some (negated, members, after) ↦ one_of negated members ∷ parse_glob fuel after
    ] in
    if char_eq c "*"
    then star ∷ plain
    else if char_eq c "?"
    then any_one ∷ plain
    else if char_eq c "["
    then sequence
    else literal c ∷ plain

matches_one : Glob → Char → Bool
unfolding in_members
matches_one star c = false
matches_one any_one c = true
matches_one (literal d) c = char_eq c d
matches_one (one_of negated members) c =
    if negated then not (in_members c members) else in_members c members

matches : List Glob → String → Bool
matches [] String.[] = true
matches [] (String.◌∷◌ c s) = false
matches (star ∷ gs) String.[] = matches gs String.[]
matches (star ∷ gs) (String.◌∷◌ c s) = matches gs (String.◌∷◌ c s) || matches (star ∷ gs) s
matches (g ∷ gs) String.[] = false
matches (g ∷ gs) (String.◌∷◌ c s) = matches_one g c && matches gs s

unfoldable pub fnmatch : String → String → Bool
unfolding parse_glob matches matches_one bracket
fnmatch name pattern = matches (parse_glob (String.count pattern) pattern) name

-- `*` matches every text.
matches-star : (s : String) → matches (star ∷ []) s ≡ true
unfolding matches
matches-star String.[] = refl
matches-star (String.◌∷◌ c s) = rw (matches-star s)

pub fnmatch-star : (s : String) → fnmatch s "*" ≡ true
unfolding fnmatch
fnmatch-star s = matches-star s

-- What the backend calls `has_glob`, for one character.
abbrev pub is_plain : String → Bool
is_plain s = not (has_char "*" s) && not (has_char "?" s) && not (has_char "[" s)

literals : String → List Glob
literals String.[] = []
literals (String.◌∷◌ c s) = literal c ∷ literals s

parse_glob-plain : (s : String) → is_plain s ≡ true → parse_glob (String.count s) s ≡ literals s
unfolding parse_glob literals has_char
parse_glob-plain String.[] h = refl
parse_glob-plain (String.◌∷◌ c s) h =
    rw (length-cons, parse_glob) (ground (arith, parse_glob-plain s))

matches-literals_self : (s : String) → matches (literals s) s ≡ true
unfolding matches literals matches_one
matches-literals_self String.[] = refl
matches-literals_self (String.◌∷◌ c s) = rw (char_eq_refl, matches-literals_self s)

matches-literals : (s t : String) → matches (literals t) s ≡ true → s ≡ t
unfolding matches literals matches_one
matches-literals String.[] String.[] h = refl
matches-literals String.[] (String.◌∷◌ c t) h = cc
matches-literals (String.◌∷◌ c s) String.[] h = cc
matches-literals (String.◌∷◌ c s) (String.◌∷◌ d t) h =
    ground (arith, char_eq-path c d, matches-literals s t)

-- A pattern with none of the special characters matches itself alone.
pub fnmatch-plain : (s p : String) → is_plain p ≡ true → (fnmatch s p ≡ true) ↔ (s ≡ p)
unfolding fnmatch
fnmatch-plain s p h =
    rw (parse_glob-plain p h) (matches-literals s p, λ e. rw e (matches-literals_self p))

tests :
    (fnmatch "gpt-4o" "gpt-*" ≡ true)
    × (fnmatch "a]c" "a[]x]c" ≡ true)
    × (fnmatch "b" "[!a-c]" ≡ false)
    × (fnmatch "-" "[a-]" ≡ true)
    × (fnmatch "[a" "[a" ≡ true)
    × (fnmatch "ab" "?" ≡ false)
unfolding fnmatch has_char
tests = (refl, refl, refl, refl, refl, refl)
