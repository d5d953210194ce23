-- ===== src/Routing/Gives.antt =====
-- What holds of the value of a fallible stage, if it has one: a rule for each way to build a stage.
use ai_proxy.Routing.{RouteResult, found, or_no_route}
use ai_proxy.Common.{
  String, ◌≡◌, refl, Bool, true, false, Option, none, some, if◌then◌else◌, or_else, ◌>>=◌,
}

pub record Gives {A : Type 0} (P : A → Type 0) (o : Option A) : Type 0 where
  pub at : (a : A) → o ≡ some a → P a

module _ {A : Type 0} {P : A → Type 0} where
  pub Gives-none : Gives P none
  Gives-none = record { at = λ a e. cc }

  pub Gives-or_else : (o p : Option A) → Gives P o → Gives P p → Gives P (or_else o p)
  Gives-or_else none p g h = h
  Gives-or_else (some a) p g h = g

  pub Gives-if : (b : Bool) (o p : Option A) → Gives P o → Gives P p → Gives P (if b then o else p)
  Gives-if true o p g h = g
  Gives-if false o p g h = h

  pub Gives-bind :
      {B : Type 0} (o : Option B) (f : B → Option A)
      → ((b : B) → o ≡ some b → Gives P (f b))
      → Gives P (o >>= f)
  Gives-bind none f h = Gives-none
  Gives-bind (some b) f h = h b refl

-- A value that is put together from one with the first property has the second.
pub Gives-map :
    {A B : Type 0} {P : A → Type 0} {Q : B → Type 0} (f : A → B) (o : Option A)
    → ((a : A) → P a → Q (f a))
    → Gives P o
    → Gives Q (o >>= λ a. some (f a))
Gives-map f none h g = Gives-none
Gives-map {Q} f (some a) h g = record { at = λ b e. rw (← read b e) (h a (g.at a refl)) }
  where
    read : (b : _) → some (f a) ≡ some b → f a ≡ b
    read b e = cc

pub found-or_no_route :
    (l : String) (o : Option RouteResult) (r : RouteResult) → or_no_route l o ≡ found r → o ≡ some r
found-or_no_route l none r e = cc
found-or_no_route l (some q) r e = cc
