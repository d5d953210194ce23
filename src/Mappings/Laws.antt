-- ===== src/Mappings/Laws.antt =====
-- Round trips of the notations for models and routes.
use text.Mathlib.TextLemmas.{cons-append, append_assoc}
use ai_proxy.Common.{
  String, append, ◌≡◌, refl, true, false, inl, inr, Option, none, some, List, [], ◌∷◌, All,
  is_given, Option-cases,
}
use ai_proxy.Text.{has_char, join, rsplit_once}
use ai_proxy.Text.Laws.{
  split-join, strip_all-IsStripped, IsStripped, split_once-append, rsplit_once-append,
  rsplit_once-none, single-append, has_char-join, rsplit_once_sound,
}
use ai_proxy.Mappings.{
  suffix_part, non_empty, pin_slugs, parse_mapping, strip_client_provider_suffix,
  format_route_label, build_provider_qualified_key,
}

-- A slug that can be pinned: stripped, not empty, and free of the separators `,` and `+`.
abbrev pub IsSlug : String → Type 0
IsSlug w = IsStripped w × (has_char "," w ≡ false) × (has_char "+" w ≡ false)

All-weaken {ℓ κ μ} :
    {A : Type ℓ} {P : A → Type κ} {Q : A → Type μ}
    → ((a : A) → P a → Q a)
    → (xs : List A) → All P xs
    → All Q xs
All-weaken f [] h = tt
All-weaken f (x ∷ xs) h = (f x h.0, All-weaken f xs h.1)

-- The pins that are joined by commas are read back.
pub pin_slugs-join :
    (w : String) (ws : List String) → All IsSlug (w ∷ ws) → pin_slugs (join "," (w ∷ ws)) ≡ w ∷ ws
unfolding pin_slugs
pin_slugs-join w ws h = rw (
  split-join "," w ws (All-weaken (λ v s. s.1) (w ∷ ws) h),
  strip_all-IsStripped (w ∷ ws) (All-weaken (λ v s. s.0) (w ∷ ws) h),
)

pin_slugs-single : (w : String) → IsSlug w → pin_slugs w ≡ w ∷ []
unfolding join
pin_slugs-single w h = pin_slugs-join w [] (h, tt)

no_plus-join : (ws : List String) → All IsSlug ws → has_char "+" (join "," ws) ≡ false
no_plus-join ws h = has_char-join "+" "," ws refl (All-weaken (λ v s. s.2) ws h)

colon : (m : String) → append ":" m ≡ String.◌∷◌ ":" m
colon = single-append ":"

plus : (m : String) → append "+" m ≡ String.◌∷◌ "+" m
plus = single-append "+"

-- What a route label must satisfy to be read back: a provider without `:`, pins that are slugs,
-- and, where nothing is pinned, a model without `+`.
abbrev pub IsLabelled : String → String → Option (List String) → Type 0
IsLabelled p m none = (has_char ":" p ≡ false) × (has_char "+" m ≡ false)
IsLabelled p m (some []) = ⊥
IsLabelled p m (some (w ∷ ws)) = (has_char ":" p ≡ false) × All IsSlug (w ∷ ws)

-- Parsing a route label as a mapping gives back the provider, the model and the pins, where the
-- provider has no `:`, the pins, if any, are stripped and free of `,` and `+`, and the model of a
-- label without pins has no `+`.
pub parse_mapping-format_route_label :
    (p m : String) (pinned : Option (List String))
    → IsLabelled p m pinned
    → parse_mapping (format_route_label p m pinned) ≡ (p, m, pinned)
unfolding parse_mapping format_route_label
parse_mapping-format_route_label p m none h =
    rw (colon, split_once-append ":" p m h.0, parse_mapping, rsplit_once-none "+" m h.1)
parse_mapping-format_route_label p m (some []) h = absurd h
parse_mapping-format_route_label p m (some (w ∷ ws)) h = rw (
  colon m,
  plus (join "," (w ∷ ws)),
  append_assoc,
  cons-append,
  split_once-append ":" p _ h.0,
  parse_mapping,
  rsplit_once-append "+" m (join "," (w ∷ ws)) (no_plus-join (w ∷ ws) h.1),
  pin_slugs-join w ws h.1,
)

-- A provider-qualified key is taken apart into the model and the one slug, where the slug is
-- stripped and has no `,` and no `+`.
pub strip_client_provider_suffix-build_provider_qualified_key :
    (model slug : String)
    → IsSlug slug
    → strip_client_provider_suffix (build_provider_qualified_key model slug)
      ≡ (model, some (slug ∷ []))
unfolding strip_client_provider_suffix build_provider_qualified_key
strip_client_provider_suffix-build_provider_qualified_key model slug h = rw (
  plus slug,
  rsplit_once-append "+" model slug h.2,
  strip_client_provider_suffix,
  pin_slugs-single slug h,
)

-- How a client's name for a model and what was read from it hang together: with slugs, the name is
-- the base, a `+` and a last part without `+` that lists the slugs; without, it is the base.
abbrev pub IsSuffixed : String → String × Option (List String) → Type 0
IsSuffixed model (base, none) = base ≡ model
IsSuffixed model (base, some slugs) =
    (pin_part : String) × (model ≡ append base (String.◌∷◌ "+" pin_part))
    × (has_char "+" pin_part ≡ false)
    × (pin_slugs pin_part ≡ slugs)
    × (is_given (some slugs) ≡ true)

-- Whatever name a client sends, taking it apart loses nothing but the slugs that it yields: with
-- slugs the name is the base, a `+` and a last part without `+` that lists them, and without
-- slugs it is the base.
pub strip_client_provider_suffix-IsSuffixed :
    (model : String) → IsSuffixed model (strip_client_provider_suffix model)
unfolding strip_client_provider_suffix
strip_client_provider_suffix-IsSuffixed model = elim (Option-cases (rsplit_once "+" model)) [
  | inl e ↦ rw e refl
  | inr ((base, pin_part), e) ↦ rw e (
      let (parts, plain) = rsplit_once_sound "+" model base pin_part e in
      read base pin_part (pin_slugs pin_part) refl parts plain)
]
  where
    read :
        (base pin_part : String) (ws : List String)
        → pin_slugs pin_part ≡ ws
        → model ≡ append base (String.◌∷◌ "+" pin_part)
        → has_char "+" pin_part ≡ false
        → IsSuffixed model (suffix_part model (non_empty ws) base)
    read base pin_part [] e p q = refl
    read base pin_part (w ∷ ws) e p q = (pin_part, p, q, e, refl)
