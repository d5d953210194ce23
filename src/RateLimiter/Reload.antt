-- ===== src/RateLimiter/Reload.antt =====
-- A start or a reload of the configuration: which limiter each provider has afterwards.
use ai_proxy.Common.{
  zero, suc, nat_eq, String, ◌≡◌, refl, ◌∙◌, true, Option, none, some, [], ◌∷◌, arith,
  if◌then◌else◌, ltb, Bool-cases, inl, inr, ◌==◌, eq_iff, eq_refl,
}
use mathlib.Core.Path.{subst}
use ai_proxy.Json.{ℤ, pos, negsuc}
use ai_proxy.Dict
use ai_proxy.Dict.{Dict}
use ai_proxy.Dict.Laws.{get-set, get-empty, get-cons}
use ai_proxy.Config.{ProviderConfig}
use ai_proxy.RateLimiter.{
  Limiter, reuse, rpm_of, new_limiter, build_limiter, build_limiters_from, build_rate_limiters,
}

-- No key stands twice, as in every `dict`.
abbrev pub IsUnique : Dict ProviderConfig → Type 0
IsUnique [] = Unit
IsUnique ((k, v) ∷ d) = (Dict.get d k ≡ none) × IsUnique d

-- The limiter that a provider is to have: none without a positive limit, the old one while the limit
-- stays, else a new one, in which no request is or waits.
abbrev pub limiter_by : Option Limiter → ℤ → Option ℤ → Option Limiter
limiter_by old max_queue (some (pos (suc n))) = elim old [
  | none ↦ some (record { rpm = suc n; max_queue = max_queue; timestamps = []; waiting = 0 })
  | some l ↦
      if nat_eq l.rpm (suc n)
      then some l
      else some (record { rpm = suc n; max_queue = max_queue; timestamps = []; waiting = 0 })
]
limiter_by old max_queue _ = none

abbrev pub limiter_for : Option Limiter → Option ProviderConfig → Option Limiter
limiter_for old none = none
limiter_for old (some c) = limiter_by old c.rate_limit.max_queue c.rate_limit.rpm

-- What the loop makes of a provider.
abbrev made_for : Option Limiter → Option ProviderConfig → Option Limiter
made_for old none = none
made_for old (some c) =
    if ltb 0 (rpm_of c.rate_limit.rpm)
    then some (reuse (rpm_of c.rate_limit.rpm) (new_limiter c.rate_limit) old)
    else none

get-build_limiter :
    (limiters new : Dict Limiter) (name k : String) (c : ProviderConfig)
    → (name == k ≡ true → Dict.get new k ≡ none)
    → Dict.get (build_limiter limiters name c new) k
      ≡ (if name == k then made_for (Dict.get limiters k) (some c) else Dict.get new k)
unfolding build_limiter
get-build_limiter limiters new name k c h = elim (Bool-cases (name == k)) [
  | inl same ↦
      rw (same, (eq_iff name k).0 same)
        (ground (
          arith,
          h same,
          get-set new k k
              (reuse (rpm_of c.rate_limit.rpm) (new_limiter c.rate_limit) (Dict.get limiters k)),
          eq_refl k,
        ))
  | inr other ↦ rw other (
      ground (
        arith,
        get-set new name k
            (reuse (rpm_of c.rate_limit.rpm) (new_limiter c.rate_limit) (Dict.get limiters name)),
      ))
]

-- What the loop over the providers leaves under a name: what was there, unless a provider has it.
abbrev after : Option Limiter → Option Limiter → Option ProviderConfig → Option Limiter
after new old none = new
after new old (some c) = made_for old (some c)

get-build_limiters_from :
    (limiters : Dict Limiter) (providers : Dict ProviderConfig) (new : Dict Limiter) (k : String)
    → IsUnique providers
    → ((c : ProviderConfig) → Dict.get providers k ≡ some c → Dict.get new k ≡ none)
    → Dict.get (build_limiters_from limiters providers new) k
      ≡ after (Dict.get new k) (Dict.get limiters k) (Dict.get providers k)
unfolding build_limiters_from
get-build_limiters_from limiters [] new k u fresh = rw get-empty refl
get-build_limiters_from limiters ((n, c) ∷ providers) new k u fresh = elim (Bool-cases (n == k)) [
  | inl same ↦
      let gone : Dict.get providers k ≡ none =
        subst (λ (i : String). Dict.get providers i ≡ none) ((eq_iff n k).0 same) u.0 in
      rw (
        get-build_limiters_from limiters providers (build_limiter limiters n c new) k u.1
            (λ d e. cc (gone, e)),
        gone,
        get-build_limiter limiters new n k c (λ e. fresh c (rw (get-cons, e))),
        get-cons,
        same,
      )
  | inr other ↦
      let kept : Dict.get (build_limiter limiters n c new) k ≡ Dict.get new k =
        rw (get-build_limiter limiters new n k c (λ e. cc (other, e)), other) in
      rw (
        get-build_limiters_from limiters providers (build_limiter limiters n c new) k u.1
            (λ d e. kept ∙ fresh d (rw (get-cons, other) e)),
        kept,
        get-cons,
        other,
      )
]

made_for-limiter_for :
    (old : Option Limiter) (o : Option ProviderConfig) → made_for old o ≡ limiter_for old o
unfolding new_limiter
made_for-limiter_for old none = refl
made_for-limiter_for old (some c) = by_limit c.rate_limit.rpm refl
  where
    by_limit :
        (rpm : Option ℤ) → c.rate_limit.rpm ≡ rpm → made_for old (some c) ≡ limiter_for old (some c)
    by_limit none e = rw e refl
    by_limit (some (negsuc n)) e = rw e refl
    by_limit (some (pos zero)) e = rw e refl
    by_limit (some (pos (suc n))) e = by_old old (ground arith)
      where
        by_old :
            (o : Option Limiter)
            → ltb 0 (suc n) ≡ true
            → made_for o (some c) ≡ limiter_for o (some c)
        by_old none given = rw (e, given) refl
        by_old (some l) given = elim (Bool-cases (nat_eq l.rpm (suc n))) [
          | inl same ↦ rw (e, given, same) refl
          | inr other ↦ rw (e, given, other) refl
        ]

-- After a start or a reload with providers of different names, a name has the limiter that its
-- provider is to have: none if no provider has the name or its limit is not positive, the one in
-- place (with its requests in the window, its waiting ones and its old size of the queue) if that
-- has the same limit, and otherwise a new one.
pub get-build_rate_limiters :
    (limiters : Dict Limiter) (providers : Dict ProviderConfig) (k : String)
    → IsUnique providers
    → Dict.get (build_rate_limiters limiters providers) k
      ≡ limiter_for (Dict.get limiters k) (Dict.get providers k)
unfolding build_rate_limiters
get-build_rate_limiters limiters providers k u =
    rw (get-build_limiters_from limiters providers [] k u (λ c e. get-empty k), get-empty)
      (after-none (Dict.get limiters k) (Dict.get providers k)
        ∙ made_for-limiter_for (Dict.get limiters k) (Dict.get providers k))
  where
    after-none :
        (old : Option Limiter) (o : Option ProviderConfig) → after none old o ≡ made_for old o
    after-none old none = refl
    after-none old (some c) = refl
