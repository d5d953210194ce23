-- ===== src/LogRows/Coherent.antt =====
-- The cache of the ids of providers agrees with the table of providers.
use mathlib.Core.Path.{subst}
use ai_proxy.Common.{
  ℕ, String, false, Option, none, some, List, [], ◌∷◌, ◌==◌, ◌≡◌, refl, ◌∙◌, Bool-cases,
  Option-cases, eq_iff, some-injective, eq_refl, inl, inr,
}
use ai_proxy.Dict
use ai_proxy.Dict.{Dict}
use ai_proxy.Dict.Laws.{get-set}
use ai_proxy.Config.{ProviderConfig}
use ai_proxy.LogRows.{
  Log, keep_id, warm_provider_cache, remember, add_provider, resolve_provider_id, provider_id_of,
}

-- The table keeps the ids that it has.
abbrev pub Extends : Dict ℕ → Dict ℕ → Type 0
Extends providers providers' =
    (name : String) (id : ℕ)
    → Dict.get providers name ≡ some id
    → Dict.get providers' name ≡ some id

module _ (configured : Dict ProviderConfig) where
  -- The cache has the ids of the table, and a name that it has without one is not configured.
  pub record IsCoherent (cache : Dict (Option ℕ)) (providers : Dict ℕ) : Type 0 where
    pub ids :
        (name : String) (id : ℕ)
        → Dict.get cache name ≡ some (some id)
        → Dict.get providers name ≡ some id
    pub absent : (name : String) → Dict.get cache name ≡ some none → Dict.get configured name ≡ none

  -- The id that is stored is that of the entry's provider in the table, and it is there where the
  -- provider is configured.
  pub record Refers (providers : Dict ℕ) (provider_name : Option String) (provider_id : Option ℕ)
      : Type 0 where
    pub right :
        (id : ℕ)
        → provider_id ≡ some id
        → (name : String) × (provider_name ≡ some name) × (Dict.get providers name ≡ some id)
    pub given :
        (name : String) (provider_config : ProviderConfig)
        → provider_name ≡ some name
        → (name == "") ≡ false
        → Dict.get configured name ≡ some provider_config
        → (id : ℕ) × (provider_id ≡ some id)

  set-IsCoherent :
      (cache : Dict (Option ℕ)) (providers : Dict ℕ) (name : String) (id : Option ℕ)
      → ((i : ℕ) → id ≡ some i → Dict.get providers name ≡ some i)
      → (id ≡ none → Dict.get configured name ≡ none)
      → IsCoherent cache providers
      → IsCoherent (Dict.set cache name id) providers
  set-IsCoherent cache providers name id f g c = record {
    ids = λ k i h. elim (Bool-cases (name == k)) [
      | inl same ↦
          subst (λ n. Dict.get providers n ≡ some i) ((eq_iff name k).0 same)
            (f i (some-injective (rw (get-set, same) at h)))
      | inr other ↦ c.ids k i (rw (get-set, other) at h)
    ];
    absent = λ k h. elim (Bool-cases (name == k)) [
      | inl same ↦
          subst (λ n. Dict.get configured n ≡ none) ((eq_iff name k).0 same)
            (g (some-injective (rw (get-set, same) at h)))
      | inr other ↦ c.absent k (rw (get-set, other) at h)
    ];
  }

  pub Refers-Extends :
      (providers providers' : Dict ℕ) (provider_name : Option String) (provider_id : Option ℕ)
      → Extends providers providers'
      → Refers providers provider_name provider_id
      → Refers providers' provider_name provider_id
  Refers-Extends providers providers' provider_name provider_id x r = record {
    right = λ i e. let (name, named, found) = r.right i e in (name, named, x name i found);
    given = r.given;
  }

  keep_id-IsCoherent :
      (cache : Dict (Option ℕ)) (providers : Dict ℕ) (name : String)
      → IsCoherent cache providers
      → IsCoherent (keep_id cache name (Dict.get providers name)) providers
  keep_id-IsCoherent cache providers name c = elim (Option-cases (Dict.get providers name)) [
    | inl missing ↦ rw missing c
    | inr (id, found) ↦
        rw found
          (set-IsCoherent cache providers name (some id) (λ i h. found ∙ h) (λ h. absurd (cc)) c)
  ]

  pub warm_provider_cache-IsCoherent :
      (providers : Dict ℕ) (names : List String) (cache : Dict (Option ℕ))
      → IsCoherent cache providers
      → IsCoherent (warm_provider_cache providers names cache) providers
  unfolding warm_provider_cache
  warm_provider_cache-IsCoherent providers [] cache c = c
  warm_provider_cache-IsCoherent providers (name ∷ names) cache c =
      warm_provider_cache-IsCoherent providers names _ (keep_id-IsCoherent cache providers name c)

  module _ (new_id : Dict ℕ → ℕ) where
    -- What a step that looks for the provider of an entry leaves.
    pub record IsFound (log : Log) (provider_name : Option String) (found : Log × Option ℕ)
        : Type 0 where
      pub coherent : IsCoherent found.0.provider_id_cache found.0.providers
      pub extends : Extends log.providers found.0.providers
      pub requests : found.0.requests ≡ log.requests
      pub refers : Refers found.0.providers provider_name found.1

    some-Refers :
        (providers : Dict ℕ) (name : String) (id : ℕ)
        → Dict.get providers name ≡ some id
        → Refers providers (some name) (some id)
    some-Refers providers name id h = record {
      right = λ i e. (name, refl, h ∙ e);
      given = λ n p e m k. (id, refl);
    }

    none-Refers :
        (providers : Dict ℕ) (name : String)
        → Dict.get configured name ≡ none
        → Refers providers (some name) none
    none-Refers providers name h = record {
      right = λ i e. absurd (cc);
      given = λ n p e m k. absurd (cc);
    }

    IsFound-again :
        (log : Log) (name : String) (id : ℕ)
        → IsCoherent log.provider_id_cache log.providers
        → Dict.get log.providers name ≡ some id
        → IsFound log (some name) (remember log name (some id))
    IsFound-again log name id c h = record {
      coherent = set-IsCoherent _ _ name (some id) (λ i e. h ∙ e) (λ e. absurd (cc)) c;
      extends = λ k i e. e;
      requests = refl;
      refers = some-Refers _ name id h;
    }

    set-Extends :
        (providers : Dict ℕ) (name : String) (id : ℕ)
        → Dict.get providers name ≡ none
        → Extends providers (Dict.set providers name id)
    set-Extends providers name id missing k i h = elim (Bool-cases (name == k)) [
      | inl same ↦ let e = (eq_iff name k).0 same in absurd (cc)
      | inr other ↦ rw (get-set, other) h
    ]

    get-set-same :
        (providers : Dict ℕ) (name : String) (id : ℕ)
        → Dict.get (Dict.set providers name id) name ≡ some id
    get-set-same providers name id = rw (get-set, eq_refl name) refl

    added-IsFound :
        (log : Log) (name : String) (o : Option ProviderConfig)
        → IsCoherent log.provider_id_cache log.providers
        → Dict.get log.providers name ≡ none
        → Dict.get configured name ≡ o
        → IsFound log (some name) (add_provider configured new_id log name o)
    added-IsFound log name none c missing h = record {
      coherent = set-IsCoherent _ _ name none (λ i e. absurd (cc)) (λ e. h) c;
      extends = λ k i e. e;
      requests = refl;
      refers = none-Refers _ name h;
    }
    added-IsFound log name (some p) c missing h =
        let id = new_id log.providers in
        let stays = set-Extends log.providers name id missing in
        let here = get-set-same log.providers name id in
        record {
          coherent =
              set-IsCoherent _ _ name (some id) (λ i e. here ∙ e) (λ e. absurd (cc))
                (record { ids = λ k i e. stays k i (c.ids k i e); absent = c.absent });
          extends = stays;
          requests = refl;
          refers = some-Refers _ name id here;
        }

    resolve_provider_id-IsFound :
        (log : Log) (name : String)
        → IsCoherent log.provider_id_cache log.providers
        → Dict.get log.provider_id_cache name ≡ none
        → IsFound log (some name) (resolve_provider_id configured new_id log name)
    unfolding resolve_provider_id
    resolve_provider_id-IsFound log name c uncached =
        rw (resolve_provider_id, uncached)
          (elim (Option-cases (Dict.get log.providers name)) [
            | inl missing ↦ rw missing (added-IsFound log name _ c missing refl)
            | inr (id, found) ↦ rw found (IsFound-again log name id c found)
          ])

    kept-IsFound :
        (log : Log) (provider_name : Option String) (id : Option ℕ)
        → IsCoherent log.provider_id_cache log.providers
        → Refers log.providers provider_name id
        → IsFound log provider_name (log, id)
    kept-IsFound log provider_name id c r = record {
      coherent = c;
      extends = λ k i e. e;
      requests = refl;
      refers = r;
    }

    cached-Refers :
        (log : Log) (name : String) (id : Option ℕ)
        → IsCoherent log.provider_id_cache log.providers
        → Dict.get log.provider_id_cache name ≡ some id
        → Refers log.providers (some name) id
    cached-Refers log name none c h = none-Refers _ name (c.absent name h)
    cached-Refers log name (some id) c h = some-Refers _ name id (c.ids name id h)

    pub provider_id_of-IsFound :
        (log : Log) (provider_name : Option String)
        → IsCoherent log.provider_id_cache log.providers
        → IsFound log provider_name (provider_id_of configured new_id log provider_name)
    unfolding provider_id_of
    provider_id_of-IsFound log none c =
        kept-IsFound log none none c
          (record { right = λ i e. absurd (cc); given = λ n p e m k. absurd (cc) })
    provider_id_of-IsFound log (some name) c = elim (Bool-cases (name == "")) [
      | inl empty ↦ rw empty (
          kept-IsFound log (some name) none c
            (record { right = λ i e. absurd (cc); given = λ n p e m k. absurd (cc) }))
      | inr named ↦ rw named (elim (Option-cases (Dict.get log.provider_id_cache name)) [
        | inl uncached ↦ rw uncached (resolve_provider_id-IsFound log name c uncached)
        | inr (id, cached) ↦
            rw cached (kept-IsFound log (some name) id c (cached-Refers log name id c cached))
      ])
    ]
