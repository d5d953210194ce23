-- ===== src/LogRows/Stale.antt =====
-- What a batch that is not written leaves in the cache of the ids of providers.
use ai_proxy.Common.{
  ℕ, String, false, Option, none, some, [], ◌∷◌, ◌++◌, ◌==◌, ◌≡◌, refl, ap, ◌∙◌, eq_refl,
}
use ai_proxy.Dict
use ai_proxy.Dict.{Dict}
use ai_proxy.Dict.Laws.{get-set}
use ai_proxy.Config.{ProviderConfig}
use ai_proxy.LogEntry.{LogEntry}
use ai_proxy.LogRows.{
  Log, db_request, warm_provider_cache, uncached_names, warmed, provider_id_of, resolve_provider_id,
  add_request, add_requests, write_batch,
}

-- Nothing is read of a provider that the cache has.
warmed-cached :
    (log : Log) (entry : LogEntry) (name : String) (id : Option ℕ)
    → entry.provider_name ≡ some name
    → Dict.get log.provider_id_cache name ≡ some id
    → warmed log (entry ∷ []) ≡ log
unfolding warmed uncached_names warm_provider_cache
warmed-cached log entry name id e cached = rw (e, cached) refl

-- Nothing is kept of a provider that the table does not have.
warmed-missing :
    (log : Log) (entry : LogEntry) (name : String)
    → entry.provider_name ≡ some name
    → Dict.get log.provider_id_cache name ≡ none
    → Dict.get log.providers name ≡ none
    → warmed log (entry ∷ []) ≡ log
unfolding warmed uncached_names warm_provider_cache
warmed-missing log entry name e uncached missing = rw (e, uncached, missing) refl

module _ (configured : Dict ProviderConfig) (new_id : Dict ℕ → ℕ) where
  add_request-cached :
      (log : Log) (entry : LogEntry) (name : String) (id : Option ℕ)
      → (name == "") ≡ false
      → entry.provider_name ≡ some name
      → Dict.get log.provider_id_cache name ≡ some id
      → add_request configured new_id log entry
        ≡ record log { requests = log.requests ++ db_request entry id ∷ [] }
  unfolding add_request provider_id_of
  add_request-cached log entry name id named e cached = rw (e, named, cached) refl

  provider_id_of-missing :
      (log : Log) (name : String) (provider_config : ProviderConfig)
      → (name == "") ≡ false
      → Dict.get log.provider_id_cache name ≡ none
      → Dict.get log.providers name ≡ none
      → Dict.get configured name ≡ some provider_config
      → (provider_id_of configured new_id log (some name)).0.provider_id_cache
        ≡ Dict.set log.provider_id_cache name (some (new_id log.providers))
  unfolding provider_id_of resolve_provider_id
  provider_id_of-missing log name provider_config named uncached missing known =
      rw (named, uncached, resolve_provider_id, uncached, missing, known) refl

  add_request-missing :
      (log : Log) (entry : LogEntry) (name : String) (provider_config : ProviderConfig)
      → (name == "") ≡ false
      → entry.provider_name ≡ some name
      → Dict.get log.provider_id_cache name ≡ none
      → Dict.get log.providers name ≡ none
      → Dict.get configured name ≡ some provider_config
      → (add_request configured new_id log entry).provider_id_cache
        ≡ Dict.set log.provider_id_cache name (some (new_id log.providers))
  unfolding add_request
  add_request-missing log entry name provider_config named e uncached missing known =
      ap (λ pn. (provider_id_of configured new_id log pn).0.provider_id_cache) e
      ∙ provider_id_of-missing log name provider_config named uncached missing known

module _ (configured : Dict ProviderConfig) (new_id : Dict ℕ → ℕ) (log : Log) (name : String) where
  -- The first batch of a new provider, whose session raises after the entry was added.
  abbrev pub failed_batch : LogEntry → Log
  failed_batch entry = write_batch configured new_id (some 1) log (entry ∷ [])

  module _ (named : (name == "") ≡ false) (uncached : Dict.get log.provider_id_cache name ≡ none)
      (missing : Dict.get log.providers name ≡ none) (provider_config : ProviderConfig)
      (known : Dict.get configured name ≡ some provider_config) where
    failed_batch-state :
        (entry : LogEntry)
        → entry.provider_name ≡ some name
        → failed_batch entry ≡ record log {
          provider_id_cache = Dict.set log.provider_id_cache name (some (new_id log.providers));
        }
    unfolding write_batch add_requests
    failed_batch-state entry e = rw (warmed-missing log entry name e uncached missing) (
        ap (λ (cache : Dict (Option ℕ)). record log { provider_id_cache = cache })
          (add_request-missing configured new_id log entry name provider_config named e uncached
            missing known))

    -- A batch with a configured provider that is new to the table, whose session raises after its first
    -- entry was added, leaves an id for the provider in the cache, but not in the table. The row of
    -- the next entry of the provider has this id, and the table does not get the provider.
    pub write_batch-stale :
        (entry again : LogEntry)
        → entry.provider_name ≡ some name
        → again.provider_name ≡ some name
        → ((write_batch configured new_id none (failed_batch entry) (again ∷ [])).requests
            ≡ log.requests ++ db_request again (some (new_id log.providers)) ∷ [])
          × (Dict.get
                (write_batch configured new_id none (failed_batch entry) (again ∷ [])).providers
                name
              ≡ none)
    unfolding write_batch add_requests
    write_batch-stale entry again e a =
        let stale : Log = record log {
          provider_id_cache = Dict.set log.provider_id_cache name (some (new_id log.providers));
        } in
        let id = some (new_id log.providers) in
        let cached : Dict.get stale.provider_id_cache name ≡ some id =
          rw (get-set, eq_refl name) refl in
        let written : write_batch configured new_id none (failed_batch entry) (again ∷ [])
            ≡ record stale { requests = log.requests ++ db_request again id ∷ [] } =
          ap (λ (l : Log). write_batch configured new_id none l (again ∷ []))
            (failed_batch-state entry e)
          ∙ ap (λ (l : Log). add_request configured new_id l again)
              (warmed-cached stale again name id a cached)
          ∙ add_request-cached configured new_id stale again name id named a cached in
        (
          ap (λ (l : Log). l.requests) written,
          ap (λ (l : Log). Dict.get l.providers name) written ∙ missing,
        )
