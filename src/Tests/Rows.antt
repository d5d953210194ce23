-- ===== src/Tests/Rows.antt =====
-- The theorems on the rows of the log at an entry of a provider that is new to the table.
use ai_proxy.Common.{ℕ, none, some, [], ◌∷◌, ◌≡◌, refl}
use ai_proxy.Dict
use ai_proxy.Dict.{Dict}
use ai_proxy.Json.{null}
use ai_proxy.Handlers.{context}
use ai_proxy.LogEntry.{LogEntry, log_entry}
use ai_proxy.LogRows.{Log, db_request, write_batch}
use ai_proxy.LogRows.Coherent.{IsCoherent}
use ai_proxy.LogRows.Stored.{IsWritten, write_batch-IsWritten}
use ai_proxy.LogRows.Stale.{failed_batch, write_batch-stale}
use ai_proxy.Tests.{router, config}
use ai_proxy.Tests.Responses.{call}

abbrev logged : LogEntry
logged = log_entry (context call) null null none none none

abbrev new_log : Log
new_log = record { provider_id_cache = []; providers = []; requests = [] }

abbrev new_id : Dict ℕ → ℕ
new_id providers = 1

new_log-IsCoherent : IsCoherent config.providers new_log.provider_id_cache new_log.providers
unfolding Dict.get
new_log-IsCoherent = record { ids = λ name id h. absurd (cc); absent = λ name h. absurd (cc) }

write_batch-IsWritten_example :
    IsWritten config.providers new_id new_log
      (logged ∷ [])
      (write_batch config.providers new_id none new_log (logged ∷ []))
write_batch-IsWritten_example =
    write_batch-IsWritten config.providers new_id new_log (logged ∷ []) new_log-IsCoherent

write_batch-stale_example :
    ((write_batch config.providers new_id none
        (failed_batch config.providers new_id new_log "router" logged)
        (logged ∷ [])).requests
      ≡ db_request logged (some 1) ∷ [])
    × (Dict.get
          (write_batch config.providers new_id none
            (failed_batch config.providers new_id new_log "router" logged)
            (logged ∷ [])).providers
          "router"
        ≡ none)
unfolding Dict.get context ai_proxy.Routing.route_result
write_batch-stale_example =
    write_batch-stale config.providers new_id new_log "router" refl refl refl router refl logged
      logged refl refl
