-- ===== src/LogRows/Stored.antt =====
-- What is stored of a batch.
use mathlib.Core.List.{append_assoc, append-nil}
use ai_proxy.Common.{
  ℕ, String, true, Option, none, some, List, [], ◌∷◌, ◌++◌, ◌==◌, ◌≡◌, refl, sym, ap, ◌∙◌,
  Bool-cases, eq_iff, ◌⊎◌, inl, inr,
}
use ai_proxy.Dict.{Dict}
use ai_proxy.Json.{JsonObject, null, object}
use ai_proxy.Config.{ProviderConfig}
use ai_proxy.LogEntry.{LogEntry}
use ai_proxy.Masking.{is_sensitive, mask_headers, mask_sensitive_fields}
use ai_proxy.Masking.Laws.{
  IsMasked, IsMaskedText, mask_api_key-IsMaskedText, mask_sensitive_fields-IsMasked,
}
use ai_proxy.LogRows.{
  StoredRequest, headers_or_none, masked_body, db_request, Log, uncached_names, provider_id_of,
  add_request, add_requests, warmed, write_batch,
}
use ai_proxy.LogRows.Coherent.{
  Extends, IsCoherent, Refers, Refers-Extends, warm_provider_cache-IsCoherent,
  provider_id_of-IsFound,
}

-- The headers with a sensitive name are masked, or empty.
abbrev pub HeadersMasked : Dict String → Type 0
HeadersMasked [] = Unit
HeadersMasked ((k, v) ∷ headers) =
    (is_sensitive k ≡ true → (v ≡ "") ⊎ IsMaskedText v) × HeadersMasked headers

abbrev pub OptionMasked : Option (Dict String) → Type 0
OptionMasked none = Unit
OptionMasked (some headers) = HeadersMasked headers

mask_headers-HeadersMasked : (headers : Dict String) → HeadersMasked (mask_headers headers)
unfolding mask_headers
mask_headers-HeadersMasked [] = tt
mask_headers-HeadersMasked ((k, v) ∷ headers) = (
  λ secret. rw secret (elim (Bool-cases (v == "")) [
    | inl empty ↦ rw empty (inl ((eq_iff v "").0 empty))
    | inr filled ↦ rw filled (inr (mask_api_key-IsMaskedText v))
  ]),
  mask_headers-HeadersMasked headers,
)

headers_or_none-OptionMasked :
    (headers : Option (Dict String)) → OptionMasked (headers_or_none headers)
unfolding headers_or_none
headers_or_none-OptionMasked none = tt
headers_or_none-OptionMasked (some []) = tt
headers_or_none-OptionMasked (some (h ∷ headers)) = mask_headers-HeadersMasked (h ∷ headers)

masked_body-IsMasked : (body : Option JsonObject) → IsMasked (masked_body body)
unfolding masked_body mask_sensitive_fields
masked_body-IsMasked none = mask_sensitive_fields-IsMasked null
masked_body-IsMasked (some body) = mask_sensitive_fields-IsMasked (object body)

module _ (configured : Dict ProviderConfig) where
  -- The row of an entry: its parsed bodies of requests and its headers are masked, its raw bodies are
  -- those of the entry as they are, and it refers to the entry's provider.
  pub record IsStored (providers : Dict ℕ) (entry : LogEntry) (row : StoredRequest) : Type 0 where
    pub id : row.id ≡ entry.id
    pub refers : Refers configured providers entry.provider_name row.provider_id
    pub bodies : IsMasked row.request_body × IsMasked row.client_request_body
    pub raw_bodies :
        (row.request_body_raw ≡ entry.request_body_raw)
        × (row.client_request_body_raw ≡ entry.client_request_body_raw)
    pub headers :
        OptionMasked row.request_headers
        × OptionMasked row.client_request_headers
        × OptionMasked row.response_headers
        × OptionMasked row.client_response_headers

  -- One row for each entry, in their order.
  abbrev pub AreStored : Dict ℕ → List LogEntry → List StoredRequest → Type 0
  AreStored providers [] [] = Unit
  AreStored providers (entry ∷ entries) (row ∷ rows) =
      IsStored providers entry row × AreStored providers entries rows
  AreStored providers _ _ = ⊥

  db_request-IsStored :
      (providers : Dict ℕ) (entry : LogEntry) (provider_id : Option ℕ)
      → Refers configured providers entry.provider_name provider_id
      → IsStored providers entry (db_request entry provider_id)
  unfolding db_request
  db_request-IsStored providers entry provider_id r = record {
    id = refl;
    refers = r;
    bodies = (masked_body-IsMasked _, masked_body-IsMasked _);
    raw_bodies = (refl, refl);
    headers = (
      headers_or_none-OptionMasked _,
      headers_or_none-OptionMasked _,
      headers_or_none-OptionMasked _,
      headers_or_none-OptionMasked _,
    );
  }

  module _ (new_id : Dict ℕ → ℕ) where
    pub record IsWritten (log : Log) (entries : List LogEntry) (after : Log) : Type 0 where
      pub rows : List StoredRequest
      pub requests : after.requests ≡ log.requests ++ rows
      pub stored : AreStored after.providers entries rows
      pub extends : Extends log.providers after.providers
      pub coherent : IsCoherent configured after.provider_id_cache after.providers

    add_requests-IsWritten :
        (log : Log) (entries : List LogEntry)
        → IsCoherent configured log.provider_id_cache log.providers
        → IsWritten log entries (add_requests configured new_id log entries)
    unfolding add_requests add_request
    add_requests-IsWritten log [] c = record {
      rows = [];
      requests = sym (append-nil log.requests);
      stored = tt;
      extends = λ k i e. e;
      coherent = c;
    }
    add_requests-IsWritten log (entry ∷ entries) c =
        let found = provider_id_of-IsFound configured new_id log entry.provider_name c in
        let (log', provider_id) = provider_id_of configured new_id log entry.provider_name in
        let row = db_request entry provider_id in
        let rest =
          add_requests-IsWritten (record log' { requests = log'.requests ++ row ∷ [] }) entries
            found.coherent in
        record {
          rows = row ∷ rest.rows;
          requests =
              rest.requests
              ∙ ap (λ rs. (rs ++ row ∷ []) ++ rest.rows) found.requests
              ∙ append_assoc log.requests (row ∷ []) rest.rows;
          stored = (
            db_request-IsStored _ entry provider_id
                (Refers-Extends configured _ _ _ _ rest.extends found.refers),
            rest.stored,
          );
          extends = λ k i e. rest.extends k i (found.extends k i e);
          coherent = rest.coherent;
        }

    -- A batch that is written where the cache agrees with the table of providers adds a row for each
    -- entry, in their order. A row refers to the provider of its entry, which the table has if it is
    -- configured; its headers and the parsed bodies of the requests are masked, and the raw bodies of
    -- the requests are stored as they are, unmasked. The table keeps its ids, and the cache agrees
    -- with it again.
    pub write_batch-IsWritten :
        (log : Log) (entries : List LogEntry)
        → IsCoherent configured log.provider_id_cache log.providers
        → IsWritten log entries (write_batch configured new_id none log entries)
    unfolding write_batch warmed
    write_batch-IsWritten log entries c =
        let after = add_requests-IsWritten (warmed log entries) entries (
          warm_provider_cache-IsCoherent configured _ (uncached_names log.provider_id_cache entries)
            _ c) in
        record {
          rows = after.rows;
          requests = after.requests;
          stored = after.stored;
          extends = after.extends;
          coherent = after.coherent;
        }
