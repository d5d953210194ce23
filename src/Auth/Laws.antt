-- ===== src/Auth/Laws.antt =====
-- Who is let in, who counts as known, and whose key may leave the proxy.
use ai_proxy.Common.{String, ◌≡◌, ◌↔◌, ◌⊎◌, Bool, true, false, Option, none, some, List, [], arith}
use ai_proxy.Auth.{validate_proxy_api_key, is_configured}

module _ (hash : String → String) where
  -- Who is let in: a configured key; with the bypass every key that is sent, and without it every
  -- request where no key is configured.
  abbrev pub IsAdmitted : List String → Option String → Bool → Type 0
  IsAdmitted keys none bypass = (bypass ≡ false) × (keys ≡ [])
  IsAdmitted keys (some k) bypass =
      (is_configured hash keys (hash k) ≡ true) ⊎ (bypass ≡ true) ⊎ (keys ≡ [])

  -- A request is valid exactly when it has a configured key, or has any key while the bypass is
  -- on or no key is configured, or has no key while the bypass is off and no key is configured.
  pub validate_proxy_api_key_iff :
      (keys : List String) (api_key : Option String) (bypass : Bool)
      → ((validate_proxy_api_key hash keys api_key bypass).0 ≡ true)
        ↔ IsAdmitted keys api_key bypass
  unfolding validate_proxy_api_key
  validate_proxy_api_key_iff keys none bypass = ground arith
  validate_proxy_api_key_iff keys (some k) bypass = ground arith
