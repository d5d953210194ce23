-- ===== src/Loader/Hashed.antt =====
-- The keys of clients in a configuration that was loaded.
use ai_proxy.Common.{contains, false, ◌⊎◌, String, ◌≡◌, true, Option, some, All}
use ai_proxy.Dict
use ai_proxy.Dict.{Dict}
use ai_proxy.Json.{Json, JsonObject}
use ai_proxy.Config.{KeyMappingEntry}
use ai_proxy.Loader.{
  Libraries, expect_mapping, looks_like_hash, load_yaml, load_secrets, raw_key_mappings,
}

module _ (lib : Libraries) where
  -- A key that a raw key is stored under: the raw key itself, where it looks like a hash, else its hash.
  abbrev pub IsHashOf : JsonObject → String → Type 0
  IsHashOf raw key =
      (client_key : String) × (contains client_key (Dict.keys raw) ≡ true)
      × ((looks_like_hash client_key ≡ true) × (key ≡ client_key)
          ⊎ (looks_like_hash client_key ≡ false) × (key ≡ lib.hash_key client_key))

  -- The key mappings that the two files have, as they are read.
  pub record IsRead (config_path : String) (secrets_path : Option String) (key_data : JsonObject)
      : Type 0 where
    pub raw : JsonObject
    pub secrets : JsonObject
    pub config_file : load_yaml lib config_path ≡ some raw
    pub secrets_file : load_secrets lib secrets_path ≡ some secrets
    pub section : expect_mapping (some (raw_key_mappings lib raw secrets)) ≡ some key_data

  -- Every key of the mappings looks like a hash, and is that of a key in the files.
  pub record AreHashed (config_path : String) (secrets_path : Option String)
      (mappings : Dict KeyMappingEntry) : Type 0 where
    pub key_data : JsonObject
    pub read : IsRead config_path secrets_path key_data
    pub hashed :
        All (λ (k : String). (looks_like_hash k ≡ true) × IsHashOf key_data k) (Dict.keys mappings)
