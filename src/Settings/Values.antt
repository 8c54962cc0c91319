-- ===== src/Settings/Values.antt =====
-- setting_manager: what a caller is given for each kind of key after a JSON text was read.
use Prim.Native.String.{String}
use t2h.Common.{
  ℕ, suc, Bool, true, false, All, List, [], ◌∷◌, Option, none, some, Bytes, codes, str_eq, find,
  assign, if◌then◌else◌, ◌≡◌, refl, ap, ◌∙◌, arith, Option-cases, List-cases, inl, inr,
}
use t2h.Settings.{
  BaseKey, Keys, no_keys, init_keys_storage, set_key, fill_config, SettingManager, Json, members,
  init_config, is_empty, config_is_well, Setting, text, no_default_value,
  panic_if_default_value_not_exists, get_value_unsafe, get_value,
}

-- A text that was set, and another one where it is empty or was not set.
abbrev pub value_or : Option Bytes → Setting → Setting
value_or none d = d
value_or (some []) d = d
value_or (some (c ∷ v)) d = text (c ∷ v)

find-fill_config :
    (json : Bytes → Option Bytes) (m : Keys) (name : Bytes) (key : BaseKey)
    → find str_eq name m ≡ some key
    → find str_eq name (fill_config json m) ≡ some (set_key json key)
unfolding find fill_config
find-fill_config json [] name key e = cc
find-fill_config json ((j, k) ∷ m) name key e = ground (arith, find-fill_config json m name key)

own_value :
    (fuel : ℕ) (json : Bytes → Option Bytes) (m : Keys) (name : Bytes) (key : BaseKey)
    → find str_eq name m ≡ some key
    → get_value_unsafe (suc fuel) (fill_config json m) name
      ≡ value_or (json key.name) (
          if is_empty key.key_replacement_name
          then panic_if_default_value_not_exists key
          else get_value_unsafe fuel (fill_config json m) key.key_replacement_name)
unfolding get_value_unsafe set_key is_empty panic_if_default_value_not_exists
own_value fuel json m name key e = elim (Option-cases (json key.name)) [
  | inl f ↦ rw (find-fill_config json m name key e, get_value_unsafe, f, set_key) refl
  | inr (v, f) ↦ elim (List-cases v) [
    | inl g ↦ rw (find-fill_config json m name key e, get_value_unsafe, f, set_key, g) refl
    | inr (c, (cs, g)) ↦
        rw (find-fill_config json m name key e, get_value_unsafe, f, set_key, g) refl
  ]
]

-- The keys that have no default, and those that have one, with it.
abbrev pub required_keys : List String
required_keys = "doc_root" ∷ "server_addr" ∷ "tc_port_start" ∷ "tc_port_end" ∷ []

abbrev pub defaults : List (String × String)
defaults =
    ("workers", "20")
    ∷ ("server_port", "8080")
    ∷ ("cores_sync_timeout", "360")
    ∷ ("hc_max_chunk_size", "1024000")
    ∷ ("hc_chunked", "true")
    ∷ ("tc_max_alert_wait_time", "15")
    ∷ ("tc_max_partial_download_size", "22242880")
    ∷ ("tc_futures_timeout", "10")
    ∷ ("tc_partial_files_download", "true")
    ∷ ("tc_max_connections_per_torrent", "50")
    ∷ ("tc_max_uploads", "-1")
    ∷ ("tc_upload_limit", "0")
    ∷ ("tc_download_limit", "0")
    ∷ ("tc_sequential_download", "true")
    ∷ ("tc_resolve_countries", "true")
    ∷ ("tc_resolve_checkout", "6")
    ∷ ("tc_auto_error_resolving", "true")
    ∷ ("tc_loadable_session", "true")
    ∷ []

abbrev key_of : String → String → String → Bool → BaseKey
key_of name default_value replacement req = record {
  name = codes name;
  value = [];
  key_replacement_name = codes replacement;
  default_value = codes default_value;
  req = req;
}

-- After a text was read without an error: `tc_root` is what the text sets, else `doc_root`; each of the
-- keys with a default is what the text sets, else the default that the list above gives it; each of
-- the four keys without one is what the text sets, and an exception where it does not, although the
-- text was read without an error. An empty text counts as not set. Two steps of fuel are enough.
pub get_value_lem :
    (fuel : ℕ) (read_json : Bytes → Json) (s : SettingManager) (c : ℕ) (json : Bytes)
    (m : Bytes → Option Bytes)
    → read_json (c ∷ json) ≡ members m
    → let t = init_config read_json s (c ∷ json) in
      (config_is_well t ≡ true)
      × ((get_value (suc (suc fuel)) t (codes "tc_root")
            ≡ value_or (m (codes "tc_root")) (value_or (m (codes "doc_root")) no_default_value))
          × (All
                (λ name.
                  get_value (suc (suc fuel)) t (codes name)
                  ≡ value_or (m (codes name)) no_default_value)
                required_keys
              × All
                  (λ key.
                    get_value (suc (suc fuel)) t (codes key.0)
                    ≡ value_or (m (codes key.0)) (text (codes key.1)))
                  defaults))
unfolding init_config get_value config_is_well is_empty panic_if_default_value_not_exists find
    assign str_eq
get_value_lem fuel read_json s c json m e =
    rw (e, init_config)
      (
        refl,
        (
          own_value (suc fuel) m (init_keys_storage no_keys) (codes "tc_root")
                (key_of "tc_root" "" "doc_root" false) refl
              ∙ ap (value_or (m (codes "tc_root"))) (read fuel "doc_root" "" true refl),
          (
            (
              read (suc fuel) "doc_root" "" true refl,
              (
                read (suc fuel) "server_addr" "" true refl,
                (
                  read (suc fuel) "tc_port_start" "" true refl,
                  (read (suc fuel) "tc_port_end" "" true refl, tt),
                ),
              ),
            ),
            (
              read (suc fuel) "workers" "20" false refl,
              (
                read (suc fuel) "server_port" "8080" false refl,
                (
                  read (suc fuel) "cores_sync_timeout" "360" false refl,
                  (
                    read (suc fuel) "hc_max_chunk_size" "1024000" false refl,
                    (
                      read (suc fuel) "hc_chunked" "true" false refl,
                      (
                        read (suc fuel) "tc_max_alert_wait_time" "15" false refl,
                        (
                          read (suc fuel) "tc_max_partial_download_size" "22242880" false refl,
                          (
                            read (suc fuel) "tc_futures_timeout" "10" false refl,
                            (
                              read (suc fuel) "tc_partial_files_download" "true" false refl,
                              (
                                read (suc fuel) "tc_max_connections_per_torrent" "50" false refl,
                                (
                                  read (suc fuel) "tc_max_uploads" "-1" false refl,
                                  (
                                    read (suc fuel) "tc_upload_limit" "0" false refl,
                                    (
                                      read (suc fuel) "tc_download_limit" "0" false refl,
                                      (
                                        read (suc fuel) "tc_sequential_download" "true" false refl,
                                        (
                                          read (suc fuel) "tc_resolve_countries" "true" false refl,
                                          (
                                            read (suc fuel) "tc_resolve_checkout" "6" false refl,
                                            (
                                              read (suc fuel) "tc_auto_error_resolving" "true" false
                                                  refl,
                                              (
                                                read (suc fuel) "tc_loadable_session" "true" false
                                                    refl,
                                                tt,
                                              ),
                                            ),
                                          ),
                                        ),
                                      ),
                                    ),
                                  ),
                                ),
                              ),
                            ),
                          ),
                        ),
                      ),
                    ),
                  ),
                ),
              ),
            ),
          ),
        ),
      )
  where
    read :
        (f : ℕ) (name default_value : String) (req : Bool)
        → find str_eq (codes name) (init_keys_storage no_keys)
          ≡ some (key_of name default_value "" req)
        → get_value_unsafe (suc f) (fill_config m (init_keys_storage no_keys)) (codes name)
          ≡ value_or
              (m (codes name))
              (panic_if_default_value_not_exists (key_of name default_value "" req))
    read f name default_value req h =
        own_value f m (init_keys_storage no_keys) (codes name) (key_of name default_value "" req) h
