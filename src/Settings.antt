-- ===== src/Settings.antt =====
-- src/core/common/setting_manager.cpp and setting_manager.hpp, with src/common/utility/factory.hpp:
-- the table of the keys that the program knows, what a JSON text sets of them and what a caller is
-- given.
mod Values
mod Tests
use Prim.Native.String.{String}
use t2h.Common.{
  ℕ, zero, suc, Bool, true, false, List, [], ◌∷◌, ◌++◌, Option, none, some, Bytes, codes, str_eq,
  find, assign, if◌then◌else◌,
}

-- t2h_core_details::base_key
pub record BaseKey : Type 0 where
  pub name : Bytes
  pub value : Bytes
  pub key_replacement_name : Bytes
  pub default_value : Bytes
  pub req : Bool

abbrev pub Keys : Type 0
Keys = List (Bytes × BaseKey)

-- factory::reg: a name that is there keeps what it has.
unfoldable pub reg : Bytes → BaseKey → Keys → Keys
reg name key m = elim (find str_eq name m) [ none ↦ assign str_eq name key m | some k ↦ m ]

-- ADD_KEY_TYPE, and the registration of the key under its own name.
unfoldable pub add_key : String → String → String → Bool → Keys → Keys
unfolding reg
add_key name default_value replacement req m =
    reg (codes name)
      (record {
        name = codes name;
        value = [];
        key_replacement_name = codes replacement;
        default_value = codes default_value;
        req = req;
      })
      m

unfoldable pub init_keys_storage : Keys → Keys
unfolding add_key
init_keys_storage m0 =
    let m1 = add_key "workers" "20" "" false m0 in
    let m2 = add_key "doc_root" "" "" true m1 in
    let m3 = add_key "server_addr" "" "" true m2 in
    let m4 = add_key "server_port" "8080" "" false m3 in
    let m5 = add_key "cores_sync_timeout" "360" "" false m4 in
    let m6 = add_key "hc_max_chunk_size" "1024000" "" false m5 in
    let m7 = add_key "hc_chunked" "true" "" false m6 in
    let m8 = add_key "tc_port_start" "" "" true m7 in
    let m9 = add_key "tc_port_end" "" "" true m8 in
    let m10 = add_key "tc_max_alert_wait_time" "15" "" false m9 in
    let m11 = add_key "tc_max_partial_download_size" "22242880" "" false m10 in
    let m12 = add_key "tc_root" "" "doc_root" false m11 in
    let m13 = add_key "tc_futures_timeout" "10" "" false m12 in
    let m14 = add_key "tc_partial_files_download" "true" "" false m13 in
    let m15 = add_key "tc_max_connections_per_torrent" "50" "" false m14 in
    let m16 = add_key "tc_max_uploads" "-1" "" false m15 in
    let m17 = add_key "tc_upload_limit" "0" "" false m16 in
    let m18 = add_key "tc_download_limit" "0" "" false m17 in
    let m19 = add_key "tc_sequential_download" "true" "" false m18 in
    let m20 = add_key "tc_resolve_countries" "true" "" false m19 in
    let m21 = add_key "tc_resolve_checkout" "6" "" false m20 in
    let m22 = add_key "tc_auto_error_resolving" "true" "" false m21 in
    add_key "tc_loadable_session" "true" "" false m22

abbrev pub no_keys : Keys
no_keys = []

-- set_key over the whole storage, for a JSON text whose member of a name is `json`; a member that is
-- not there throws ptree_bad_path, and the value is cleared.
unfoldable pub set_key : (Bytes → Option Bytes) → BaseKey → BaseKey
set_key json key = elim (json key.name) [
  | none ↦ record key { value = [] }
  | some v ↦ record key { value = v }
]

unfoldable pub fill_config : (Bytes → Option Bytes) → Keys → Keys
fill_config json [] = []
fill_config json ((name, key) ∷ m) = (name, set_key json key) ∷ fill_config json m

-- setting_manager, with `none` for a storage that was never made. A message stands for `last_error_`.
pub record SettingManager : Type 0 where
  pub key_storage : Option Keys
  pub last_error : Bytes

-- `read_json` is property_tree's: the message of its exception, or the members.
pub data Json : Type 0 where
  malformed : Bytes → Json
  members : (Bytes → Option Bytes) → Json

-- A storage that is filled, or left with its defaults and the message of the parser.
unfoldable pub configured : Json → SettingManager
unfolding init_keys_storage
configured (malformed what) = record {
  key_storage = some (init_keys_storage no_keys);
  last_error = what;
}
configured (members m) = record {
  key_storage = some (fill_config m (init_keys_storage no_keys));
  last_error = [];
}

unfoldable pub init_config : (Bytes → Json) → SettingManager → Bytes → SettingManager
unfolding configured init_keys_storage
init_config read_json s [] = record {
  key_storage = some (init_keys_storage no_keys);
  last_error = codes "bad json passed";
}
init_config read_json s (c ∷ json) = configured (read_json (c ∷ json))

-- `read_json_file` is what reading the file at the path as JSON gives.
unfoldable pub load_config :
    (exists : Bytes → Bool)
    → (read_json_file : Bytes → Json) → SettingManager
    → Bytes
    → SettingManager
unfolding configured init_keys_storage
load_config exists read_json_file s conf_path =
    if exists conf_path then configured (read_json_file conf_path) else record {
      key_storage = some (init_keys_storage no_keys);
      last_error = codes "File at path '" ++ conf_path ++ codes "' not exist";
    }

unfoldable pub is_empty : Bytes → Bool
is_empty [] = true
is_empty (c ∷ cs) = false

unfoldable pub config_is_well : SettingManager → Bool
config_is_well s = is_empty s.last_error

-- The text that a caller's type is read from, or the exception; `unfinished` where the fuel is gone.
pub data Setting : Type 0 where
  text : Bytes → Setting
  not_init no_such_key no_default_value unfinished : Setting

unfoldable pub panic_if_default_value_not_exists : BaseKey → Setting
unfolding is_empty
panic_if_default_value_not_exists key =
    if is_empty key.default_value then no_default_value else text key.default_value

unfoldable pub get_value_unsafe : ℕ → Keys → Bytes → Setting
unfolding is_empty
get_value_unsafe zero m name = unfinished
get_value_unsafe (suc fuel) m name = elim (find str_eq name m) [
  | none ↦ no_such_key
  | some key ↦
      let replaced = get_value_unsafe fuel m key.key_replacement_name in
      if is_empty key.value
      then (if is_empty key.key_replacement_name
          then panic_if_default_value_not_exists key
          else replaced)
      else text key.value
]

unfoldable pub get_value : ℕ → SettingManager → Bytes → Setting
get_value fuel s name = elim s.key_storage [
  | none ↦ not_init
  | some m ↦ get_value_unsafe fuel m name
]

-- utility::safe_lexical_cast over what boost::lexical_cast gives, which is `none` for its exception. The
-- default is a variable that is not initialised: `unset` is what it holds.
unfoldable pub safe_lexical_cast :
    {A : Type 0} → (lexical_cast : Bytes → Option A) → (unset : A) → Bytes → A
safe_lexical_cast lexical_cast unset str = elim (lexical_cast str) [ none ↦ unset | some t ↦ t ]

-- The same to a bool.
unfoldable pub safe_bool_cast : Bytes → Bool
safe_bool_cast str = str_eq str (codes "true")
