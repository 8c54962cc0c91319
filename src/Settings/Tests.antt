-- ===== src/Settings/Tests.antt =====
-- Tests of the settings.
use t2h.Common.{[], Option, none, some, Bytes, codes, str_eq, ◌≡◌, refl, if◌then◌else◌}
use t2h.Settings.{SettingManager, Json, members, init_config, get_value, text}
use t2h.Settings.Values.{get_value_lem, value_or}

abbrev sets_root : Bytes → Option Bytes
sets_root name = if str_eq name (codes "doc_root") then some (codes "/srv") else none

abbrev reads_root : Bytes → Json
reads_root json = members sets_root

abbrev new_manager : SettingManager
new_manager = record { key_storage = none; last_error = [] }

get_value_lem_example :
    let t = init_config reads_root new_manager (codes "{}") in
    get_value 2 t (codes "hc_max_chunk_size")
    ≡ value_or (sets_root (codes "hc_max_chunk_size")) (text (codes "1024000"))
get_value_lem_example =
    (get_value_lem 0 reads_root new_manager 123 (codes "}") sets_root refl).1.1.1.1.1.1.0
