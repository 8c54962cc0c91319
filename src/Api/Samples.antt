-- ===== src/Api/Samples.antt =====
-- An environment with which the library starts.
use t2h.Common.{
  true, false, Option, some, Bytes, codes, str_eq, find, assign, pos, ◌≡◌, refl, if◌then◌else◌,
}
use t2h.Settings.{
  SettingManager, members, init_config, configured, fill_config, set_key, init_keys_storage,
  get_value, get_value_unsafe, panic_if_default_value_not_exists, is_empty, safe_lexical_cast,
  safe_bool_cast,
}
use t2h.Core.World.{get_state, session_call, ◌>>=◌, Core, returns}
use t2h.Core.Service.{
  launch_service, new_all, start_session, delete_all, init_core_session, set_cur_state,
  read_settings, load_session_state, init_torrent_core_settings, launch_safe,
}
use t2h.Core.Controller.{set_session, assign_setting}
use t2h.Core.Service.Operations.{torrent_core}
use t2h.Core.Samples.{platform, core_settings, static_settings}
use t2h.Http.Transport.Connection.{establish_connection}
use t2h.Server.Core.{
  hcs_from_setting_manager, from_setting_manager, start_transport, HttpServerCore, http_server_core,
}
use t2h.Server.Core
use t2h.Api.Start.{
  Environment, init_torrent_core, init_http_server, configure, server_settings, core_reader,
  cast_value, text_of,
}
use t2h.Api.Calls.{program}

abbrev pub sets_address : Bytes → Option Bytes
sets_address name =
    if str_eq name (codes "server_addr")
    then some (codes "127.0.0.1")
    else if str_eq name (codes "server_port")
    then some (codes "8080")
    else some (codes "true")

abbrev pub environment : Environment
environment = record {
  platform = platform;
  cast_int = λ t. some (pos 6000);
  cast_int64 = λ t. some (pos 2000);
  cast_size = λ t. some 20;
  unset_int = pos 0;
  unset_int64 = pos 0;
  unset_size = 0;
  read_json = λ t. members sets_address;
  read_json_file = λ t. members sets_address;
  exists = λ path. true;
  is_directory = λ path. true;
  mg_start = λ config. true;
  core_settings = core_settings;
  static_settings = static_settings;
}

abbrev pub sets : SettingManager
sets = configure environment false (codes "{}") program.sets

abbrev pub core : Core
core =
    (launch_service (record platform { reader = core_reader environment sets })
      (torrent_core core_settings static_settings)).0

abbrev pub server : HttpServerCore
server =
    (Core.launch_service environment.exists environment.is_directory environment.mg_start
      (server_settings environment sets) http_server_core).0

pub core_starts : init_torrent_core environment sets ≡ returns (some core)
unfolding configure init_config configured init_torrent_core launch_service new_all start_session
    delete_all set_session init_core_session set_cur_state read_settings load_session_state
    session_call init_torrent_core_settings ◌>>=◌ launch_safe core_reader safe_lexical_cast
    safe_bool_cast cast_value text_of get_value get_value_unsafe panic_if_default_value_not_exists
    is_empty init_keys_storage assign_setting find assign str_eq fill_config set_key get_state
core_starts = refl

pub server_starts : init_http_server environment sets ≡ some server
unfolding configure init_config configured init_http_server Core.launch_service
    hcs_from_setting_manager from_setting_manager start_transport establish_connection
    server_settings safe_lexical_cast cast_value text_of get_value get_value_unsafe
    panic_if_default_value_not_exists is_empty init_keys_storage find assign str_eq fill_config
    set_key
server_starts = refl
