-- ===== src/Api/Start.antt =====
-- src/core/external_api/external_api_details.cpp and external_api_details.hpp: the services of one core,
-- how they are started from the settings and how they are stopped.
use t2h.Common.{ℕ, Bool, List, [], ◌∷◌, Option, none, some, Bytes, codes, ℤ, if◌then◌else◌}
use t2h.Settings.{
  SettingManager, Json, Setting, text, not_init, no_such_key, no_default_value, unfinished,
  init_config, load_config, config_is_well, get_value, safe_lexical_cast, safe_bool_cast,
}
use t2h.Services.{registrate, get_service}
use t2h.Http.Transport.Connection.{TransportConfig}
use t2h.Core.World.{
  TorrentCoreSettings, StaticSettings, Core, Outcome, returns, threw, escaped, undefined,
}
use t2h.Core.Controller.{SettingReader}
use t2h.Core.Service.{Platform, launch_service, stop_service}
use t2h.Core.Service.Operations.{torrent_core}
use t2h.Server.Buffer.{FileInfoBuffer}
use t2h.Server.Core.{ServerSettings, HttpServerCore, http_server_core}
use t2h.Server.Core

-- What the library takes from elsewhere: the platform of the torrent core, boost::lexical_cast of a
-- setting's text and what a variable of its type holds that is not initialised, the reading of JSON,
-- the files and mongoose, and what the constructors leave in the settings.
pub record Environment : Type 0 where
  pub platform : Platform
  pub cast_int : Bytes → Option ℤ
  pub cast_int64 : Bytes → Option ℤ
  pub cast_size : Bytes → Option ℕ
  pub unset_int : ℤ
  pub unset_int64 : ℤ
  pub unset_size : ℕ
  pub read_json : Bytes → Json
  pub read_json_file : Bytes → Json
  pub exists : Bytes → Bool
  pub is_directory : Bytes → Bool
  pub mg_start : TransportConfig → Bool
  pub core_settings : TorrentCoreSettings
  pub static_settings : StaticSettings

-- The text of a setting, or an exception.
unfoldable pub text_of : Setting → Option Bytes
text_of (text t) = some t
text_of not_init = none
text_of no_such_key = none
text_of no_default_value = none
text_of unfinished = none

-- get_value at a type that the text is cast to.
unfoldable pub cast_value : {A : Type 0} → (Bytes → A) → SettingManager → Bytes → Option A
unfolding text_of
cast_value cast sets key = elim (text_of (get_value 2 sets key)) [
  | none ↦ none
  | some t ↦ some (cast t)
]

-- The services that a core has.
pub data Service : Type 0 where
  torrent_service : Core → Service
  http_service : HttpServerCore → Service

-- torrent_core::this_service_name and http_server_core::http_core_service_name
abbrev pub this_service_name : Bytes
this_service_name = codes "torrent_core"

abbrev pub http_core_service_name : Bytes
http_core_service_name = codes "t2h_http_core"

-- core_handle. Its pointer to the settings manager, which is one for the whole program, is null only
-- after `destroy`, when no handle leads to it any more.
pub record CoreHandle : Type 0 where
  pub services : List (Bytes × Service)

unfoldable pub get_torrent_core : CoreHandle → Option Service
unfolding get_service
get_torrent_core h = get_service h.services this_service_name

module _ (env : Environment) where
  unfoldable pub core_reader : SettingManager → SettingReader
  unfolding cast_value safe_lexical_cast safe_bool_cast
  core_reader sets = record {
    text = cast_value (λ t. t) sets;
    int = cast_value (safe_lexical_cast env.cast_int env.unset_int) sets;
    count = cast_value (safe_lexical_cast env.cast_size env.unset_size) sets;
    flag = cast_value safe_bool_cast sets;
  }

  unfoldable pub server_settings : SettingManager → ServerSettings
  unfolding cast_value safe_lexical_cast
  server_settings sets = record {
    text = cast_value (λ t. t) sets;
    int64 = cast_value (safe_lexical_cast env.cast_int64 env.unset_int64) sets;
    size = cast_value (safe_lexical_cast env.cast_size env.unset_size) sets;
  }

  -- `none` is a null pointer, also after an exception.
  unfoldable pub init_torrent_core : SettingManager → Outcome (Option Core)
  unfolding core_reader launch_service
  init_torrent_core sets =
      let (c, o) =
        launch_service (record env.platform { reader = core_reader sets })
          (torrent_core env.core_settings env.static_settings) in
      elim o [
        | returns launched ↦ returns (if launched then some c else none)
        | threw ↦ returns none
        | escaped ↦ returns none
        | undefined ↦ undefined
      ]

  unfoldable pub init_http_server : SettingManager → Option HttpServerCore
  unfolding server_settings Core.launch_service
  init_http_server sets =
      let (h, launched) =
        Core.launch_service env.exists env.is_directory env.mg_start (server_settings sets)
          http_server_core in
      if launched then some h else none

  -- A null pointer is called if one of the two could not be started; before that, the torrent core is
  -- stopped where it is the server that is missing.
  unfoldable pub init_core_services : SettingManager → Outcome (List (Bytes × Service))
  unfolding init_torrent_core init_http_server registrate stop_service
  init_core_services sets = elim (init_torrent_core sets) [
    | threw ↦ threw
    | escaped ↦ escaped
    | undefined ↦ undefined
    | returns tcore ↦ elim tcore [
      | none ↦ undefined
      | some c ↦ elim (init_http_server sets) [
        | some h ↦ returns (
            (registrate (registrate [] (some (this_service_name, torrent_service c))).0
              (some (http_core_service_name, http_service h))).0)
        | none ↦ elim (stop_service env.platform c).1 [
          | returns _ ↦ undefined
          | threw ↦ threw
          | escaped ↦ escaped
          | undefined ↦ undefined
        ]
      ]
    ]
  ]

  unfoldable pub configure : Bool → Bytes → SettingManager → SettingManager
  unfolding load_config init_config
  configure config_load_from_file config sets =
      if config_load_from_file
      then load_config env.exists env.read_json_file sets config
      else init_config env.read_json sets config

  -- core_handle::initialize: the settings, and the core where it returns true; every exception of the
  -- standard library is caught.
  unfoldable pub initialize :
      Bool → Bytes → SettingManager → SettingManager × Outcome (Option CoreHandle)
  unfolding configure config_is_well init_core_services
  initialize config_load_from_file config old =
      let sets = configure config_load_from_file config old in
      (
        sets,
        (if config_is_well sets
            then elim (init_core_services sets) [
              | returns services ↦ returns (some (record { services = services }))
              | threw ↦ returns none
              | escaped ↦ returns none
              | undefined ↦ undefined
            ]
            else returns none),
      )

  -- A service that does not run is left as it is.
  unfoldable pub stop_one :
      Service → FileInfoBuffer → (Service × FileInfoBuffer) × Outcome (Unit {0})
  unfolding stop_service Core.stop_service
  stop_one (torrent_service c) b =
      let (d, o) = stop_service env.platform c in ((torrent_service d, b), o)
  stop_one (http_service h) b = elim (Core.stop_service h b) [
    | none ↦ ((http_service h, b), undefined)
    | some (k, c) ↦ ((http_service k, c), returns tt)
  ]

  -- services_manager::stop_all; nothing is waited for behind a stop, since the service does not run
  -- then. The order, which an unordered_map leaves open, is that of the registration.
  unfoldable pub stop_all :
      List (Bytes × Service)
      → FileInfoBuffer
      → (List (Bytes × Service) × FileInfoBuffer) × Outcome (Unit {0})
  unfolding stop_one
  stop_all [] b = (([], b), returns tt)
  stop_all ((name, s) ∷ services) b =
      let ((s', c), o) = stop_one s b in
      let ((rest, d), o') = stop_all services c in
      elim o [
        | returns _ ↦ (((name, s') ∷ rest, d), o')
        | threw ↦ (((name, s') ∷ services, c), threw)
        | escaped ↦ (((name, s') ∷ services, c), escaped)
        | undefined ↦ (((name, s') ∷ services, c), undefined)
      ]

  -- core_handle::destroy of a core that is no longer in use: the table of the files, and how it ends.
  unfoldable pub destroy : CoreHandle → FileInfoBuffer → FileInfoBuffer × Outcome (Unit {0})
  unfolding stop_all
  destroy h b = let ((services, c), o) = stop_all h.services b in (c, o)
