-- ===== src/Core/Samples.antt =====
-- A platform, settings and a state of the torrent core for the tests.
use t2h.Common.{
  ℕ, ◌<◌, true, false, List, [], ◌∷◌, ◌++◌, none, some, Bytes, codes, length, pos, All, ◌≡◌, arith,
}
use mathlib.Core.Path.{subst}
use t2h.Torrent.Text.{Paths}
use t2h.Core.World.{
  Libtorrent, TorrentExInfo, service_running, TorrentCoreSettings, StaticSettings, Core,
}
use t2h.Core.Controller.{SettingReader}
use t2h.Core.Safety.Handlers.{HasBytes}
use t2h.Core.Service.{Platform}

abbrev pub two_files : List (Bytes × ℕ)
two_files = (codes "a/1.avi", 350) ∷ (codes "a/2.avi", 20) ∷ []

abbrev pub libtorrent : Libtorrent
libtorrent = record {
  no_handle = 0;
  is_valid = λ c h. true;
  save_path = λ c h. some (codes "/r/box");
  get_torrent_files = λ c h. some two_files;
  map_file = λ h i offset. 4;
  piece_length = λ h. 100;
  file_priorities = λ c h. 1 ∷ 1 ∷ [];
  throws = λ c k. false;
}

has_bytes : (fs : List (Bytes × ℕ)) → two_files ≡ fs → All (λ f. 0 < f.1) fs
has_bytes fs e = subst (All (λ f. 0 < f.1)) e (omega arith, (omega arith, tt))

pub libtorrent-HasBytes : HasBytes libtorrent
libtorrent-HasBytes = record { files = λ c h fs e. has_bytes fs cc; pieces = λ h. omega arith }

abbrev pub settings_reader : SettingReader
settings_reader = record {
  text = λ key. some (codes "/r");
  int = λ key. some (pos 7000);
  count = λ key. some 5;
  flag = λ key. some true;
}

abbrev pub platform : Platform
platform = record {
  lt = libtorrent;
  hasher = length;
  partial_sort = λ n xs. xs;
  combine_path = λ root path. (root ++ codes "/") ++ path;
  lexical_cast = λ n. codes "7";
  reader = settings_reader;
  exists = λ path. true;
  is_directory = λ path. true;
  absolute = λ path. path;
  new_session = true;
  load_file = λ path. none;
  lazy_bdecode = λ bytes. true;
  listen_error = λ code first last. false;
}

abbrev pub paths : Paths
paths = record {
  combine = λ root path. (root ++ codes "/") ++ path;
  random_string = codes "box";
  torrent_file_error = λ path. false;
  exists = λ path. some false;
  create_directory = λ path. some true;
}

abbrev pub core_settings : TorrentCoreSettings
core_settings = record {
  save_root = [];
  port_start = pos 0;
  port_end = pos 0;
  max_alert_wait_time = pos 1;
  loadable_session = false;
}

abbrev pub static_settings : StaticSettings
static_settings = record {
  tc_root = [];
  auto_error_resolving = false;
  resolve_checkout = 0;
  max_partial_download_size = 0;
  partial_files_download = true;
  sequential_download = true;
  resolve_countries = false;
  download_limit = pos 0;
  upload_limit = pos 0;
  max_uploads = pos 0;
  max_connections_per_torrent = pos 0;
  torrent_add_timeout = 0;
}

abbrev pub kept_torrent : TorrentExInfo
kept_torrent = record {
  resolver = none;
  last_resolve_checkout = 0;
  handle = 9;
  save_path = codes "/r/box";
  sandbox_dir_name = codes "box";
  index = 6;
  avaliables_files = [];
}

abbrev pub serving : Core
serving = record {
  cur_state = service_running;
  session = true;
  shared_buffer = some ((6, 2) ∷ []);
  ex_infos = (2, kept_torrent) ∷ [];
  fresh = 3;
  futures = [];
  settings = core_settings;
  controller_settings = static_settings;
  calls = [];
  events = [];
}
