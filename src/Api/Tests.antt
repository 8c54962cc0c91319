-- ===== src/Api/Tests.antt =====
-- Tests of the exported functions.
use t2h.Common.{
  true, false, [], ◌∷◌, ◌++◌, some, codes, str_eq, find, assign, size, pos, ◌≡◌, ◌≢◌, refl, ◌⊎◌,
  arith,
}
use t2h.Settings.{
  config_is_well, init_config, configured, fill_config, set_key, init_keys_storage, get_value,
  get_value_unsafe, panic_if_default_value_not_exists, is_empty,
}
use t2h.Core.World.{returns, undefined}
use t2h.Core.Service.{path_at}
use t2h.Core.Samples.{two_files, libtorrent-HasBytes, kept_torrent, serving}
use t2h.Services.{get_service}
use t2h.Api.Start.{
  get_torrent_core, configure, cast_value, text_of, torrent_service, this_service_name,
}
use t2h.Api.{UnderlyingHandle, Program}
use t2h.Api.Functions.{t2h_init_, t2h_start_download}
use t2h.Api.Init.{t2h_init_lem}
use t2h.Api.Calls.{init, close, start, run, begun, called, program, IsStart}
use t2h.Api.Sound.{Knows}
use t2h.Api.Reachable.{Reached-IsOpen}
use t2h.Api.Guards.{close-run}
use t2h.Api.Url.{t2h_start_download_lem}
use t2h.Api.Samples.{environment, sets, core, server, core_starts, server_starts}

t2h_init_lem_example :
    (t2h_init_ environment true (some (codes "{}")) false program).1 ≡ returns (pos 1)
unfolding configure init_config configured config_is_well is_empty size
t2h_init_lem_example =
    ((((t2h_init_lem environment true (codes "{}") false program).1 refl).1 core core_starts).1
      server server_starts).0

abbrev handle : UnderlyingHandle
handle = record {
  core_handle = record { services = (this_service_name, torrent_service serving) ∷ [] };
  torrents = (6, record { tid = 6; mem_collector = [] }) ∷ [];
}

abbrev opened : Program
opened = record { handles = (1, handle) ∷ []; sets = sets; table = program.table }

close-run_example :
    (run environment true
      (start (pos 1) 6 (pos 0))
      (run environment true (close (pos 1)) opened).0).1
    ≡ undefined
unfolding find
close-run_example =
    (close-run environment true (start (pos 1) 6 (pos 0)) opened).1 1 handle refl refl refl

abbrev begun_program : Program
begun_program = (run environment true (init (some (codes "{}")) false) program).0

Reached-IsOpen_example :
    IsStart (start (pos 1) 6 (pos 0))
    ⊎ (Knows begun_program (pos 1)
        → (run environment true (start (pos 1) 6 (pos 0)) begun_program).1 ≢ undefined)
Reached-IsOpen_example =
    (Reached-IsOpen environment true libtorrent-HasBytes begun_program
        (called (init (some (codes "{}")) false) program begun)).1
      (start (pos 1) 6 (pos 0))

t2h_start_download_lem_example :
    (t2h_start_download environment true (pos 1) 6 (pos 1) opened).1
    ≡ returns (some (codes "http://127.0.0.1:8080/box/a/2.avi" ++ 0 ∷ []))
unfolding find get_torrent_core get_service path_at cast_value text_of configure init_config
    configured get_value get_value_unsafe panic_if_default_value_not_exists is_empty
    init_keys_storage assign str_eq fill_config set_key
t2h_start_download_lem_example =
    ((t2h_start_download_lem environment true opened 1 6 2 handle
        (record { tid = 6; mem_collector = [] }) serving ((6, 2) ∷ []) kept_torrent refl refl refl
        refl refl refl refl refl refl (λ c k. refl) (codes "127.0.0.1") (codes "8080") two_files 1
        refl refl (λ c. refl)).0
      (omega arith)).0
