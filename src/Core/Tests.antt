-- ===== src/Core/Tests.antt =====
-- Tests of the service over libtorrent and of the parts beside it.
use t2h.Common.{
  true, false, List, [], ◌∷◌, none, some, Bytes, codes, find, length, pos, ◌≡◌, ◌≢◌, refl, arith,
}
use t2h.Torrent.Text.{replace_slashes}
use t2h.Torrent.Text.Slashes.{escape_slashes, replace_slashes_lem}
use t2h.Core.World.{
  file_priority, force_reannounce, force_recheck, post_torrent_updates, TorrentStatus,
  hang_at_start_error, Event, event_file_add, event_progress_update, Core, returns, undefined,
}
use t2h.Core.Buffer.{get_usafe, remove}
use t2h.Core.Buffer.Laws.{add-get-remove}
use t2h.Core.Resolvers.{register_default_resolvers, resolve}
use t2h.Core.Resolvers.Lookup.{resolve_lem}
use t2h.Core.Calls.{logged}
use t2h.Core.Service.{normal_prior, path_at, start_torrent_download, remove_torrent}
use t2h.Core.Service.Removal.{remove_torrent-on_deleted}
use t2h.Core.Alerts.{on_deleted}
use t2h.Core.Service.Files.{start_torrent_download_lem}
use t2h.Core.Service.Operations.{
  torrent_core, Operation, launch, start, perform, Reached, constructed, called, Reached-IsSound,
}
use t2h.Core.Service.Operations
use t2h.Core.EventSource.{handle_events}
use t2h.Core.EventSource.Table.{told_all, handle_events-view}
use t2h.Server.Buffer.{FileInfoBuffer, file_info_buffer}
use t2h.Server.Buffer.Sound.{IsSound}
use t2h.Server.Buffer.Refines.{view, replay, file_info_buffer-IsSound}
use t2h.Core.Samples.{
  two_files, libtorrent, libtorrent-HasBytes, platform, paths, core_settings, static_settings,
  kept_torrent, serving,
}

abbrev launched : Core
launched =
    (perform platform register_default_resolvers launch
      (torrent_core core_settings static_settings)).0

abbrev added : Core
added =
    (perform platform register_default_resolvers
      (Operations.Operation.add 3 paths [] (codes "a.torrent")) launched).0

Reached-IsSound_example :
    (perform platform register_default_resolvers (start 6 (pos 0)) added).1 ≢ undefined
Reached-IsSound_example =
    (Reached-IsSound platform register_default_resolvers libtorrent-HasBytes added (
        called (Operations.Operation.add 3 paths [] (codes "a.torrent")) launched (
          called launch (torrent_core core_settings static_settings)
            (constructed core_settings static_settings)))).1
      (start 6 (pos 0))

start_torrent_download_lem_example : start_torrent_download platform 6 (pos 1) serving ≡ (
  logged post_torrent_updates
      (logged (force_reannounce 9) (logged (file_priority 9 (pos 1) normal_prior) serving)),
  returns (codes "box/a/2.avi"),
)
unfolding find path_at
start_torrent_download_lem_example =
    (start_torrent_download_lem platform 6 2 serving ((6, 2) ∷ []) kept_torrent refl refl refl refl
        refl (λ c k. refl) two_files 1 (λ c. refl)).1.1
      (omega arith)

remove_torrent-on_deleted_example :
    on_deleted libtorrent length (λ n xs. xs) 9 (remove_torrent platform 6 serving).0
    ≡ ((remove_torrent platform 6 serving).0, returns tt)
unfolding find
remove_torrent-on_deleted_example =
    (remove_torrent-on_deleted platform 6 2 serving ((6, 2) ∷ []) kept_torrent refl refl refl refl
      refl (λ c k. refl) (codes "/r/box") (λ c. refl) refl).1

add-get-remove_example : get_usafe (remove length ((6, 2) ∷ []) (codes "/r/box")) 6 ≡ none
add-get-remove_example =
    (add-get-remove length ((6, 2) ∷ []) ((2, kept_torrent) ∷ []) 3 kept_torrent 6).1

abbrev hanging : TorrentStatus
hanging = record {
  handle = 9;
  paused = false;
  downloading = true;
  num_peers = pos 0;
  connect_candidates = pos 3;
  no_progress = true;
}

resolve_lem_test :
    resolve libtorrent 12 (hang_at_start_error (some hanging) 8) serving
    ≡ (record serving { calls = force_recheck 9 ∷ [] }, returns true)
resolve_lem_test = (resolve_lem libtorrent 12 8 hanging serving refl refl).1 (omega arith)

replace_slashes_lem_example : replace_slashes (codes "/a/b") ≡ escape_slashes (codes "/a/b")
replace_slashes_lem_example = replace_slashes_lem (codes "/a/b") refl

abbrev two_events : List Event
two_events = event_file_add (codes "/m") 350 ∷ event_progress_update (codes "/m") 40 ∷ []

handle_events-view_example :
    (c : FileInfoBuffer) × ((replay file_info_buffer (handle_events (pos 77) two_events) ≡ some c)
      × (IsSound c
          × ((path : Bytes) → view c path ≡ told_all two_events (view file_info_buffer) path)))
handle_events-view_example =
    handle_events-view (pos 77) two_events file_info_buffer file_info_buffer-IsSound
      (refl, (refl, tt))
