-- ===== src/Core/Safety/Alerts.antt =====
-- src/core/torrent_core: the dispatch of an alert and the loop over the alerts are safe.
use t2h.Common.{
  ℕ, ◌+◌, ◌++◌, ◌<◌, leb, ltb, Bool, ◌&&◌, List, [], ◌∷◌, Bytes, ℤ, if◌then◌else◌, arith,
}
use t2h.Torrent.{FileInfo, file_info_bin_search, file_info_search_by_index}
use t2h.Torrent.Update.{Report, told, silent, file_info_update}
use t2h.Torrent.Update
use t2h.Core.World.{
  TorrentStatus, Libtorrent, escaped, M, event_file_remove, event_file_complete,
  event_progress_update, piece_priority,
}
use t2h.Core.Buffer.{remove, remove_usafe}
use t2h.Core.Resolvers.{Resolvers}
use t2h.Core.Alerts.{
  Alert, torrent_paused_alert, metadata_received_alert, torrent_finished_alert, state_changed_alert,
  torrent_deleted_alert, file_completed_alert, piece_finished_alert, add_torrent_alert,
  state_update_alert, tracker_error_alert, listen_failed_alert, other_alert, reinit_by_index,
  prioritise, on_found, report_piece, on_piece_finished, on_file_complete, on_deleted, on_status,
  on_update, on_tracker_error, dispatch_alert,
}
use t2h.Core.Safety.{Any}
use t2h.Core.Safety.Steps.{Inside, erase-Inside}
use t2h.Core.Safety.Rules.{
  IsSafe, if-IsSafe, state-IsSafe, option-IsSafe, bind-IsSafe, next-IsSafe, pure-IsSafe,
  get_torrent_info_of-IsSafe, save_path_of-IsSafe, sought-IsSafe, buffer-IsSafe, set_buffer-IsSafe,
  load-IsSafe, store-IsSafe, emit-IsSafe, safety,
}
use t2h.Core.Safety.Handlers.{
  HasBytes, emit_each-IsSafe, removed-IsSafe, lookup_error-IsSafe, on_add_torrent-IsSafe,
  on_pause-IsSafe,
}

module _ (lt : Libtorrent) (hasher : Bytes → ℕ) (partial_sort : ℕ → List ℕ → List ℕ)
    (b : HasBytes lt) where
  prioritise-IsSafe :
      {K : Bool} {n : ℕ} (h : ℕ) (is : List ℕ)
      → IsSafe K n Any (prioritise lt hasher partial_sort h is)
  unfolding prioritise
  prioritise-IsSafe h [] = pure-IsSafe tt
  prioritise-IsSafe h (i ∷ is) = record {
    run = λ s l k.
        let d =
          (prioritise-IsSafe h is).run (record s { calls = s.calls ++ piece_priority h i 5 ∷ [] })
            (record {
              session = l.session;
              torrents = l.torrents;
              shared = l.shared;
              inside = l.inside;
              stored = l.stored;
            })
            k in
        record { live = d.live; grows = d.grows; kept = d.kept; ends = d.ends };
  }

  on_found-IsSafe :
      {K : Bool} {n : ℕ} (h : ℕ) (f : ℕ → M (Unit {0}))
      → ((j p : ℕ) → p < j → IsSafe K j Any (f p))
      → IsSafe K n Any (on_found lt hasher partial_sort h f)
  unfolding on_found
  on_found-IsSafe h f hf = next-IsSafe (save_path_of-IsSafe lt h) (λ path.
      bind-IsSafe (sought-IsSafe hasher path)
        (λ o j l q. option-IsSafe o (removed-IsSafe lt hasher h) (λ p e. hf j p (q p e))))

  escaped-IsSafe : {K : Bool} {n : ℕ} → IsSafe K n (Any {A = Unit {0}}) (λ s. (s, escaped))
  escaped-IsSafe = record {
    run = λ s l k. record { live = l; grows = omega arith; kept = λ _ p f. f; ends = tt };
  }

  report_piece-IsSafe :
      {K : Bool} {n : ℕ} (files : List FileInfo) (piece : ℕ) (r : Report)
      → IsSafe K n Any (report_piece lt hasher partial_sort files piece r)
  unfolding report_piece
  report_piece-IsSafe files piece Update.threw = escaped-IsSafe
  report_piece-IsSafe files piece Update.silent = pure-IsSafe tt
  report_piece-IsSafe files piece Update.told =
      option-IsSafe (file_info_bin_search files piece) (pure-IsSafe tt) (λ fi e. emit-IsSafe (
        event_progress_update fi.path
          (if ltb fi.size fi.avaliable_bytes then fi.size else fi.avaliable_bytes)))

  on_piece_finished-IsSafe :
      {K : Bool} {n : ℕ} (h piece : ℕ)
      → IsSafe K n Any (on_piece_finished lt hasher partial_sort h piece)
  unfolding on_piece_finished
  on_piece_finished-IsSafe h piece = on_found-IsSafe h _ (λ j p l.
      next-IsSafe (load-IsSafe p l) (λ ex.
        let updated = file_info_update partial_sort ex.avaliables_files piece in
        next-IsSafe (prioritise-IsSafe h updated.1.1) (λ _.
          next-IsSafe (store-IsSafe p (record ex { avaliables_files = updated.0 }))
            (λ _. report_piece-IsSafe updated.0 piece updated.1.0))))

  on_file_complete-IsSafe :
      {K : Bool} {n : ℕ} (h index : ℕ)
      → IsSafe K n Any (on_file_complete lt hasher partial_sort h index)
  unfolding on_file_complete
  on_file_complete-IsSafe h index = on_found-IsSafe h _ (λ j p l.
      next-IsSafe (load-IsSafe p l) (λ ex.
        option-IsSafe (file_info_search_by_index ex.avaliables_files index) (pure-IsSafe tt)
          (λ fi e. next-IsSafe (emit-IsSafe (event_file_complete fi.path fi.size)) (λ _.
            store-IsSafe p
              (record ex { avaliables_files = reinit_by_index ex.avaliables_files index })))))

  on_deleted-IsSafe :
      {K : Bool} {n : ℕ} (h : ℕ) → IsSafe K n Any (on_deleted lt hasher partial_sort h)
  unfolding on_deleted remove remove_usafe
  on_deleted-IsSafe h = next-IsSafe (save_path_of-IsSafe lt h) (λ path.
      bind-IsSafe (sought-IsSafe hasher path) (λ o j l q. option-IsSafe o (pure-IsSafe tt) (λ p e.
        next-IsSafe (load-IsSafe p (q p e)) (λ ex.
          next-IsSafe (emit_each-IsSafe event_file_remove ex.avaliables_files) (λ _.
            next-IsSafe (save_path_of-IsSafe lt h) (λ save_path.
              bind-IsSafe
                (buffer-IsSafe {Q = Inside} (λ b. remove hasher b save_path)
                  (λ b i g. erase-Inside b i (hasher save_path) g))
                (λ left i m g. set_buffer-IsSafe left g)))))))

  on_status-IsSafe :
      {K : Bool} {n : ℕ} (now : ℕ) (resolvers : Resolvers) (status : TorrentStatus)
      → IsSafe K n Any (on_status lt hasher partial_sort now resolvers status)
  unfolding on_status
  on_status-IsSafe now resolvers status =
      next-IsSafe (save_path_of-IsSafe lt status.handle) (λ path.
        bind-IsSafe (sought-IsSafe hasher path) (λ o j l q.
          option-IsSafe o (removed-IsSafe lt hasher status.handle) (λ p e.
            next-IsSafe (load-IsSafe p (q p e)) (λ ex. state-IsSafe (λ s.
              if-IsSafe
                (s.controller_settings.auto_error_resolving && leb ex.last_resolve_checkout now)
                (next-IsSafe
                  (option-IsSafe ex.resolver
                    (store-IsSafe p (record ex {
                      last_resolve_checkout = now + s.controller_settings.resolve_checkout;
                    }))
                    (λ r f. pure-IsSafe tt))
                  (λ _. lookup_error-IsSafe lt now resolvers status (q p e)))
                (pure-IsSafe tt))))))

  on_update-IsSafe :
      {K : Bool} {n : ℕ} (now : ℕ) (resolvers : Resolvers) (statuses : List TorrentStatus)
      → IsSafe K n Any (on_update lt hasher partial_sort now resolvers statuses)
  unfolding on_update
  on_update-IsSafe now resolvers [] = pure-IsSafe tt
  on_update-IsSafe now resolvers (status ∷ statuses) =
      next-IsSafe (on_status-IsSafe now resolvers status)
        (λ _. on_update-IsSafe now resolvers statuses)

  on_tracker_error-IsSafe :
      {K : Bool} {n : ℕ} (h : ℕ) (status_code error : ℤ)
      → IsSafe K n Any (on_tracker_error lt hasher partial_sort h status_code error)
  unfolding on_tracker_error
  on_tracker_error-IsSafe h status_code error = search safety depth 8

  pub dispatch_alert-IsSafe :
      {K : Bool} {n : ℕ} (now : ℕ) (resolvers : Resolvers) (a : Alert)
      → IsSafe K n Any (dispatch_alert lt hasher partial_sort now resolvers a)
  unfolding dispatch_alert
  dispatch_alert-IsSafe now resolvers (torrent_paused_alert h) = on_pause-IsSafe lt hasher b h
  dispatch_alert-IsSafe now resolvers (metadata_received_alert h) =
      next-IsSafe (get_torrent_info_of-IsSafe lt h) (λ _. pure-IsSafe tt)
  dispatch_alert-IsSafe now resolvers (file_completed_alert h index) =
      on_file_complete-IsSafe h index
  dispatch_alert-IsSafe now resolvers (add_torrent_alert error h) =
      on_add_torrent-IsSafe lt hasher b error h
  dispatch_alert-IsSafe now resolvers (torrent_finished_alert h) = pure-IsSafe tt
  dispatch_alert-IsSafe now resolvers (piece_finished_alert h piece) =
      on_piece_finished-IsSafe h piece
  dispatch_alert-IsSafe now resolvers (state_changed_alert h) = pure-IsSafe tt
  dispatch_alert-IsSafe now resolvers (torrent_deleted_alert h) = on_deleted-IsSafe h
  dispatch_alert-IsSafe now resolvers (state_update_alert statuses) =
      on_update-IsSafe now resolvers statuses
  dispatch_alert-IsSafe now resolvers (tracker_error_alert h status_code error) =
      on_tracker_error-IsSafe h status_code error
  dispatch_alert-IsSafe now resolvers listen_failed_alert = pure-IsSafe tt
  dispatch_alert-IsSafe now resolvers other_alert = pure-IsSafe tt
