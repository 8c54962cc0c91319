-- ===== src/Core/Alerts.antt =====
-- src/core/torrent_core/sequential_torrent_controller.cpp: what the controller does for each alert. The
-- saving of the metadata and the warnings are not modelled, but for what they ask of a handle.
use t2h.Common.{
  ℕ, ◌+◌, leb, ltb, ◌==◌, Bool, not, ◌&&◌, ◌||◌, List, [], ◌∷◌, ◌++◌, none, some, Bytes, ℤ, pos,
  eqb_ℤ, ltb_ℤ, if◌then◌else◌,
}
use t2h.Torrent.{FileInfo, file_info_bin_search, file_info_search_by_index, file_info_reinit}
use t2h.Torrent.Update.{Report, told, silent, file_info_update}
use t2h.Torrent.Update
use t2h.Core.World.{
  piece_priority, force_reannounce, clear_error, Libtorrent, TorrentStatus, event_file_remove,
  event_file_complete, event_progress_update, returns, escaped, M, ◌>>=◌, ◌>>◌, pure, get_state,
  call, get_torrent_info_of, save_path_of, with_buffer, set_buffer, load, store, emit,
}
use t2h.Core.Buffer.{get, remove}
use t2h.Core.Resolvers.{Resolvers, lookup_error}
use t2h.Core.Controller.{emit_each, torrent_remove, on_add_torrent, on_pause}

-- The alerts of libtorrent that are told apart, with what is read of them.
pub data Alert : Type 0 where
  torrent_paused_alert metadata_received_alert torrent_finished_alert : ℕ → Alert
  state_changed_alert torrent_deleted_alert : ℕ → Alert
  file_completed_alert piece_finished_alert : ℕ → ℕ → Alert
  add_torrent_alert : Bool → ℕ → Alert
  state_update_alert : List TorrentStatus → Alert
  tracker_error_alert : ℕ → (status_code error : ℤ) → Alert
  listen_failed_alert other_alert : Alert

-- file_info_reinit through the pointer that the search by the index gives.
unfoldable pub reinit_by_index : List FileInfo → ℕ → List FileInfo
reinit_by_index [] index = []
reinit_by_index (fi ∷ flist) index =
    let rest = reinit_by_index flist index in
    if fi.file_index == index then file_info_reinit fi ∷ flist else fi ∷ rest

module _ (lt : Libtorrent) (hasher : Bytes → ℕ) (partial_sort : ℕ → List ℕ → List ℕ) where
  -- handle.piece_priority for the pieces of a window, which is taken to return.
  unfoldable pub prioritise : ℕ → List ℕ → M (Unit {0})
  prioritise h [] s = (s, returns tt)
  prioritise h (i ∷ is) s =
      prioritise h is (record s { calls = s.calls ++ piece_priority h i 5 ∷ [] })

  -- The pointer under the path of the handle, if there is one; the torrent is removed if not.
  unfoldable pub on_found : ℕ → (ℕ → M (Unit {0})) → M (Unit {0})
  unfolding ◌>>=◌ save_path_of with_buffer torrent_remove
  on_found h f = do
    path ← save_path_of lt h
    found ← with_buffer (λ b. get hasher b path)
    elim found [ none ↦ do save_path_of lt h; torrent_remove lt hasher h | some p ↦ f p ]

  -- The file that is told about is the one that has the piece.
  unfoldable pub report_piece : List FileInfo → ℕ → Report → M (Unit {0})
  unfolding emit
  report_piece files piece Update.threw = λ s. (s, escaped)
  report_piece files piece Update.silent = pure tt
  report_piece files piece Update.told = elim (file_info_bin_search files piece) [
    | none ↦ pure tt
    | some fi ↦ emit (
        event_progress_update fi.path
          (if ltb fi.size fi.avaliable_bytes then fi.size else fi.avaliable_bytes))
  ]

  unfoldable pub on_piece_finished : ℕ → ℕ → M (Unit {0})
  unfolding ◌>>=◌ load store on_found prioritise report_piece
  on_piece_finished h piece = on_found h (λ p. do
    ex ← load p
    let updated = file_info_update partial_sort ex.avaliables_files piece
    prioritise h updated.1.1
    store p (record ex { avaliables_files = updated.0 })
    report_piece updated.0 piece updated.1.0)

  unfoldable pub on_file_complete : ℕ → ℕ → M (Unit {0})
  unfolding ◌>>=◌ load store emit on_found
  on_file_complete h index = on_found h (λ p. do
    ex ← load p
    elim (file_info_search_by_index ex.avaliables_files index) [
      | none ↦ pure tt
      | some fi ↦ do
        emit (event_file_complete fi.path fi.size)
        store p (record ex { avaliables_files = reinit_by_index ex.avaliables_files index })
    ])

  unfoldable pub on_deleted : ℕ → M (Unit {0})
  unfolding ◌>>=◌ save_path_of with_buffer load emit_each set_buffer
  on_deleted h = do
    path ← save_path_of lt h
    found ← with_buffer (λ b. get hasher b path)
    elim found [
      | none ↦ pure tt
      | some p ↦ do
        ex ← load p
        emit_each event_file_remove ex.avaliables_files
        save_path ← save_path_of lt h
        left ← with_buffer (λ b. remove hasher b save_path)
        set_buffer left
    ]

  -- One status of the update, at the time `now`.
  unfoldable pub on_status : ℕ → Resolvers → TorrentStatus → M (Unit {0})
  unfolding ◌>>=◌ save_path_of with_buffer load store torrent_remove lookup_error
  on_status now resolvers status = do
    path ← save_path_of lt status.handle
    found ← with_buffer (λ b. get hasher b path)
    elim found [
      | none ↦ do save_path_of lt status.handle; torrent_remove lt hasher status.handle
      | some p ↦ do
        ex ← load p
        s ← get_state
        let c = s.controller_settings
        if c.auto_error_resolving && leb ex.last_resolve_checkout now
            then (do
              elim ex.resolver [
                | none ↦ store p (record ex { last_resolve_checkout = now + c.resolve_checkout })
                | some _ ↦ pure tt
              ]
              lookup_error lt now resolvers p status)
            else pure tt
    ]

  unfoldable pub on_update : ℕ → Resolvers → List TorrentStatus → M (Unit {0})
  unfolding ◌>>=◌ on_status
  on_update now resolvers [] = pure tt
  on_update now resolvers (status ∷ statuses) = do
    on_status now resolvers status
    on_update now resolvers statuses

  unfoldable pub on_tracker_error : ℕ → ℤ → ℤ → M (Unit {0})
  unfolding ◌>>=◌ call
  on_tracker_error h status_code error = do
    call lt (clear_error h)
    if not (eqb_ℤ status_code (pos 200)) || ltb_ℤ (pos 0) error
        then call lt (force_reannounce h)
        else pure tt

  unfoldable pub dispatch_alert : ℕ → Resolvers → Alert → M (Unit {0})
  unfolding ◌>>=◌ get_torrent_info_of save_path_of on_add_torrent on_pause on_piece_finished
      on_file_complete on_deleted on_update on_tracker_error
  dispatch_alert now resolvers (torrent_paused_alert h) = on_pause lt hasher h
  dispatch_alert now resolvers (metadata_received_alert h) = do get_torrent_info_of lt h; pure tt
  dispatch_alert now resolvers (file_completed_alert h index) = on_file_complete h index
  dispatch_alert now resolvers (add_torrent_alert error h) = on_add_torrent lt hasher error h
  dispatch_alert now resolvers (torrent_finished_alert h) = pure tt
  dispatch_alert now resolvers (piece_finished_alert h piece) = on_piece_finished h piece
  dispatch_alert now resolvers (state_changed_alert h) = pure tt
  dispatch_alert now resolvers (torrent_deleted_alert h) = on_deleted h
  dispatch_alert now resolvers (state_update_alert statuses) = on_update now resolvers statuses
  dispatch_alert now resolvers (tracker_error_alert h status_code error) =
      on_tracker_error h status_code error
  dispatch_alert now resolvers listen_failed_alert = pure tt
  dispatch_alert now resolvers other_alert = pure tt
