-- ===== src/Core/Controller.antt =====
-- src/core/torrent_core/sequential_torrent_controller.cpp: the settings of the controller and the
-- addition of a torrent. The warnings are not modelled, but for what they ask of a handle.
use t2h.Common.{
  ℕ, suc, ◌-◌, Bool, true, false, not, ◌||◌, List, [], ◌∷◌, Option, none, some, Bytes, codes,
  length, replicate, ℤ, pos, if◌then◌else◌,
}
use t2h.Torrent.{FileInfo, file_info_add}
use t2h.Core.World.{
  async_add_torrent, session_remove_torrent, prioritize_files, set_max_connections, set_max_uploads,
  set_upload_limit, set_download_limit, set_sequential_download, resolve_countries, Libtorrent,
  Event, event_file_add, event_pause, StaticSettings, returns, M, ◌>>=◌, ◌>>◌, pure, get_state,
  call, session_call, get_torrent_info_of, save_path_of, with_buffer, load, store, load_future,
  store_future, erase_future, leaving, undefined_behaviour, emit,
}
use t2h.Core.Buffer.{get}

-- What setting_manager::get_value gives of each type; `none` is an exception.
pub record SettingReader : Type 0 where
  pub text : Bytes → Option Bytes
  pub int : Bytes → Option ℤ
  pub count : Bytes → Option ℕ
  pub flag : Bytes → Option Bool

-- One assignment of a setting; after an exception nothing is assigned any more.
unfoldable pub assign_setting : {A S : Type 0} → Option A → (A → S → S) → S × Bool → S × Bool
assign_setting (some a) f (s, true) = (f a s, true)
assign_setting none f (s, true) = (s, false)
assign_setting o f (s, false) = (s, false)

-- The settings after the call, and whether it came to its end.
unfoldable pub update_settings : SettingReader → StaticSettings → StaticSettings × Bool
unfolding assign_setting
update_settings r s0 =
    let s1 =
      assign_setting (r.count (codes "tc_max_partial_download_size"))
        (λ v s. record s { max_partial_download_size = v }) (s0, true) in
    let s2 = assign_setting (r.text (codes "tc_root")) (λ v s. record s { tc_root = v }) s1 in
    let s3 =
      assign_setting (r.flag (codes "tc_auto_error_resolving"))
        (λ v s. record s { auto_error_resolving = v }) s2 in
    let s4 =
      assign_setting (r.count (codes "tc_resolve_checkout"))
        (λ v s. record s { resolve_checkout = v }) s3 in
    let s5 =
      assign_setting (r.flag (codes "tc_resolve_countries"))
        (λ v s. record s { resolve_countries = v }) s4 in
    let s6 =
      assign_setting (r.flag (codes "tc_sequential_download"))
        (λ v s. record s { sequential_download = v }) s5 in
    let s7 =
      assign_setting (r.int (codes "tc_download_limit")) (λ v s. record s { download_limit = v })
        s6 in
    let s8 =
      assign_setting (r.int (codes "tc_upload_limit")) (λ v s. record s { upload_limit = v }) s7 in
    let s9 =
      assign_setting (r.int (codes "tc_max_uploads")) (λ v s. record s { max_uploads = v }) s8 in
    let s10 =
      assign_setting (r.count (codes "tc_max_connections_per_torrent"))
        (λ v s. record s { max_connections_per_torrent = pos v }) s9 in
    let s11 =
      assign_setting (r.flag (codes "tc_partial_files_download"))
        (λ v s. record s { partial_files_download = v }) s10 in
    assign_setting (r.count (codes "tc_futures_timeout"))
      (λ v s. record s { torrent_add_timeout = v }) s11

-- set_session, which catches every exception of the standard library.
unfoldable pub set_session : SettingReader → M Bool
unfolding update_settings
set_session r s =
    let (t, ok) = update_settings r s.controller_settings in
    (record s { controller_settings = t }, returns ok)

-- The event handler hears of each file.
unfoldable pub emit_each : (Bytes → Event) → List FileInfo → M (Unit {0})
unfolding ◌>>=◌ emit
emit_each e [] = pure tt
emit_each e (fi ∷ flist) = do emit (e fi.path); emit_each e flist

module _ (lt : Libtorrent) (hasher : Bytes → ℕ) where
  unfoldable pub torrent_remove : ℕ → M (Unit {0})
  unfolding session_call
  torrent_remove h = session_call lt (session_remove_torrent h)

  unfoldable pub setup_torrent : ℕ → M (Unit {0})
  unfolding ◌>>=◌ call
  setup_torrent h = do
    s ← get_state
    let c = s.controller_settings
    if c.partial_files_download
        then call lt (prioritize_files h (replicate (length (lt.file_priorities s.calls h)) 0))
        else pure tt
    call lt (set_max_connections h c.max_connections_per_torrent)
    call lt (set_max_uploads h c.max_uploads)
    call lt (set_upload_limit h c.upload_limit)
    call lt (set_download_limit h c.download_limit)
    call lt (set_sequential_download h c.sequential_download)
    call lt (resolve_countries h c.resolve_countries)

  -- The loop of on_add_torrent over the files of the torrent. A file without bytes is a division by
  -- zero in file_info_add.
  unfoldable pub add_files : ℕ → ℕ → ℕ → List (Bytes × ℕ) → M (Unit {0})
  unfolding ◌>>=◌ save_path_of load store emit undefined_behaviour
  add_files h p index [] = pure tt
  add_files h p index ((path, size) ∷ files) = do
    ex ← load p
    save_path ← save_path_of lt h
    s ← get_state
    elim (file_info_add ex.avaliables_files (lt.map_file h index 0) (lt.map_file h index (size - 1))
        (lt.piece_length h) save_path path size index
        s.controller_settings.max_partial_download_size) [
          | none ↦ undefined_behaviour
          | some (flist, fi) ↦ do
            store p (record ex { avaliables_files = flist })
            emit (event_file_add fi.path fi.size)
            add_files h p (suc index) files
        ]

  -- scoped_future_release
  unfoldable pub change_status : ℕ → M (Unit {0})
  unfolding ◌>>=◌ load_future store_future
  change_status p = do
    future ← load_future p
    elim future [ none ↦ pure tt | some f ↦ store_future p (record f { status = true }) ]

  -- The handle that the future is given once the torrent is set up.
  unfoldable pub set_future_handle : ℕ → ℕ → M (Unit {0})
  unfolding ◌>>=◌ load_future store_future
  set_future_handle p h = do
    future ← load_future p
    elim future [ none ↦ pure tt | some f ↦ store_future p (record f { handle = h }) ]

  unfoldable pub on_add_torrent : Bool → ℕ → M (Unit {0})
  unfolding ◌>>=◌ save_path_of with_buffer load_future get_torrent_info_of leaving torrent_remove
      add_files change_status setup_torrent set_future_handle
  on_add_torrent error h = do
    s ← get_state
    if error || not (lt.is_valid s.calls h) then (do save_path_of lt h; pure tt) else (do
      path ← save_path_of lt h
      found ← with_buffer (λ b. get hasher b path)
      elim found [
        | none ↦ do save_path_of lt h; torrent_remove h
        | some p ↦ do
          future ← load_future p
          elim future [
            | none ↦ do save_path_of lt h; torrent_remove h
            | some _ ↦ do
              files ← get_torrent_info_of lt h
              add_files h p 0 files
              leaving (change_status p) (do setup_torrent h; set_future_handle p h)
          ]
      ])

  unfoldable pub on_pause : ℕ → M (Unit {0})
  unfolding ◌>>=◌ save_path_of with_buffer load emit_each torrent_remove
  on_pause h = do
    path ← save_path_of lt h
    found ← with_buffer (λ b. get hasher b path)
    elim found [
      | none ↦ do save_path_of lt h; torrent_remove h
      | some p ↦ do ex ← load p; emit_each event_pause ex.avaliables_files
    ]

  -- add_torrent, where `meanwhile` is what the loop of the core does until the wait ends: with the
  -- status that the future has then. scoped_future_promise_init resets the future at the end.
  unfoldable pub wait_for_torrent : M (Unit {0}) → ℕ → M Bool
  unfolding ◌>>=◌ load store load_future store_future session_call undefined_behaviour
  wait_for_torrent meanwhile p = do
    ex ← load p
    store_future p (record { status = false; handle = lt.no_handle })
    (do session_call lt (async_add_torrent ex.save_path); meanwhile)
    future ← load_future p
    elim future [
      | none ↦ undefined_behaviour
      | some f ↦
          if f.status
          then (do
            now_ex ← load p
            store p (record now_ex { handle = f.handle })
            s ← get_state
            pure (lt.is_valid s.calls f.handle))
          else pure false
    ]

  unfoldable pub add_torrent : M (Unit {0}) → ℕ → M Bool
  unfolding leaving wait_for_torrent erase_future
  add_torrent meanwhile p = leaving (erase_future p) (wait_for_torrent meanwhile p)
