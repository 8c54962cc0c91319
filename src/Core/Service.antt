-- ===== src/Core/Service.antt =====
-- src/core/torrent_core/torrent_core.cpp: the launch, the stop and the operations of the service, and
-- the loop that reads libtorrent's alerts. The files of the session's state are parameters, and the
-- warnings are not modelled. The lock orders the operations, which are taken one after another.
pub mod Loop
pub mod Sound
pub mod Files
pub mod Removal
pub mod Launch
pub mod Reachable
pub mod Operations
use t2h.Common.{
  ℕ, zero, suc, ◌+◌, leb, ltb, ◌==◌, Bool, true, false, not, ◌&&◌, ◌||◌, List, [], ◌∷◌, ◌++◌,
  Option, none, some, Bytes, codes, get_elem?, length, ℤ, pos, negsuc, leb_ℤ, ltb_ℤ, if◌then◌else◌,
}
use t2h.Torrent.Text.{Paths, initialize_f, torrent_info_to_json}
use t2h.Core.World.{
  Call, session_remove_torrent, post_torrent_updates, set_settings, load_state, save_state,
  start_lsd, start_upnp, start_natpmp, stop_dht, stop_lsd, stop_upnp, stop_natpmp, listen_on,
  file_priority, force_reannounce, resume_torrent, pause_torrent, Libtorrent, TorrentExInfo,
  CurState, service_running, service_stoped, TorrentCoreSettings, Core, Outcome, returns, threw,
  escaped, undefined, M, ◌>>=◌, ◌>>◌, pure, get_state, call, session_call, get_torrent_info_of,
  save_path_of, with_buffer, set_buffer, load, store, new_info, is_running, exception_safe,
}
use t2h.Core.Buffer.{get_usafe, add, remove, remove_usafe}
use t2h.Core.Controller.{SettingReader, assign_setting, set_session, add_torrent}
use t2h.Core.Controller

-- What the operations take from elsewhere: libtorrent, boost, the settings and the files.
pub record Platform : Type 0 where
  pub lt : Libtorrent
  pub hasher : Bytes → ℕ
  pub partial_sort : ℕ → List ℕ → List ℕ
  pub combine_path : Bytes → Bytes → Bytes
  pub lexical_cast : ℕ → Bytes
  pub reader : SettingReader
  pub exists : Bytes → Bool
  pub is_directory : Bytes → Bool
  pub absolute : Bytes → Bytes
  pub new_session : Bool
  pub load_file : Bytes → Option Bytes
  pub lazy_bdecode : Bytes → Bool
  pub listen_error : Bool → ℤ → ℤ → Bool

-- torrent_core::invalid_torrent_id, 0x1001
abbrev pub invalid_torrent_id : ℕ
invalid_torrent_id = 4097

-- details::file_info::normal_prior and off_prior
abbrev pub normal_prior : ℕ
normal_prior = 1

abbrev pub off_prior : ℕ
off_prior = 0

-- `info.num_files() > file_id && file_id >= 0`
unfoldable pub in_files : List (Bytes × ℕ) → ℤ → Bool
in_files files file_id = ltb_ℤ file_id (pos (length files)) && leb_ℤ (pos 0) file_id

-- info.file_at(file_id).path
unfoldable pub path_at : List (Bytes × ℕ) → ℤ → Bytes
path_at files (negsuc n) = []
path_at files (pos i) = elim (get_elem? files i) [ none ↦ [] | some (path, size) ↦ path ]

module _ (e : Platform) where
  -- init_torrent_core_settings: the settings after it, and whether they are valid.
  unfoldable pub init_torrent_core_settings : TorrentCoreSettings → TorrentCoreSettings × Bool
  unfolding assign_setting
  init_torrent_core_settings s0 = elim (e.reader.text (codes "tc_root")) [
    | none ↦ (s0, false)
    | some tc_root ↦
        if not (e.exists tc_root) && e.is_directory tc_root
        then (s0, false)
        else let s1 : TorrentCoreSettings × Bool =
            (record s0 { save_root = e.absolute tc_root }, true) in
          let s2 =
            assign_setting (e.reader.int (codes "tc_port_start"))
              (λ v s. record s { port_start = v }) s1 in
          let s3 =
            assign_setting (e.reader.int (codes "tc_port_end")) (λ v s. record s { port_end = v })
              s2 in
          let s4 =
            assign_setting (e.reader.int (codes "tc_max_alert_wait_time"))
              (λ v s. record s { max_alert_wait_time = v }) s3 in
          assign_setting (e.reader.flag (codes "tc_loadable_session"))
            (λ v s. record s { loadable_session = v }) s4
  ]

  unfoldable pub read_settings : M Bool
  unfolding init_torrent_core_settings
  read_settings s =
      let (t, ok) = init_torrent_core_settings s.settings in (record s { settings = t }, returns ok)

  -- The state of an earlier session: whether there was one, and the error code that is left. An empty
  -- file is read at its first byte, which throws std::out_of_range.
  unfoldable pub load_session_state : Bytes → M (Bool × Bool)
  unfolding ◌>>=◌ session_call
  load_session_state save_root =
      elim (e.load_file (e.combine_path save_root (codes ".torrent_core_state"))) [
        | none ↦ pure (false, true)
        | some [] ↦ (λ s. (s, escaped))
        | some (b ∷ bytes) ↦
            if e.lazy_bdecode (b ∷ bytes)
            then (do session_call e.lt load_state; pure (true, false))
            else pure (false, true)
      ]

  unfoldable pub init_core_session : M Bool
  unfolding ◌>>=◌ read_settings load_session_state session_call
  init_core_session = do
    ok ← read_settings
    s ← get_state
    if not ok || not s.settings.loadable_session then pure false else (do
      prev ← load_session_state s.settings.save_root
      session_call e.lt start_lsd
      session_call e.lt start_upnp
      session_call e.lt start_natpmp
      if prev.0 then pure tt else session_call e.lt set_settings
      session_call e.lt (listen_on s.settings.port_start s.settings.port_end)
      pure (not (e.listen_error prev.1 s.settings.port_start s.settings.port_end)))

  -- Both pointers deleted and null.
  unfoldable pub delete_all : M (Unit {0})
  delete_all s = (record s { session = false; shared_buffer = none }, returns tt)

  unfoldable pub delete_session : M (Unit {0})
  delete_session s = (record s { session = false }, returns tt)

  unfoldable pub new_all : M (Unit {0})
  new_all s = (record s { session = true; shared_buffer = some [] }, returns tt)

  unfoldable pub set_cur_state : CurState → M (Unit {0})
  set_cur_state c s = (record s { cur_state = c }, returns tt)

  -- The catch of launch_service.
  unfoldable pub launch_safe : M Bool → M Bool
  launch_safe m s =
      let (t, o) = m s in
      elim o [
        | returns b ↦ (t, returns b)
        | threw ↦ (record t { cur_state = service_stoped }, returns false)
        | escaped ↦ (t, escaped)
        | undefined ↦ (t, undefined)
      ]

  -- launch_service from the settings on, with both objects there.
  unfoldable pub start_session : M Bool
  unfolding ◌>>=◌ delete_all set_session init_core_session set_cur_state
  start_session = do
    accepted ← set_session e.reader
    if not accepted then (do delete_all; pure false) else (do
      listening ← init_core_session
      if not listening
          then (do delete_all; pure false)
          else (do set_cur_state service_running; pure true))

  unfoldable pub launch_service : M Bool
  unfolding ◌>>=◌ launch_safe new_all start_session
  launch_service = launch_safe (do
    s ← get_state
    if is_running s.cur_state
        then pure false
        else if not e.new_session
        then (λ t. (t, threw))
        else (do new_all; start_session))

  -- The loop of the session ends before the session is deleted.
  unfoldable pub stop_service : M (Unit {0})
  unfolding ◌>>=◌ session_call set_cur_state delete_session
  stop_service = do
    s ← get_state
    if not (is_running s.cur_state) then pure tt else (do
      if s.settings.loadable_session then session_call e.lt save_state else pure tt
      session_call e.lt stop_dht
      session_call e.lt stop_lsd
      session_call e.lt stop_upnp
      session_call e.lt stop_natpmp
      set_cur_state service_stoped
      session_call e.lt post_torrent_updates
      delete_session)

  -- What every operation begins with: it does nothing when the service does not run.
  unfoldable pub when_running : {A : Type 0} → A → M A → M A
  unfolding ◌>>=◌ exception_safe
  when_running a m =
      exception_safe a (do s ← get_state; if is_running s.cur_state then m else pure a)

  -- An operation on a torrent that is there.
  unfoldable pub on_torrent : {A : Type 0} → A → ℕ → (TorrentExInfo → M A) → M A
  unfolding ◌>>=◌ when_running with_buffer load
  on_torrent a torrent_id f = when_running a (do
    found ← with_buffer (λ b. get_usafe b torrent_id)
    elim found [ none ↦ pure a | some p ↦ do ex ← load p; f ex ])

  unfoldable pub get_torrent_info : ℕ → M Bytes
  unfolding ◌>>=◌ on_torrent torrent_info_to_json
  get_torrent_info torrent_id = on_torrent [] torrent_id (λ ex. do
    s ← get_state
    pure (
        torrent_info_to_json e.combine_path e.lexical_cast ex.save_path
          (e.lt.get_torrent_files s.calls ex.handle)))

  unfoldable pub start_torrent_download : ℕ → ℤ → M Bytes
  unfolding ◌>>=◌ on_torrent get_torrent_info_of call session_call in_files path_at
  start_torrent_download torrent_id file_id = on_torrent [] torrent_id (λ ex. do
    files ← get_torrent_info_of e.lt ex.handle
    if in_files files file_id
        then (do
          call e.lt (file_priority ex.handle file_id normal_prior)
          call e.lt (force_reannounce ex.handle)
          session_call e.lt post_torrent_updates
          now_files ← get_torrent_info_of e.lt ex.handle
          pure ((ex.sandbox_dir_name ++ codes "/") ++ path_at now_files file_id))
        else pure [])

  unfoldable pub pause_download : ℕ → ℤ → M (Unit {0})
  unfolding ◌>>=◌ on_torrent get_torrent_info_of call session_call in_files
  pause_download torrent_id file_id = on_torrent tt torrent_id (λ ex. do
    files ← get_torrent_info_of e.lt ex.handle
    if in_files files file_id
        then (do
          call e.lt (file_priority ex.handle file_id off_prior)
          session_call e.lt post_torrent_updates)
        else pure tt)

  unfoldable pub resume_download : ℕ → ℤ → M (Unit {0})
  unfolding ◌>>=◌ on_torrent get_torrent_info_of call session_call in_files
  resume_download torrent_id file_id = on_torrent tt torrent_id (λ ex. do
    files ← get_torrent_info_of e.lt ex.handle
    call e.lt (resume_torrent ex.handle)
    if in_files files file_id
        then (do
          call e.lt (file_priority ex.handle file_id normal_prior)
          session_call e.lt post_torrent_updates)
        else pure tt)

  unfoldable pub remove_torrent : ℕ → M (Unit {0})
  unfolding ◌>>=◌ on_torrent session_call with_buffer set_buffer
  remove_torrent torrent_id = on_torrent tt torrent_id (λ ex. do
    session_call e.lt (session_remove_torrent ex.handle)
    left ← with_buffer (λ b. remove_usafe b torrent_id)
    set_buffer left
    session_call e.lt post_torrent_updates)

  unfoldable pub stop_torrent_download : ℕ → M (Unit {0})
  unfolding ◌>>=◌ on_torrent call session_call
  stop_torrent_download torrent_id =
      on_torrent tt torrent_id
        (λ ex. do call e.lt (pause_torrent ex.handle); session_call e.lt post_torrent_updates)

  -- The addition by url is not written yet: it gives no torrent.
  unfoldable pub add_torrent_url : Bytes → M ℕ
  unfolding when_running
  add_torrent_url url = when_running invalid_torrent_id (pure invalid_torrent_id)
