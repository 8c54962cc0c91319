-- ===== src/Api/Functions.antt =====
-- src/core/external_api/external_api.cpp: the exported functions, over an environment and with whether
-- T2H_INT_WORKAROUND is defined.
use t2h.Common.{
  ℕ, ◌==◌, Bool, true, false, List, [], Option, none, some, Bytes, ℤ, pos, negsuc, if◌then◌else◌,
}
use t2h.Settings.{SettingManager}
use t2h.Handles.{registr_new_handle, unregistr_handle}
use t2h.Torrent.Text.{Paths}
use t2h.Core.World.{Outcome, returns, threw, escaped, undefined}
use t2h.Core.Resolvers.{Resolvers}
use t2h.Core.Service.{
  invalid_torrent_id, get_torrent_info, start_torrent_download, pause_download, resume_download,
  remove_torrent, stop_torrent_download, add_torrent_url,
}
use t2h.Core.Service.Loop.{Round, add_torrent}
use t2h.Api.Start.{Environment, initialize, destroy}
use t2h.Api.{
  OnHandle, Program, UnderlyingInfo, add_info, create_url, followed_by, give, invalid_handle,
  invalid_id, keep_text, on_file, on_torrent, remove_info, with_core, with_handle, with_info,
}

module _ (env : Environment) (workaround : Bool) where
  -- t2h_init_; `none` is a null pointer.
  unfoldable pub t2h_init_ : Option Bytes → Bool → Program → Program × Outcome ℤ
  unfolding initialize registr_new_handle
  t2h_init_ none load_from_file s = (s, returns invalid_handle)
  t2h_init_ (some config) load_from_file s =
      let (sets, o) = initialize env load_from_file config s.sets in
      let t : Program = record s { sets = sets } in
      elim o [
        | returns made ↦ elim made [
          | none ↦ (t, returns invalid_handle)
          | some core_handle ↦
              let (handles, id) =
                registr_new_handle s.handles
                  (record { core_handle = core_handle; torrents = [] }) in
              (record t { handles = handles }, returns (pos id))
        ]
        | threw ↦ (t, threw)
        | escaped ↦ (t, escaped)
        | undefined ↦ (t, undefined)
      ]

  unfoldable pub t2h_init : Option Bytes → Program → Program × Outcome ℤ
  unfolding t2h_init_
  t2h_init config = t2h_init_ config false

  unfoldable pub t2h_init_2 : Option Bytes → Program → Program × Outcome ℤ
  unfolding t2h_init_
  t2h_init_2 file_path = t2h_init_ file_path true

  unfoldable pub t2h_close : ℤ → Program → Program × Outcome (Unit {0})
  unfolding unregistr_handle destroy
  t2h_close (negsuc n) s = (s, returns tt)
  t2h_close (pos n) s =
      let (handles, found) = unregistr_handle s.handles n in
      elim found [
        | none ↦ (s, undefined)
        | some h ↦
            let (table, o) = destroy env h.core_handle s.table in
            (record s { handles = handles; table = table }, o)
      ]

  -- It returns once the services have been stopped.
  unfoldable pub t2h_wait : ℤ → Program → Program × Outcome (Unit {0})
  unfolding with_handle
  t2h_wait handle = with_handle handle tt (give tt)

  -- What both additions do with the torrent's number.
  unfoldable pub add_handle_info : ℕ → OnHandle ℕ
  unfolding add_info
  add_handle_info tid h =
      if tid == invalid_torrent_id
      then (h, returns invalid_id)
      else let (k, id) = add_info workaround h tid in (k, returns id)

  unfoldable pub t2h_add_torrent :
      Resolvers → ℕ → Paths → List Round → ℤ → Option Bytes → Program → Program × Outcome ℕ
  unfolding with_handle with_core followed_by add_handle_info add_torrent
  t2h_add_torrent resolvers now paths rounds handle none s = (s, returns invalid_id)
  t2h_add_torrent resolvers now paths rounds handle (some path) s =
      with_handle handle invalid_id
        (followed_by (with_core (add_torrent env.platform resolvers now paths rounds path))
          add_handle_info)
        s

  unfoldable pub t2h_add_torrent_url : ℤ → Option Bytes → Program → Program × Outcome ℕ
  unfolding with_handle with_core followed_by add_handle_info add_torrent_url
  t2h_add_torrent_url handle none s = (s, returns invalid_id)
  t2h_add_torrent_url handle (some url) s =
      with_handle handle invalid_id
        (followed_by (with_core (add_torrent_url env.platform url)) add_handle_info) s

  unfoldable pub t2h_get_torrent_files : ℤ → ℕ → Program → Program × Outcome (Option Bytes)
  unfolding with_handle with_info with_core followed_by keep_text get_torrent_info
  t2h_get_torrent_files handle torrent_id = on_torrent handle torrent_id none λ info.
      followed_by (with_core (get_torrent_info env.platform info.tid)) (keep_text torrent_id info)

  -- The settings are those of the whole program, which the torrent core does not change.
  unfoldable pub with_url : SettingManager → ℕ → UnderlyingInfo → Bytes → OnHandle (Option Bytes)
  unfolding create_url keep_text
  with_url sets torrent_id info path h = elim (create_url sets path) [
    | none ↦ (h, escaped)
    | some url ↦ keep_text torrent_id info url h
  ]

  unfoldable pub t2h_start_download : ℤ → ℕ → ℤ → Program → Program × Outcome (Option Bytes)
  unfolding with_handle with_info with_core followed_by with_url start_torrent_download
  t2h_start_download handle torrent_id file_id s =
      on_file handle torrent_id file_id none
        (λ info.
          followed_by (with_core (start_torrent_download env.platform info.tid file_id))
            (with_url s.sets torrent_id info))
        s

  unfoldable pub t2h_paused_download : ℤ → ℕ → ℤ → Program → Program × Outcome (Unit {0})
  unfolding with_handle with_info with_core pause_download
  t2h_paused_download handle torrent_id file_id =
      on_file handle torrent_id file_id tt
        λ info. with_core (pause_download env.platform info.tid file_id)

  unfoldable pub t2h_resume_download : ℤ → ℕ → ℤ → Program → Program × Outcome (Unit {0})
  unfolding with_handle with_info with_core resume_download
  t2h_resume_download handle torrent_id file_id =
      on_file handle torrent_id file_id tt
        λ info. with_core (resume_download env.platform info.tid file_id)

  unfoldable pub t2h_delete_torrent : ℤ → ℕ → Program → Program × Outcome (Unit {0})
  unfolding with_handle with_info with_core followed_by remove_info remove_torrent
  t2h_delete_torrent handle torrent_id = on_torrent handle torrent_id tt λ info.
      followed_by (with_core (remove_torrent env.platform info.tid))
        λ _ h. (remove_info h (if workaround then torrent_id else info.tid), returns tt)

  unfoldable pub t2h_stop_download : ℤ → ℕ → Program → Program × Outcome (Unit {0})
  unfolding with_handle with_info with_core stop_torrent_download
  t2h_stop_download handle torrent_id =
      on_torrent handle torrent_id tt
        λ info. with_core (stop_torrent_download env.platform info.tid)
