-- ===== src/Api/Url.antt =====
-- src/core/external_api/external_api.cpp: what a caller is given for a file of a torrent.
use t2h.Common.{
  ℕ, ◌≤◌, ◌<◌, ◌==◌, ==_iff, Bool, true, false, List, [], ◌∷◌, ◌++◌, Option, none, some, Bytes,
  codes, find, assign, find-assign_same, ◌∙◌, length, pos, ◌≡◌, refl, ap,
}
use t2h.Handles.{get_handle}
use t2h.Settings.{SettingManager}
use t2h.Core.World.{
  Call, file_priority, force_reannounce, post_torrent_updates, Core, TorrentExInfo, returns,
  is_running, M,
}
use t2h.Core.Calls.{logged}
use t2h.Core.Service.{path_at, normal_prior, start_torrent_download}
use t2h.Core.Service.Files.{start_torrent_download_lem}
use t2h.Api.Start.{Environment, torrent_service, get_torrent_core, cast_value}
use t2h.Api.{
  UnderlyingInfo, UnderlyingHandle, Program, OnHandle, invalid_id, create_url, string_to_c_string,
  followed_by, with_core, with_info, get_info, keep_text, with_handle,
}
use t2h.Api.Functions.{with_url, t2h_start_download}
use t2h.Api.Sound.{with_state, with_core_lem}

-- The address of a file at the server.
abbrev pub address : (addr port path : Bytes) → Bytes
address addr port path = codes "http://" ++ (addr ++ (codes ":" ++ (port ++ (codes "/" ++ path))))

-- The handle with a text more in the memory of a torrent.
abbrev pub keeping : UnderlyingHandle → ℕ → UnderlyingInfo → Bytes → UnderlyingHandle
keeping h torrent_id info mem = record h {
  torrents =
      assign ◌==◌ torrent_id (record info { mem_collector = info.mem_collector ++ mem ∷ [] })
        h.torrents;
}

create_url_lem :
    (sets : SettingManager) (addr port sandbox path : Bytes)
    → cast_value (λ t. t) sets (codes "server_addr") ≡ some addr
    → cast_value (λ t. t) sets (codes "server_port") ≡ some port
    → create_url sets ((sandbox ++ codes "/") ++ path)
      ≡ some (address addr port ((sandbox ++ codes "/") ++ path))
unfolding create_url
create_url_lem sets addr port [] path a b = rw (a, create_url) (rw (b, create_url) refl)
create_url_lem sets addr port (c ∷ sandbox) path a b = rw (a, create_url) (rw (b, create_url) refl)

followed :
    {A B : Type 0} (m : OnHandle A) (f : A → OnHandle B) (h k : UnderlyingHandle) (a : A)
    → m h ≡ (k, returns a)
    → followed_by m f h ≡ f a k
unfolding followed_by
followed m f h k a e = rw (e, followed_by) (rw e refl)

informed :
    {A : Type 0} (i : ℕ) (a : A) (f : UnderlyingInfo → OnHandle A) (h : UnderlyingHandle)
    (info : UnderlyingInfo)
    → find ◌==◌ i h.torrents ≡ some info
    → with_info i a f h ≡ f info h
unfolding with_info get_info
informed i a f h info e = rw (e, with_info) refl

handled :
    {A : Type 0} (n : ℕ) (a : A) (f : OnHandle A) (s : Program) (h : UnderlyingHandle)
    → find ◌==◌ n s.handles ≡ some h
    → with_handle (pos n) a f s ≡ (record s { handles = assign ◌==◌ n (f h).0 s.handles }, (f h).1)
unfolding with_handle get_handle
handled n a f s h e = rw (e, with_handle) refl

module _ (env : Environment) (workaround : Bool) (s : Program) (n torrent_id p : ℕ)
    (h : UnderlyingHandle) (info : UnderlyingInfo) (c : Core) (torrents : List (ℕ × ℕ))
    (ex : TorrentExInfo) (in_use : find ◌==◌ n s.handles ≡ some h)
    (served : get_torrent_core h.core_handle ≡ some (torrent_service c))
    (valid : torrent_id == invalid_id ≡ false) (known : find ◌==◌ torrent_id h.torrents ≡ some info)
    (running : is_running c.cur_state ≡ true) (session : c.session ≡ true)
    (shared : c.shared_buffer ≡ some torrents) (there : find ◌==◌ info.tid torrents ≡ some p)
    (stored : find ◌==◌ p c.ex_infos ≡ some ex)
    (calm : (l : List Call) (k : Call) → env.platform.lt.throws l k ≡ false) where
  abbrev core_start : ℕ → M Bytes
  core_start k = start_torrent_download env.platform info.tid (pos k)

  -- The call, once the torrent core has done its part.
  after_core :
      (k : ℕ) (d : Core) (path : Bytes)
      → core_start k c ≡ (d, returns path)
      → t2h_start_download env workaround (pos n) torrent_id (pos k) s ≡ (
        record s {
          handles =
              assign ◌==◌ n
                (with_url env workaround s.sets torrent_id info path (with_state h d)).0
                s.handles;
        },
        (with_url env workaround s.sets torrent_id info path (with_state h d)).1,
      )
  unfolding t2h_start_download
  after_core k d path e =
      rw (valid, t2h_start_download)
        (handled n none body s h in_use
          ∙ ap (λ r. (record s { handles = assign ◌==◌ n r.0 s.handles }, r.1))
              (informed torrent_id none act h info known
                ∙ followed (with_core (core_start k))
                    (with_url env workaround s.sets torrent_id info) h (with_state h d) path
                    (with_core_lem (core_start k) h c served
                      ∙ ap (λ r. (with_state h r.0, r.1)) e)))
    where
      act : UnderlyingInfo → OnHandle (Option Bytes)
      act i =
          followed_by (with_core (start_torrent_download env.platform i.tid (pos k)))
            (with_url env workaround s.sets torrent_id i)

      body : OnHandle (Option Bytes)
      body = with_info torrent_id none act

  -- The torrent core behind the start of file k.
  abbrev pub downloading : ℕ → Core
  downloading k = logged post_torrent_updates (
      logged (force_reannounce ex.handle) (logged (file_priority ex.handle (pos k) normal_prior) c))

  abbrev pub file_path : List (Bytes × ℕ) → ℕ → Bytes
  file_path files k = (ex.sandbox_dir_name ++ codes "/") ++ path_at files (pos k)

  kept :
      (d : Core) (addr port : Bytes) (files : List (Bytes × ℕ)) (k : ℕ)
      → cast_value (λ t. t) s.sets (codes "server_addr") ≡ some addr
      → cast_value (λ t. t) s.sets (codes "server_port") ≡ some port
      → with_url env workaround s.sets torrent_id info (file_path files k) (with_state h d) ≡ (
        keeping (with_state h d) torrent_id info (address addr port (file_path files k) ++ 0 ∷ []),
        returns (some (address addr port (file_path files k) ++ 0 ∷ [])),
      )
  unfolding with_url keep_text string_to_c_string
  kept d addr port files k a b =
      rw (create_url_lem s.sets addr port ex.sandbox_dir_name (path_at files (pos k)) a b, with_url)
        refl

  nothing_kept :
      (d : Core)
      → with_url env workaround s.sets torrent_id info [] (with_state h d)
        ≡ (with_state h d, returns none)
  unfolding with_url create_url keep_text string_to_c_string
  nothing_kept d = refl

  -- The start of a download through a handle that is in use, for a torrent that it knows and its running
  -- core has, with an address and a port in the settings, files that libtorrent keeps and no exception
  -- of libtorrent. For the number of a file the core sets the file's priority, announces the torrent and
  -- posts the update, and the caller is given http://address:port/sandbox/file and a zero behind it,
  -- which the handle keeps with the torrent's other texts. For a number that is too large the caller is
  -- given a null pointer, and the handle is as it was.
  pub t2h_start_download_lem :
      (addr port : Bytes) (files : List (Bytes × ℕ)) (k : ℕ)
      → cast_value (λ t. t) s.sets (codes "server_addr") ≡ some addr
      → cast_value (λ t. t) s.sets (codes "server_port") ≡ some port
      → ((l : List Call) → env.platform.lt.get_torrent_files l ex.handle ≡ some files)
      → let r = t2h_start_download env workaround (pos n) torrent_id (pos k) s in
        (k < length files
          → (r.1 ≡ returns (some (address addr port (file_path files k) ++ 0 ∷ [])))
            × (find ◌==◌ n r.0.handles
                ≡ some (
                    keeping
                      (with_state h (downloading k))
                      torrent_id
                      info
                      (address addr port (file_path files k) ++ 0 ∷ []))))
        × (length files ≤ k
            → (r.1 ≡ returns none) × (find ◌==◌ n r.0.handles ≡ some (with_state h c)))
  t2h_start_download_lem addr port files k a b lists =
      let started =
        start_torrent_download_lem env.platform info.tid p c torrents ex running session shared
          there stored calm files k lists in
      (
        λ l. rw (after_core k (downloading k) (file_path files k) (started.1.1 l)) (
            rw (kept (downloading k) addr port files k a b)
              (refl, find-assign_same ◌==◌ ==_iff n _ s.handles)),
        λ l.
            rw (after_core k c [] (started.1.0 l))
              (rw (nothing_kept c) (refl, find-assign_same ◌==◌ ==_iff n _ s.handles)),
      )
