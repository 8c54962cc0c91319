-- ===== src/Core/Service/Files.antt =====
-- src/core/torrent_core/torrent_core.cpp: the start of a download by the number of its file.
use t2h.Common.{
  ℕ, ◌≤◌, ◌<◌, ◌==◌, true, false, List, [], ◌++◌, some, Bytes, codes, find, length, ℤ, pos, negsuc,
  if◌then◌else◌, ◌≡◌, refl, ◌∙◌, arith,
}
use t2h.Core.World.{
  Call, file_priority, force_reannounce, post_torrent_updates, Core, TorrentExInfo, returns, M,
  ◌>>=◌, ◌>>◌, pure, get_torrent_info_of, call, session_call, is_running,
}
use t2h.Core.Service.{Platform, in_files, path_at, normal_prior, start_torrent_download}
use t2h.Core.Calls.{logged, bind_returns, call_returns, session_call_returns, on_torrent_returns}

module _ (e : Platform) (i p : ℕ) (s : Core) (torrents : List (ℕ × ℕ)) (ex : TorrentExInfo)
    (running : is_running s.cur_state ≡ true) (session : s.session ≡ true)
    (shared : s.shared_buffer ≡ some torrents) (there : find ◌==◌ i torrents ≡ some p)
    (stored : find ◌==◌ p s.ex_infos ≡ some ex)
    (calm : (c : List Call) (k : Call) → e.lt.throws c k ≡ false) where
  info_returns :
      (files : List (Bytes × ℕ)) (t : Core)
      → e.lt.get_torrent_files t.calls ex.handle ≡ some files
      → get_torrent_info_of e.lt ex.handle t ≡ (t, returns files)
  unfolding get_torrent_info_of
  info_returns files t k = rw (k, get_torrent_info_of) refl

  started_file :
      (files : List (Bytes × ℕ)) (file_id : ℤ)
      → ((c : List Call) → e.lt.get_torrent_files c ex.handle ≡ some files)
      → (in_files files file_id ≡ false → start_torrent_download e i file_id s ≡ (s, returns []))
        × (in_files files file_id ≡ true
            → start_torrent_download e i file_id s ≡ (
              logged post_torrent_updates (
                  logged
                    (force_reannounce ex.handle)
                    (logged (file_priority ex.handle file_id normal_prior) s)),
              returns ((ex.sandbox_dir_name ++ codes "/") ++ path_at files file_id),
            ))
  unfolding start_torrent_download
  started_file files file_id known = (
    λ g. on_torrent_returns e [] [] i p act s s torrents ex running shared there stored (
        bind_returns (get_torrent_info_of e.lt ex.handle) choice s s files
          (info_returns files s (known s.calls))
        ∙ rw g refl),
    λ g. on_torrent_returns e [] name i p act s s3 torrents ex running shared there stored (
        bind_returns (get_torrent_info_of e.lt ex.handle) choice s s files
          (info_returns files s (known s.calls))
        ∙ rw g worked),
  )
    where
      s1 : Core
      s1 = logged (file_priority ex.handle file_id normal_prior) s

      s2 : Core
      s2 = logged (force_reannounce ex.handle) s1

      s3 : Core
      s3 = logged post_torrent_updates s2

      name : Bytes
      name = (ex.sandbox_dir_name ++ codes "/") ++ path_at files file_id

      ending : List (Bytes × ℕ) → M Bytes
      ending now_files = pure ((ex.sandbox_dir_name ++ codes "/") ++ path_at now_files file_id)

      last : M Bytes
      last = get_torrent_info_of e.lt ex.handle >>= ending

      rest : M Bytes
      rest =
          call e.lt (force_reannounce ex.handle) >> (session_call e.lt post_torrent_updates >> last)

      work : M Bytes
      work = call e.lt (file_priority ex.handle file_id normal_prior) >> rest

      choice : List (Bytes × ℕ) → M Bytes
      choice fs = if in_files fs file_id then work else pure []

      act : TorrentExInfo → M Bytes
      act x = get_torrent_info_of e.lt x.handle >>= λ fs.
          if in_files fs file_id
          then (do
            call e.lt (file_priority x.handle file_id normal_prior)
            call e.lt (force_reannounce x.handle)
            session_call e.lt post_torrent_updates
            now_files ← get_torrent_info_of e.lt x.handle
            pure ((x.sandbox_dir_name ++ codes "/") ++ path_at now_files file_id))
          else pure []

      worked : work s ≡ (s3, returns name)
      worked =
          bind_returns (call e.lt (file_priority ex.handle file_id normal_prior)) (λ _. rest) s s1
            tt
            (call_returns e.lt (file_priority ex.handle file_id normal_prior) s
              (calm s.calls (file_priority ex.handle file_id normal_prior)))
          ∙ bind_returns (call e.lt (force_reannounce ex.handle))
              (λ _. session_call e.lt post_torrent_updates >> last) s1 s2 tt
              (call_returns e.lt (force_reannounce ex.handle) s1
                (calm s1.calls (force_reannounce ex.handle)))
          ∙ bind_returns (session_call e.lt post_torrent_updates) (λ _. last) s2 s3 tt
              (session_call_returns e.lt post_torrent_updates s2 session
                (calm s2.calls post_torrent_updates))
          ∙ bind_returns (get_torrent_info_of e.lt ex.handle) ending s3 s3 files
              (info_returns files s3 (known s3.calls))

  -- The start of a download, for a service that runs and has the torrent, and a libtorrent that throws
  -- nothing and keeps the files. A number from 0 to below the number of files sets that file's priority,
  -- announces the torrent and posts the update, in this order and nothing else, and gives the path of
  -- the file inside the sandbox; a number that is negative or too large calls nothing and gives no path.
  pub start_torrent_download_lem :
      (files : List (Bytes × ℕ)) (k : ℕ)
      → ((c : List Call) → e.lt.get_torrent_files c ex.handle ≡ some files)
      → (start_torrent_download e i (negsuc k) s ≡ (s, returns []))
        × ((length files ≤ k → start_torrent_download e i (pos k) s ≡ (s, returns []))
            × (k < length files
                → start_torrent_download e i (pos k) s ≡ (
                  logged post_torrent_updates (
                      logged
                        (force_reannounce ex.handle)
                        (logged (file_priority ex.handle (pos k) normal_prior) s)),
                  returns ((ex.sandbox_dir_name ++ codes "/") ++ path_at files (pos k)),
                )))
  unfolding in_files
  start_torrent_download_lem files k known = (
    (started_file files (negsuc k) known).0 (ground arith),
    (
      λ l. (started_file files (pos k) known).0 (ground (arith, l)),
      λ l. (started_file files (pos k) known).1 (ground (arith, l)),
    ),
  )
