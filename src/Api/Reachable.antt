-- ===== src/Api/Reachable.antt =====
-- src/core/external_api/t2h.h: the exported functions in any order from the start of the program on.
use t2h.Common.{
  ℕ, ◌+◌, ◌==◌, size, Bool, List, Option, none, some, Bytes, find, ℤ, pos, negsuc, if◌then◌else◌,
  ◌≡◌, ◌≢◌, refl, Bool-cases, Option-cases, inl, inr, ◌⊎◌, arith,
}
use t2h.Torrent.Text.{Paths}
use t2h.Settings.{SettingManager}
use t2h.Core.World.{Outcome, returns, threw, escaped, undefined, pure}
use t2h.Core.Resolvers.{Resolvers}
use t2h.Core.Safety.Handlers.{HasBytes}
use t2h.Core.Safety.Rules.{pure-IsSafe}
use t2h.Core.Service.{invalid_torrent_id, add_torrent_url}
use t2h.Core.Service.Loop.{Round}
use t2h.Core.Service.Reachable.{add_torrent-IsSoundly}
use t2h.Core.Service.Sound.{
  when_running-IsSoundly, get_torrent_info-IsSoundly, start_torrent_download-IsSoundly,
  pause_download-IsSoundly, resume_download-IsSoundly, remove_torrent-IsSoundly,
  stop_torrent_download-IsSoundly,
}
use t2h.Api.Start.{Environment}
use t2h.Api.{
  UnderlyingInfo, UnderlyingHandle, Program, OnHandle, invalid_id, add_info, remove_info, give,
  keep_text, create_url, with_info, with_handle, on_torrent, on_file,
}
use t2h.Api.Functions.{
  with_url, add_handle_info, t2h_wait, t2h_add_torrent, t2h_add_torrent_url, t2h_get_torrent_files,
  t2h_start_download, t2h_paused_download, t2h_resume_download, t2h_delete_torrent,
  t2h_stop_download,
}
use t2h.Api.Sound.{
  IsOpen, IsKeeping, same_core, with_core-IsKeeping, followed_by-IsKeeping, give-IsKeeping,
  with_info-IsKeeping, keep_text-IsKeeping, with_handle-IsOpen, with_handle-defined, Knows, IsFine,
}
use t2h.Api.Init.{init-IsOpen}
use t2h.Api.Calls.{
  ApiCall, init, close, wait, add, add_url, files, delete, stop_download, start, paused, resume,
  ended, no_handles, run, Reached, begun, called, handle_of, IsStart,
}
use t2h.Api.Closing.{close-IsFine}

module _ (env : Environment) (workaround : Bool) where
  add_info-core :
      (h : UnderlyingHandle) (tid : ℕ) → (add_info workaround h tid).0.core_handle ≡ h.core_handle
  unfolding add_info
  add_info-core h tid =
      elim (Option-cases
        (find ◌==◌ (if workaround then size ◌==◌ h.torrents + 1 else tid) h.torrents)) [
          | inl e ↦ rw (e, add_info) refl
          | inr (x, e) ↦ rw (e, add_info) refl
        ]

  add_handle_info-IsKeeping : (tid : ℕ) → IsKeeping (add_handle_info env workaround tid)
  unfolding add_handle_info
  add_handle_info-IsKeeping tid = elim (Bool-cases (tid == invalid_torrent_id)) [
    | inl e ↦ record {
      usable = λ h u. rw (e, add_handle_info) u;
      defined = λ h u. rw (e, add_handle_info) (λ d. cc);
    }
    | inr e ↦ record {
      usable = λ h u.
          rw (e, add_handle_info)
            (same_core h (add_info workaround h tid).0 (add_info-core h tid) u);
      defined = λ h u. rw (e, add_handle_info) (λ d. cc);
    }
  ]

  with_url-IsKeeping :
      (sets : SettingManager) (i : ℕ) (info : UnderlyingInfo) (path : Bytes)
      → IsKeeping (with_url env workaround sets i info path)
  unfolding with_url
  with_url-IsKeeping sets i info path = elim (Option-cases (create_url sets path)) [
    | inl e ↦ record {
      usable = λ h u. rw (e, with_url) u;
      defined = λ h u. rw (e, with_url) (λ d. cc);
    }
    | inr (url, e) ↦ record {
      usable = λ h u. rw (e, with_url) ((keep_text-IsKeeping i info url).usable h u);
      defined = λ h u. rw (e, with_url) ((keep_text-IsKeeping i info url).defined h u);
    }
  ]

  removal-IsKeeping : (i : ℕ) → IsKeeping (λ h. (remove_info h i, returns tt))
  unfolding remove_info
  removal-IsKeeping i = record { usable = λ h u. same_core h _ refl u; defined = λ h u d. cc }

  -- What a function over a handle, a torrent and a file does.
  handle-IsFine :
      {A : Type 0} (handle : ℤ) (a : A) (f : OnHandle A)
      → IsKeeping f
      → IsFine (with_handle handle a f) handle
  handle-IsFine handle a f k s o =
      (with_handle-IsOpen handle a f s k o, with_handle-defined handle a f s k o)

  torrent-IsFine :
      {A : Type 0} (handle : ℤ) (i : ℕ) (a : A) (f : UnderlyingInfo → OnHandle A)
      → ((info : UnderlyingInfo) → IsKeeping (f info))
      → IsFine (on_torrent handle i a f) handle
  torrent-IsFine handle i a f k s o = elim (Bool-cases (i == invalid_id)) [
    | inl e ↦ rw e (o, λ g d. cc)
    | inr e ↦ rw e (handle-IsFine handle a (with_info i a f) (with_info-IsKeeping i a f k) s o)
  ]

  file-IsFine :
      {A : Type 0} (handle : ℤ) (i : ℕ) (file_id : ℤ) (a : A) (f : UnderlyingInfo → OnHandle A)
      → ((info : UnderlyingInfo) → IsKeeping (f info))
      → IsFine (on_file handle i file_id a f) handle
  file-IsFine handle i (negsuc n) a f k s o = (o, λ g d. cc)
  file-IsFine handle i (pos n) a f k s o = torrent-IsFine handle i a f k s o

  ended-IsFine : {A : Type 0} (r : Program × Outcome A) → r.1 ≢ undefined → (ended r).1 ≢ undefined
  unfolding ended
  ended-IsFine (s, returns a) d = λ e. cc
  ended-IsFine (s, threw) d = λ e. cc
  ended-IsFine (s, escaped) d = λ e. cc
  ended-IsFine (s, undefined) d = absurd (d refl)

  module _ (b : HasBytes env.platform.lt) where
    add-IsFine :
        (resolvers : Resolvers) (now : ℕ) (paths : Paths) (rounds : List Round) (handle : ℤ)
        (path : Option Bytes)
        → IsFine (t2h_add_torrent env workaround resolvers now paths rounds handle path) handle
    unfolding t2h_add_torrent
    add-IsFine resolvers now paths rounds handle none s o = (o, λ g d. cc)
    add-IsFine resolvers now paths rounds handle (some path) s o =
        handle-IsFine handle invalid_id _
          (followed_by-IsKeeping _ (add_handle_info env workaround)
            (with_core-IsKeeping _
              (add_torrent-IsSoundly env.platform resolvers b now paths rounds path))
            add_handle_info-IsKeeping)
          s o

    add_url-IsFine :
        (handle : ℤ) (url : Option Bytes)
        → IsFine (t2h_add_torrent_url env workaround handle url) handle
    unfolding t2h_add_torrent_url add_torrent_url
    add_url-IsFine handle none s o = (o, λ g d. cc)
    add_url-IsFine handle (some url) s o =
        handle-IsFine handle invalid_id _
          (followed_by-IsKeeping _ (add_handle_info env workaround)
            (with_core-IsKeeping _ (λ c k.
              when_running-IsSoundly env.platform invalid_torrent_id (pure invalid_torrent_id) c
                (pure-IsSafe invalid_torrent_id) k))
            add_handle_info-IsKeeping)
          s o

    call-IsFine :
        (call : ApiCall) (s : Program)
        → IsOpen s
        → IsOpen (run env workaround call s).0
          × (IsStart call
              ⊎ ((Knows s (handle_of call)) → (run env workaround call s).1 ≢ undefined))
    unfolding run ended t2h_wait t2h_get_torrent_files t2h_start_download t2h_paused_download
        t2h_resume_download t2h_delete_torrent t2h_stop_download
    call-IsFine (init config load_from_file) s o =
        (init-IsOpen env workaround config load_from_file s o, inl tt)
    call-IsFine (close handle) s o =
        let (k, d) = close-IsFine env workaround handle s o in (k, inr d)
    call-IsFine (wait handle) s o =
        let (k, d) = handle-IsFine handle tt (give tt) (give-IsKeeping tt) s o in (k, inr d)
    call-IsFine (add resolvers now paths rounds handle path) s o =
        let (k, d) = add-IsFine resolvers now paths rounds handle path s o in
        (
          k,
          inr (λ g.
              ended-IsFine (t2h_add_torrent env workaround resolvers now paths rounds handle path s)
                (d g)),
        )
    call-IsFine (add_url handle url) s o =
        let (k, d) = add_url-IsFine handle url s o in
        (k, inr (λ g. ended-IsFine (t2h_add_torrent_url env workaround handle url s) (d g)))
    call-IsFine (files handle i) s o =
        let (k, d) =
          torrent-IsFine handle i none _
            (λ info.
              followed_by-IsKeeping _ (keep_text i info)
                (with_core-IsKeeping _ (get_torrent_info-IsSoundly env.platform info.tid))
                (keep_text-IsKeeping i info))
            s o in
        (k, inr (λ g. ended-IsFine (t2h_get_torrent_files env workaround handle i s) (d g)))
    call-IsFine (delete handle i) s o =
        let (k, d) =
          torrent-IsFine handle i tt _
            (λ info.
              followed_by-IsKeeping _ _
                (with_core-IsKeeping _ (remove_torrent-IsSoundly env.platform info.tid))
                (λ _. removal-IsKeeping (if workaround then i else info.tid)))
            s o in
        (k, inr d)
    call-IsFine (stop_download handle i) s o =
        let (k, d) =
          torrent-IsFine handle i tt _
            (λ info. with_core-IsKeeping _ (stop_torrent_download-IsSoundly env.platform info.tid))
            s o in
        (k, inr d)
    call-IsFine (start handle i file_id) s o =
        let (k, d) =
          file-IsFine handle i file_id none _
            (λ info.
              followed_by-IsKeeping _ (with_url env workaround s.sets i info)
                (with_core-IsKeeping _
                  (start_torrent_download-IsSoundly env.platform info.tid file_id))
                (with_url-IsKeeping s.sets i info))
            s o in
        (k, inr (λ g. ended-IsFine (t2h_start_download env workaround handle i file_id s) (d g)))
    call-IsFine (paused handle i file_id) s o =
        let (k, d) =
          file-IsFine handle i file_id tt _
            (λ info. with_core-IsKeeping _ (pause_download-IsSoundly env.platform info.tid file_id))
            s o in
        (k, inr d)
    call-IsFine (resume handle i file_id) s o =
        let (k, d) =
          file-IsFine handle i file_id tt _
            (λ info.
              with_core-IsKeeping _ (resume_download-IsSoundly env.platform info.tid file_id))
            s o in
        (k, inr d)

    -- In every state that a program comes to by calls of the library, however each ended, every handle
    -- has its torrent core, which is sound, and a call with a handle that is in use, or with a negative
    -- one, does nothing undefined. A start is not among these calls. The condition is that the files of
    -- the torrents have bytes and their pieces a length.
    pub Reached-IsOpen :
        (s : Program)
        → Reached env workaround s
        → IsOpen s
          × ((call : ApiCall)
              → IsStart call
                ⊎ (Knows s (handle_of call) → (run env workaround call s).1 ≢ undefined))
    unfolding find
    Reached-IsOpen s r = let o = opened s r in (o, λ call. (call-IsFine call s o).1)
      where
        empty : (n : ℕ) (h : UnderlyingHandle) → find ◌==◌ n no_handles ≡ some h → ⊥
        empty n h e = ground (arith, e)

        opened : (s : Program) → Reached env workaround s → IsOpen s
        opened _ begun = λ n h e. absurd (empty n h e)
        opened _ (called call s r) = (call-IsFine call s (opened s r)).0
