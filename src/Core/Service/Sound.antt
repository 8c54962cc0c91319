-- ===== src/Core/Service/Sound.antt =====
-- src/core/torrent_core/torrent_core.cpp: the operations keep what a running service needs, in any order
-- in which they are called.
use t2h.Common.{
  ℕ, Bool, true, false, ◌++◌, codes, [], ◌∷◌, Option, none, some, Bytes, ℤ, if◌then◌else◌, ◌≡◌,
  refl, arith,
}
use t2h.Torrent.Text.{torrent_info_to_json}
use t2h.Core.World.{
  Core, TorrentExInfo, escaped, M, ◌>>=◌, pure, get_state, exception_safe, is_running, session_call,
  file_priority, force_reannounce, resume_torrent, pause_torrent, session_remove_torrent,
  load_state, post_torrent_updates,
}
use t2h.Core.Buffer.{get_usafe, remove_usafe}
use t2h.Core.Controller.{set_session}
use t2h.Core.Service.{
  Platform, read_settings, load_session_state, when_running, on_torrent, get_torrent_info,
  start_torrent_download, pause_download, resume_download, remove_torrent, stop_torrent_download,
  in_files, path_at, normal_prior, off_prior,
}
use t2h.Core.Safety.{IsStored, IsLive, Any}
use t2h.Core.Safety.Steps.{Found, Inside, erase-Inside}
use t2h.Core.Safety.Rules.{
  IsSafe, more-IsSafe, if-IsSafe, state-IsSafe, option-IsSafe, bind-IsSafe, next-IsSafe,
  pure-IsSafe, exception_safe-IsSafe, session_call-IsSafe, buffer-IsSafe, set_buffer-IsSafe,
  load-IsSafe, call-IsSafe, get_torrent_info_of-IsSafe,
}
use t2h.Core.Safety.Calm.{IsSoundly, done-IsSoundly}

-- The pointers are there, and a service that runs has its session and its buffer.
pub record IsSound (s : Core) : Type 0 where
  pub stored : IsStored s
  pub live : is_running s.cur_state ≡ true → IsLive s

module _ (e : Platform) where
  -- An operation that does nothing unless the service runs.
  pub when_running-IsSoundly :
      {A : Type 0} (a : A) (m : M A) (s : Core)
      → IsSafe false 0 Any m
      → IsSound s
      → IsSoundly (when_running e a m s)
  unfolding when_running exception_safe ◌>>=◌ get_state
  when_running-IsSoundly {A} a m s hm h = go (is_running s.cur_state) refl
    where
      go :
          (b : Bool)
          → is_running s.cur_state ≡ b
          → IsSoundly (exception_safe a (if b then m else pure a) s)
      go true g =
          done-IsSoundly s (exception_safe a m)
            ((exception_safe-IsSafe a hm).run s (h.live g) (omega arith))
      go false g = record {
        stored = h.stored;
        live = λ r. absurd (ground (arith, g, r));
        defined = λ r. cc;
      }

  pub on_torrent-IsSoundly :
      {A : Type 0} (a : A) (i : ℕ) (f : TorrentExInfo → M A)
      → ((ex : TorrentExInfo) → IsSafe false 0 Any (f ex))
      → (s : Core) → IsSound s
      → IsSoundly (on_torrent e a i f s)
  unfolding on_torrent get_usafe
  on_torrent-IsSoundly a i f hf s h =
      when_running-IsSoundly a _ s
        (bind-IsSafe (buffer-IsSafe {Q = Found} (λ b. get_usafe b i) (λ b j g p k. g i p k))
          (λ o j l q.
            option-IsSafe o (pure-IsSafe a) (λ p k.
              next-IsSafe (load-IsSafe p (q p k)) (λ ex. more-IsSafe (omega arith) (hf ex)))))
        h

  pub posted-IsSafe : {n : ℕ} → IsSafe false n Any (session_call e.lt post_torrent_updates)
  posted-IsSafe = session_call-IsSafe e.lt post_torrent_updates

  pub get_torrent_info-IsSoundly :
      (i : ℕ) (s : Core) → IsSound s → IsSoundly (get_torrent_info e i s)
  unfolding get_torrent_info
  get_torrent_info-IsSoundly i s h =
      on_torrent-IsSoundly [] i _
        (λ ex. state-IsSafe (λ t. pure-IsSafe (
          torrent_info_to_json e.combine_path e.lexical_cast ex.save_path
            (e.lt.get_torrent_files t.calls ex.handle))))
        s h

  pub start_torrent_download-IsSoundly :
      (i : ℕ) (file_id : ℤ) (s : Core)
      → IsSound s
      → IsSoundly (start_torrent_download e i file_id s)
  unfolding start_torrent_download
  start_torrent_download-IsSoundly i file_id s h =
      on_torrent-IsSoundly [] i _
        (λ ex. next-IsSafe (get_torrent_info_of-IsSafe e.lt ex.handle) (λ files.
          if-IsSafe (in_files files file_id)
            (next-IsSafe (call-IsSafe e.lt (file_priority ex.handle file_id normal_prior)) (λ _.
              next-IsSafe (call-IsSafe e.lt (force_reannounce ex.handle)) (λ _.
                next-IsSafe posted-IsSafe (λ _.
                  next-IsSafe (get_torrent_info_of-IsSafe e.lt ex.handle) (λ now_files.
                    pure-IsSafe
                      ((ex.sandbox_dir_name ++ codes "/") ++ path_at now_files file_id))))))
            (pure-IsSafe [])))
        s h

  pub pause_download-IsSoundly :
      (i : ℕ) (file_id : ℤ) (s : Core) → IsSound s → IsSoundly (pause_download e i file_id s)
  unfolding pause_download
  pause_download-IsSoundly i file_id s h =
      on_torrent-IsSoundly tt i _
        (λ ex. next-IsSafe (get_torrent_info_of-IsSafe e.lt ex.handle) (λ files.
          if-IsSafe (in_files files file_id)
            (next-IsSafe (call-IsSafe e.lt (file_priority ex.handle file_id off_prior))
              (λ _. posted-IsSafe))
            (pure-IsSafe tt)))
        s h

  pub resume_download-IsSoundly :
      (i : ℕ) (file_id : ℤ) (s : Core) → IsSound s → IsSoundly (resume_download e i file_id s)
  unfolding resume_download
  resume_download-IsSoundly i file_id s h =
      on_torrent-IsSoundly tt i _
        (λ ex. next-IsSafe (get_torrent_info_of-IsSafe e.lt ex.handle) (λ files.
          next-IsSafe (call-IsSafe e.lt (resume_torrent ex.handle)) (λ _.
            if-IsSafe (in_files files file_id)
              (next-IsSafe (call-IsSafe e.lt (file_priority ex.handle file_id normal_prior))
                (λ _. posted-IsSafe))
              (pure-IsSafe tt))))
        s h

  pub stop_torrent_download-IsSoundly :
      (i : ℕ) (s : Core) → IsSound s → IsSoundly (stop_torrent_download e i s)
  unfolding stop_torrent_download
  stop_torrent_download-IsSoundly i s h =
      on_torrent-IsSoundly tt i _
        (λ ex. next-IsSafe (call-IsSafe e.lt (pause_torrent ex.handle)) (λ _. posted-IsSafe)) s h

  pub remove_torrent-IsSoundly : (i : ℕ) (s : Core) → IsSound s → IsSoundly (remove_torrent e i s)
  unfolding remove_torrent remove_usafe
  remove_torrent-IsSoundly i s h =
      on_torrent-IsSoundly tt i _
        (λ ex. next-IsSafe (session_call-IsSafe e.lt (session_remove_torrent ex.handle)) (λ _.
          bind-IsSafe
            (buffer-IsSafe {Q = Inside} (λ b. remove_usafe b i) (λ b j g. erase-Inside b j i g))
            (λ left j l g.
              next-IsSafe (set_buffer-IsSafe left g)
                (λ _. session_call-IsSafe e.lt post_torrent_updates))))
        s h

  -- The settings are read into a state that keeps everything.
  pub set_session-IsSafe : {n : ℕ} → IsSafe false n Any (set_session e.reader)
  unfolding set_session
  set_session-IsSafe = record {
    run = λ s l k. record {
      live = record {
        session = l.session;
        torrents = l.torrents;
        shared = l.shared;
        inside = l.inside;
        stored = l.stored;
      };
      grows = omega arith;
      kept = λ _ p f. f;
      ends = tt;
    };
  }

  pub read_settings-IsSafe : {n : ℕ} → IsSafe false n Any (read_settings e)
  unfolding read_settings
  read_settings-IsSafe = record {
    run = λ s l k. record {
      live = record {
        session = l.session;
        torrents = l.torrents;
        shared = l.shared;
        inside = l.inside;
        stored = l.stored;
      };
      grows = omega arith;
      kept = λ _ p f. f;
      ends = tt;
    };
  }

  pub escaped-IsSafe : {n : ℕ} → IsSafe false n (Any {A = Bool × Bool}) (λ s. (s, escaped))
  escaped-IsSafe = record {
    run = λ s l k. record { live = l; grows = omega arith; kept = λ _ p f. f; ends = tt };
  }

  pub load_session_state-IsSafe :
      {n : ℕ} (root : Bytes) → IsSafe false n Any (load_session_state e root)
  unfolding load_session_state
  load_session_state-IsSafe {n} root =
      go (e.load_file (e.combine_path root (codes ".torrent_core_state"))) refl
    where
      go :
          (o : Option Bytes)
          → e.load_file (e.combine_path root (codes ".torrent_core_state")) ≡ o
          → IsSafe false n Any (load_session_state e root)
      go none g = rw (g, load_session_state) (pure-IsSafe (false, true))
      go (some []) g = rw (g, load_session_state) escaped-IsSafe
      go (some (b ∷ bytes)) g =
          rw (g, load_session_state)
            (if-IsSafe (e.lazy_bdecode (b ∷ bytes))
              (next-IsSafe (session_call-IsSafe e.lt load_state) (λ _. pure-IsSafe (true, false)))
              (pure-IsSafe (false, true)))
