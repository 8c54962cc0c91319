-- ===== src/Core/Service/Launch.antt =====
-- src/core/torrent_core/torrent_core.cpp: the launch and the stop keep what a running service needs.
use t2h.Common.{
  ℕ, Bool, true, false, not, ◌||◌, codes, [], ◌∷◌, Option, none, some, Bytes, find, if◌then◌else◌,
  ◌≡◌, ◌≢◌, refl, ap, ◌∙◌, arith,
}
use t2h.Core.World.{
  Call, Core, service_running, service_stoped, Outcome, returns, threw, escaped, undefined, M,
  ◌>>=◌, ◌>>◌, pure, get_state, is_running, session_call, start_lsd, start_upnp, start_natpmp,
  set_settings, listen_on, load_state, post_torrent_updates, save_state, stop_dht, stop_lsd,
  stop_upnp, stop_natpmp,
}
use t2h.Core.Controller.{set_session}
use t2h.Core.Service.{
  Platform, launch_safe, new_all, delete_all, delete_session, set_cur_state, read_settings,
  load_session_state, init_core_session, start_session, launch_service, stop_service,
}
use t2h.Core.Safety.{IsLive, Any}
use t2h.Core.Safety.Rules.{
  IsSafe, if-IsSafe, state-IsSafe, next-IsSafe, pure-IsSafe, session_call-IsSafe,
}
use t2h.Core.Safety.Calm.{
  IsCalm, IsSoundly, bind-IsCalm, if-IsCalm, state-IsCalm, pure-IsCalm, session_call-IsCalm,
  live-IsSoundly,
}
use t2h.Core.Service.Sound.{
  IsSound, set_session-IsSafe, read_settings-IsSafe, load_session_state-IsSafe,
}

module _ (e : Platform) where
  init_core_session-IsSafe : {n : ℕ} → IsSafe false n Any (init_core_session e)
  unfolding init_core_session
  init_core_session-IsSafe = next-IsSafe (read_settings-IsSafe e) (λ ok. state-IsSafe (λ s.
      if-IsSafe (not ok || not s.settings.loadable_session) (pure-IsSafe false) (
        next-IsSafe (load_session_state-IsSafe e s.settings.save_root) (λ prev.
          next-IsSafe (session_call-IsSafe e.lt start_lsd) (λ _.
            next-IsSafe (session_call-IsSafe e.lt start_upnp) (λ _.
              next-IsSafe (session_call-IsSafe e.lt start_natpmp) (λ _.
                next-IsSafe
                  (if-IsSafe prev.0 (pure-IsSafe tt) (session_call-IsSafe e.lt set_settings))
                  (λ _.
                    next-IsSafe
                      (session_call-IsSafe e.lt
                        (listen_on s.settings.port_start s.settings.port_end))
                      (λ _. pure-IsSafe (
                        not (
                          e.listen_error prev.1 s.settings.port_start s.settings.port_end)))))))))))

  load_session_state-IsCalm : (root : Bytes) → IsCalm (load_session_state e root)
  unfolding load_session_state
  load_session_state-IsCalm root =
      go (e.load_file (e.combine_path root (codes ".torrent_core_state"))) refl
    where
      go :
          (o : Option Bytes)
          → e.load_file (e.combine_path root (codes ".torrent_core_state")) ≡ o
          → IsCalm (load_session_state e root)
      go none g = rw (g, load_session_state) (pure-IsCalm (false, true))
      go (some []) g = rw (g, load_session_state) (record { calm = λ s. refl })
      go (some (b ∷ bytes)) g =
          rw (g, load_session_state)
            (if-IsCalm (e.lazy_bdecode (b ∷ bytes))
              (bind-IsCalm (session_call-IsCalm e.lt load_state) (λ _. pure-IsCalm (true, false)))
              (pure-IsCalm (false, true)))

  read_settings-IsCalm : IsCalm (read_settings e)
  unfolding read_settings
  read_settings-IsCalm = record { calm = λ s. refl }

  init_core_session-IsCalm : IsCalm (init_core_session e)
  unfolding init_core_session
  init_core_session-IsCalm = bind-IsCalm read_settings-IsCalm (λ ok. state-IsCalm (λ s.
      if-IsCalm (not ok || not s.settings.loadable_session) (pure-IsCalm false) (
        bind-IsCalm (load_session_state-IsCalm s.settings.save_root) (λ prev.
          bind-IsCalm (session_call-IsCalm e.lt start_lsd) (λ _.
            bind-IsCalm (session_call-IsCalm e.lt start_upnp) (λ _.
              bind-IsCalm (session_call-IsCalm e.lt start_natpmp) (λ _.
                bind-IsCalm
                  (if-IsCalm prev.0 (pure-IsCalm tt) (session_call-IsCalm e.lt set_settings))
                  (λ _.
                    bind-IsCalm
                      (session_call-IsCalm e.lt
                        (listen_on s.settings.port_start s.settings.port_end))
                      (λ _. pure-IsCalm (
                        not (
                          e.listen_error prev.1 s.settings.port_start s.settings.port_end)))))))))))

  -- Both objects deleted, where the service does not run.
  deleted-IsSoundly :
      (t : Core)
      → IsLive t
      → is_running t.cur_state ≡ false
      → IsSoundly ((delete_all e >> pure false) t)
  unfolding delete_all ◌>>=◌
  deleted-IsSoundly t l r = record {
    stored = l.stored;
    live = λ g. absurd (ground (arith, r, g));
    defined = λ g. cc;
  }

  running-IsSoundly :
      (t : Core) → IsLive t → IsSoundly ((set_cur_state e service_running >> pure true) t)
  unfolding set_cur_state ◌>>=◌
  running-IsSoundly t l = record {
    stored = l.stored;
    live = λ _. record {
      session = l.session;
      torrents = l.torrents;
      shared = l.shared;
      inside = l.inside;
      stored = l.stored;
    };
    defined = λ g. cc;
  }

  start_session-IsSoundly :
      (s : Core) → IsLive s → is_running s.cur_state ≡ false → IsSoundly (start_session e s)
  unfolding start_session set_session
  start_session-IsSoundly s l r =
      live-IsSoundly accept s (set_session-IsSafe e) l (λ accepted t g h.
        let rt : is_running t.cur_state ≡ false = ap is_running g ∙ r in
        by_cases (not accepted) gone (init_core_session e >>= listen) t (deleted-IsSoundly t h rt) (
          live-IsSoundly listen t init_core_session-IsSafe h (λ listening u i j.
            by_cases (not listening) gone runs u
              (deleted-IsSoundly u j (ap is_running (i ∙ init_core_session-IsCalm.calm t) ∙ rt))
              (running-IsSoundly u j))))
    where
      gone : M Bool
      gone = delete_all e >> pure false

      runs : M Bool
      runs = set_cur_state e service_running >> pure true

      listen : Bool → M Bool
      listen listening = if not listening then gone else runs

      accept : Bool → M Bool
      accept accepted = if not accepted then gone else (init_core_session e >>= listen)

      by_cases :
          (b : Bool) (m f : M Bool) (t : Core)
          → IsSoundly (m t)
          → IsSoundly (f t)
          → IsSoundly ((if b then m else f) t)
      by_cases true m f t hm hf = hm
      by_cases false m f t hm hf = hf

  launch_safe-IsSoundly : (m : M Bool) (s : Core) → IsSoundly (m s) → IsSoundly (launch_safe e m s)
  unfolding launch_safe
  launch_safe-IsSoundly m s h = go (m s).1 refl
    where
      stays : (o : Outcome Bool) → o ≢ undefined → IsSoundly ((m s).0, o)
      stays o n = record { stored = h.stored; live = h.live; defined = n }

      go : (o : Outcome Bool) → (m s).1 ≡ o → IsSoundly (launch_safe e m s)
      go (returns a) g = rw (g, launch_safe) (stays (returns a) (λ k. cc))
      go threw g =
          rw (g, launch_safe)
            (record {
              stored = h.stored;
              live = λ k. absurd (ground (arith, k));
              defined = λ k. cc;
            })
      go escaped g = rw (g, launch_safe) (stays escaped (λ k. cc))
      go undefined g = absurd (h.defined g)

  pub unchanged-IsSoundly :
      {A : Type 0} (s : Core) (o : Outcome A) → IsSound s → o ≢ undefined → IsSoundly (s, o)
  unchanged-IsSoundly s o h n = record { stored = h.stored; live = h.live; defined = n }

  new_all-IsLive : (s : Core) → IsSound s → IsLive (new_all e s).0
  unfolding new_all find
  new_all-IsLive s h = record {
    session = refl;
    torrents = [];
    shared = refl;
    inside = λ i p g. absurd (ground (arith, g));
    stored = h.stored;
  }

  pub launch_service-IsSoundly : (s : Core) → IsSound s → IsSoundly (launch_service e s)
  unfolding launch_service new_all get_state ◌>>=◌
  launch_service-IsSoundly s h = launch_safe-IsSoundly body s (go (is_running s.cur_state) refl)
    where
      body : M Bool
      body = get_state >>= λ t.
          if is_running t.cur_state
          then pure false
          else (if not e.new_session then (λ u. (u, threw)) else (new_all e >> start_session e))

      made :
          (b : Bool)
          → is_running s.cur_state ≡ false
          → IsSoundly ((if not b then (λ t. (t, threw)) else (new_all e >> start_session e)) s)
      made false g = unchanged-IsSoundly s threw h (λ k. cc)
      made true g = start_session-IsSoundly (new_all e s).0 (new_all-IsLive s h) g

      go :
          (b : Bool)
          → is_running s.cur_state ≡ b
          → IsSoundly (
              (if b
                  then pure false
                  else (if not e.new_session
                      then (λ t. (t, threw))
                      else (new_all e >> start_session e)))
                s)
      go true g = unchanged-IsSoundly s (returns false) h (λ k. cc)
      go false g = made e.new_session g

  -- The session is deleted, where the service does not run.
  ended-IsSoundly :
      (t : Core) → IsLive t → is_running t.cur_state ≡ false → IsSoundly (delete_session e t)
  unfolding delete_session
  ended-IsSoundly t l r = record {
    stored = l.stored;
    live = λ g. absurd (ground (arith, r, g));
    defined = λ g. cc;
  }

  closing-IsSoundly :
      (t : Core)
      → IsLive t
      → IsSoundly (
          (set_cur_state e service_stoped
              >> (session_call e.lt post_torrent_updates >> delete_session e))
            t)
  unfolding set_cur_state ◌>>=◌
  closing-IsSoundly t l =
      let u : Core = record t { cur_state = service_stoped } in
      live-IsSoundly (λ _. delete_session e) u (session_call-IsSafe e.lt post_torrent_updates)
        (record {
          session = l.session;
          torrents = l.torrents;
          shared = l.shared;
          inside = l.inside;
          stored = l.stored;
        })
        (λ a v g h.
          ended-IsSoundly v h
            (ap is_running (g ∙ (session_call-IsCalm e.lt post_torrent_updates).calm u)))

  pub stop_service-IsSoundly : (s : Core) → IsSound s → IsSoundly (stop_service e s)
  unfolding stop_service get_state
  stop_service-IsSoundly s h = go (is_running s.cur_state) refl
    where
      rest : M (Unit {0})
      rest =
          set_cur_state e service_stoped
          >> (session_call e.lt post_torrent_updates >> delete_session e)

      next :
          (c : Call) (f : M (Unit {0})) (t : Core)
          → IsLive t
          → ((u : Core) → IsLive u → IsSoundly (f u))
          → IsSoundly ((session_call e.lt c >> f) t)
      next c f t l k = live-IsSoundly (λ _. f) t (session_call-IsSafe e.lt c) l (λ a u g h. k u h)

      stops :
          (t : Core)
          → IsLive t
          → IsSoundly (
              (session_call e.lt stop_dht
                  >> (session_call e.lt stop_lsd
                      >> (session_call e.lt stop_upnp >> (session_call e.lt stop_natpmp >> rest))))
                t)
      stops t l = next stop_dht _ t l (λ u h.
          next stop_lsd _ u h
            (λ v i. next stop_upnp _ v i (λ w j. next stop_natpmp _ w j closing-IsSoundly)))

      go :
          (b : Bool)
          → is_running s.cur_state ≡ b
          → IsSoundly (
              (if not b
                  then pure tt
                  else ((if s.settings.loadable_session
                        then session_call e.lt save_state
                        else pure tt)
                      >> (session_call e.lt stop_dht
                          >> (session_call e.lt stop_lsd
                              >> (session_call e.lt stop_upnp
                                  >> (session_call e.lt stop_natpmp >> rest))))))
                s)
      go false g = unchanged-IsSoundly s (returns tt) h (λ k. cc)
      go true g =
          live-IsSoundly _ s
            (if-IsSafe s.settings.loadable_session (session_call-IsSafe e.lt save_state)
              (pure-IsSafe tt))
            (h.live g) (λ a t i j. stops t j)
