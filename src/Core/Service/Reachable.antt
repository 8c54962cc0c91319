-- ===== src/Core/Service/Reachable.antt =====
-- src/core/torrent_core/torrent_core.cpp: the loop and the addition of a torrent
-- keep what a running service needs, and so does every sequence of the operations.
use t2h.Common.{
  ℕ, ◌<◌, ◌==◌, Bool, not, List, [], ◌∷◌, Option, none, some, Bytes, find, assign, find-assign,
  ==_iff, ◌≡◌, refl, sym, ◌∙◌, Bool-cases, Option-cases, inl, inr, arith,
}
use t2h.Torrent.Text.{Paths, initialize_f}
use t2h.Core.World.{
  Core, TorrentExInfo, service_stoped, Outcome, returns, threw, escaped, undefined, M, is_running,
  post_torrent_updates,
}
use t2h.Core.Buffer.{add, remove, remove_usafe}
use t2h.Core.Resolvers.{Resolvers}
use t2h.Core.Service.{Platform, invalid_torrent_id, set_cur_state}
use t2h.Core.Safety.{IsLive, IsDone, Any}
use t2h.Core.Safety.Steps.{Inside, erase-Inside, assign-IsStored}
use t2h.Core.Safety.Rules.{
  IsSafe, if-IsSafe, state-IsSafe, option-IsSafe, bind-IsSafe, next-IsSafe, pure-IsSafe,
  exception_safe-IsSafe, session_call-IsSafe, buffer-IsSafe, set_buffer-IsSafe, load-IsSafe,
  store-IsSafe, new_info-IsSafe, save_path_of-IsSafe,
}
use t2h.Core.Safety.Calm.{IsSoundly}
use t2h.Core.Alerts.{Alert}
use t2h.Core.Safety.Handlers.{HasBytes, add_torrent-IsSafe}
use t2h.Core.Safety.Alerts.{dispatch_alert-IsSafe}
use t2h.Core.Service.Loop.{
  swallow, is_critical_error, Round, handle_core_notifications, core_round, core_main_loop,
  fresh_info, add_to_buffer, add_torrent,
}
use t2h.Core.Service.Sound.{IsSound, when_running-IsSoundly}

module _ (e : Platform) (resolvers : Resolvers) (b : HasBytes e.lt) where
  critical-IsSafe : {K : Bool} {n : ℕ} → IsSafe K n Any (set_cur_state e service_stoped)
  unfolding set_cur_state
  critical-IsSafe = record {
    run = λ s l k. record {
      live = record {
        session = l.session;
        torrents = l.torrents;
        shared = l.shared;
        inside = l.inside;
        stored = l.stored;
      };
      grows = omega arith;
      kept = λ _ p f. f;
      ends = tt;
    };
  }

  swallow-IsSafe :
      {K : Bool} {n : ℕ} (m : M (Unit {0})) → IsSafe K n Any m → IsSafe K n Any (swallow m)
  unfolding swallow
  swallow-IsSafe {K} m hm = record { run = λ s l k. go s (hm.run s l k) (m s).1 refl }
    where
      go :
          (s : Core)
          → IsDone K s Any (m s)
          → (o : Outcome (Unit {0})) → (m s).1 ≡ o
          → IsDone K s Any (swallow m s)
      go s d (returns a) g =
          rw (g, swallow) (record { live = d.live; grows = d.grows; kept = d.kept; ends = tt })
      go s d threw g =
          rw (g, swallow) (record { live = d.live; grows = d.grows; kept = d.kept; ends = tt })
      go s d escaped g =
          rw (g, swallow) (record { live = d.live; grows = d.grows; kept = d.kept; ends = tt })
      go s d undefined g = absurd (rw g at d.ends)

  handle_core_notifications-IsSafe :
      {K : Bool} {n : ℕ} (now : ℕ) (alerts : List (Option Alert))
      → IsSafe K n Any (handle_core_notifications e resolvers now alerts)
  unfolding handle_core_notifications
  handle_core_notifications-IsSafe now [] = pure-IsSafe tt
  handle_core_notifications-IsSafe now (none ∷ alerts) = handle_core_notifications-IsSafe now alerts
  handle_core_notifications-IsSafe now (some a ∷ alerts) =
      next-IsSafe
        (swallow-IsSafe _ (
          if-IsSafe (is_critical_error a) critical-IsSafe
            (dispatch_alert-IsSafe e.lt e.hasher e.partial_sort b now resolvers a)))
        (λ _. handle_core_notifications-IsSafe now alerts)

  core_round-IsSafe : {K : Bool} {n : ℕ} (r : Round) → IsSafe K n Any (core_round e resolvers r)
  unfolding core_round
  core_round-IsSafe (now, waited) = exception_safe-IsSafe tt (
      next-IsSafe (session_call-IsSafe e.lt post_torrent_updates) (λ _.
        option-IsSafe waited (pure-IsSafe tt)
          (λ alerts g. handle_core_notifications-IsSafe now alerts)))

  pub core_main_loop-IsSafe :
      {K : Bool} {n : ℕ} (rounds : List Round) → IsSafe K n Any (core_main_loop e resolvers rounds)
  unfolding core_main_loop
  core_main_loop-IsSafe [] = pure-IsSafe tt
  core_main_loop-IsSafe (r ∷ rounds) = state-IsSafe (λ s.
      if-IsSafe (is_running s.cur_state)
        (next-IsSafe (core_round-IsSafe r) (λ _. core_main_loop-IsSafe rounds)) critical-IsSafe)

  -- The buffer with one more pointer that was given out.
  added-IsDone :
      {K : Bool} (p : ℕ) (ex : TorrentExInfo) (s : Core)
      → IsLive s
      → p < s.fresh
      → IsDone K s Any (add_to_buffer e resolvers p ex s)
  unfolding add_to_buffer add
  added-IsDone p ex s h l =
      let i = e.hasher ex.save_path in
      elim (Option-cases (find ◌==◌ i h.torrents)) [
        | inl g ↦
            rw (h.shared, g, add_to_buffer, add)
              (record {
                live = record {
                  session = h.session;
                  torrents = assign ◌==◌ i p h.torrents;
                  shared = refl;
                  inside = λ j q m. elim (Bool-cases (i == j)) [
                    | inl n ↦
                        ground (arith, sym (find-assign ◌==◌ ==_iff i p h.torrents j) ∙ m, n, l)
                    | inr n ↦
                        h.inside j q
                          (ground (arith, sym (find-assign ◌==◌ ==_iff i p h.torrents j) ∙ m, n))
                  ];
                  stored = λ q m.
                      assign-IsStored s.ex_infos p q (record ex { index = i }) (h.stored q m);
                };
                grows = omega arith;
                kept = λ _ q f. f;
                ends = tt;
              })
        | inr (q, g) ↦
            rw (h.shared, g, add_to_buffer, add)
              (record {
                live = record {
                  session = h.session;
                  torrents = h.torrents;
                  shared = refl;
                  inside = h.inside;
                  stored = h.stored;
                };
                grows = omega arith;
                kept = λ _ q f. f;
                ends = tt;
              })
      ]

  add_to_buffer-IsSafe :
      {K : Bool} {n : ℕ} (p : ℕ) (ex : TorrentExInfo)
      → p < n
      → IsSafe K n Any (add_to_buffer e resolvers p ex)
  add_to_buffer-IsSafe p ex l = record {
    run = λ s h k. added-IsDone p ex s h (omega (arith, l, k));
  }

  pub add_torrent-IsSoundly :
      (now : ℕ) (paths : Paths) (rounds : List Round) (path : Bytes) (s : Core)
      → IsSound s
      → IsSoundly (add_torrent e resolvers now paths rounds path s)
  unfolding add_torrent remove remove_usafe
  add_torrent-IsSoundly now paths rounds path s h =
      when_running-IsSoundly e invalid_torrent_id _ s
        (bind-IsSafe (new_info-IsSafe (fresh_info e resolvers now)) (λ p n k l. state-IsSafe (λ t.
          option-IsSafe (initialize_f paths t.settings.save_root path)
            (pure-IsSafe invalid_torrent_id)
            (λ x g.
              let ex : TorrentExInfo = record (fresh_info e resolvers now) {
                save_path = x.0;
                sandbox_dir_name = x.1;
              } in
              next-IsSafe (store-IsSafe p ex) (λ _.
                next-IsSafe (add_to_buffer-IsSafe p ex l) (λ added.
                  if-IsSafe (not added.0) (pure-IsSafe invalid_torrent_id) (
                    next-IsSafe
                      (add_torrent-IsSafe e.lt e.hasher b (core_main_loop e resolvers rounds) p l
                        (core_main_loop-IsSafe rounds))
                      (λ accepted. if-IsSafe accepted (pure-IsSafe added.1) (
                        next-IsSafe (load-IsSafe p l) (λ now_ex.
                          next-IsSafe (save_path_of-IsSafe e.lt now_ex.handle) (λ handle_path.
                            bind-IsSafe
                              (buffer-IsSafe {Q = Inside} (λ c. remove e.hasher c handle_path)
                                (λ c i m. erase-Inside c i (e.hasher handle_path) m))
                              (λ left i m j.
                                next-IsSafe (set_buffer-IsSafe left j)
                                  (λ _. pure-IsSafe invalid_torrent_id)))))))))))))
        h
