-- ===== src/Core/Service/Operations.antt =====
-- src/core/torrent_core/torrent_core.hpp: the public operations of the service in any order, from its
-- construction on, with the rounds of its loop between them.
use t2h.Common.{
  ℕ, Bool, true, false, List, [], ◌∷◌, none, Bytes, ℤ, if◌then◌else◌, ◌≡◌, ◌≢◌, refl, inl, inr,
  Bool-cases, arith,
}
use t2h.Torrent.Text.{Paths}
use t2h.Core.World.{
  Core, CurState, service_state_unknown, TorrentCoreSettings, StaticSettings, Outcome, returns,
  threw, escaped, undefined, M, ◌>>=◌, ◌>>◌, pure, get_state, is_running,
}
use t2h.Core.Resolvers.{Resolvers}
use t2h.Core.Service.{
  Platform, launch_service, stop_service, get_torrent_info, start_torrent_download, pause_download,
  resume_download, remove_torrent, stop_torrent_download, add_torrent_url, invalid_torrent_id,
  set_cur_state,
}
use t2h.Core.Service.Loop.{Round, core_main_loop, core_round, add_torrent}
use t2h.Core.Safety.Handlers.{HasBytes}
use t2h.Core.Safety.Rules.{pure-IsSafe}
use t2h.Core.Safety.Calm.{IsSoundly, done-IsSoundly}
use t2h.Core.Service.Sound.{
  IsSound, when_running-IsSoundly, get_torrent_info-IsSoundly, start_torrent_download-IsSoundly,
  pause_download-IsSoundly, resume_download-IsSoundly, remove_torrent-IsSoundly,
  stop_torrent_download-IsSoundly,
}
use t2h.Core.Service.Launch.{launch_service-IsSoundly, stop_service-IsSoundly}
use t2h.Core.Service.Reachable.{core_main_loop-IsSafe, add_torrent-IsSoundly}

-- The constructor torrent_core::torrent_core; the settings are what the constructors leave in them.
abbrev pub torrent_core : TorrentCoreSettings → StaticSettings → Core
torrent_core settings controller_settings = record {
  cur_state = service_state_unknown;
  session = false;
  shared_buffer = none;
  ex_infos = [];
  fresh = 0;
  futures = [];
  settings = settings;
  controller_settings = controller_settings;
  calls = [];
  events = [];
}

pub data Operation : Type 0 where
  launch stop : Operation
  add : ℕ → Paths → List Round → Bytes → Operation
  add_url : Bytes → Operation
  info remove stop_download : ℕ → Operation
  start pause resume : ℕ → ℤ → Operation
  loop : List Round → Operation

unfoldable pub discard : {A : Type 0} → M A → M (Unit {0})
discard m s =
    let (t, o) = m s in
    elim o [
      | returns a ↦ (t, returns tt)
      | threw ↦ (t, threw)
      | escaped ↦ (t, escaped)
      | undefined ↦ (t, undefined)
    ]

module _ (e : Platform) (resolvers : Resolvers) where
  unfoldable pub perform : Operation → M (Unit {0})
  unfolding discard
  perform launch = discard (launch_service e)
  perform stop = stop_service e
  perform (add now paths rounds path) = discard (add_torrent e resolvers now paths rounds path)
  perform (add_url url) = discard (add_torrent_url e url)
  perform (info i) = discard (get_torrent_info e i)
  perform (remove i) = remove_torrent e i
  perform (stop_download i) = stop_torrent_download e i
  perform (start i file_id) = discard (start_torrent_download e i file_id)
  perform (pause i file_id) = pause_download e i file_id
  perform (resume i file_id) = resume_download e i file_id
  perform (loop rounds) = core_main_loop e resolvers rounds

  -- The states that a service comes to; an operation may end in an exception, and the next one goes on
  -- from there.
  pub data Reached : Core → Type 0 where
    constructed :
        (settings : TorrentCoreSettings) (c : StaticSettings) → Reached (torrent_core settings c)
    called : (op : Operation) (s : Core) → Reached s → Reached (perform op s).0

  discard-IsSoundly : {A : Type 0} (m : M A) (s : Core) → IsSoundly (m s) → IsSoundly (discard m s)
  unfolding discard
  discard-IsSoundly {A} m s h = go (m s).1 refl
    where
      stays : (o : Outcome (Unit {0})) → o ≢ undefined → IsSoundly ((m s).0, o)
      stays o n = record { stored = h.stored; live = h.live; defined = n }

      go : (o : Outcome A) → (m s).1 ≡ o → IsSoundly (discard m s)
      go (returns a) g = rw (g, discard) (stays (returns tt) (λ k. cc))
      go threw g = rw (g, discard) (stays threw (λ k. cc))
      go escaped g = rw (g, discard) (stays escaped (λ k. cc))
      go undefined g = absurd (h.defined g)

  module _ (b : HasBytes e.lt) where
    core_main_loop-IsSoundly :
        (rounds : List Round) (s : Core)
        → IsSound s
        → IsSoundly (core_main_loop e resolvers rounds s)
    unfolding core_main_loop ◌>>=◌ get_state set_cur_state
    core_main_loop-IsSoundly [] s h = record { stored = h.stored; live = h.live; defined = λ k. cc }
    core_main_loop-IsSoundly (r ∷ rounds) s h = elim (Bool-cases (is_running s.cur_state)) [
      | inl g ↦ done-IsSoundly s (core_main_loop e resolvers (r ∷ rounds)) (
          (core_main_loop-IsSafe e resolvers b {K = false} {n = 0} (r ∷ rounds)).run s (h.live g)
            (omega arith))
      | inr g ↦ idle (is_running s.cur_state) g
    ]
      where
        idle :
            (c : Bool)
            → c ≡ false
            → IsSoundly (
                (if c
                    then (core_round e resolvers r >> core_main_loop e resolvers rounds)
                    else set_cur_state e CurState.service_stoped)
                  s)
        idle true g = absurd (ground (arith, g))
        idle false g = record {
          stored = h.stored;
          live = λ k. absurd (ground (arith, k));
          defined = λ k. cc;
        }

    perform-IsSoundly : (op : Operation) (s : Core) → IsSound s → IsSoundly (perform op s)
    unfolding perform add_torrent_url
    perform-IsSoundly launch s h =
        discard-IsSoundly (launch_service e) s (launch_service-IsSoundly e s h)
    perform-IsSoundly stop s h = stop_service-IsSoundly e s h
    perform-IsSoundly (add now paths rounds path) s h =
        discard-IsSoundly (add_torrent e resolvers now paths rounds path) s
          (add_torrent-IsSoundly e resolvers b now paths rounds path s h)
    perform-IsSoundly (add_url url) s h = discard-IsSoundly (add_torrent_url e url) s (
        when_running-IsSoundly e invalid_torrent_id (pure invalid_torrent_id) s
          (pure-IsSafe invalid_torrent_id) h)
    perform-IsSoundly (info i) s h =
        discard-IsSoundly (get_torrent_info e i) s (get_torrent_info-IsSoundly e i s h)
    perform-IsSoundly (remove i) s h = remove_torrent-IsSoundly e i s h
    perform-IsSoundly (stop_download i) s h = stop_torrent_download-IsSoundly e i s h
    perform-IsSoundly (start i file_id) s h =
        discard-IsSoundly (start_torrent_download e i file_id) s
          (start_torrent_download-IsSoundly e i file_id s h)
    perform-IsSoundly (pause i file_id) s h = pause_download-IsSoundly e i file_id s h
    perform-IsSoundly (resume i file_id) s h = resume_download-IsSoundly e i file_id s h
    perform-IsSoundly (loop rounds) s h = core_main_loop-IsSoundly rounds s h

    -- In every state that a service comes to, a service that runs has its session and its buffer, every
    -- pointer of which points to the information of a torrent; and no operation from there calls
    -- through a null pointer, reads a pointer that is none or divides by zero. The condition is that the
    -- torrents' files have bytes and their pieces a length.
    pub Reached-IsSound :
        (s : Core) → Reached s → IsSound s × ((op : Operation) → (perform op s).1 ≢ undefined)
    Reached-IsSound s r = let h = sound s r in (h, λ op. (perform-IsSoundly op s h).defined)
      where
        sound : (s : Core) → Reached s → IsSound s
        sound _ (constructed settings c) = record {
          stored = λ p l. absurd (omega (arith, l));
          live = λ k. absurd (ground (arith, k));
        }
        sound _ (called op s r) =
            let k = perform-IsSoundly op s (sound s r) in
            record { stored = k.stored; live = k.live }
