-- ===== src/Api/Started.antt =====
-- src/core/external_api/external_api_details.cpp: the services that a start makes, and which they are.
use t2h.Common.{
  Bool, true, false, List, [], ◌∷◌, Option, none, some, Bytes, str_eq, find, assign, if◌then◌else◌,
  ◌≡◌, ◌≢◌, refl, sym, ◌∙◌, Option-cases, inl, inr, arith,
}
use mathlib.Core.Path.{subst}
use t2h.Settings.{SettingManager}
use t2h.Core.World.{Core, Outcome, returns, threw, escaped, undefined}
use t2h.Core.Service.{Platform, launch_service, stop_service}
use t2h.Core.Service.Operations.{torrent_core}
use t2h.Core.Service.Sound.{IsSound}
use t2h.Core.Safety.Calm.{IsSoundly}
use t2h.Core.Service.Launch.{launch_service-IsSoundly}
use t2h.Server.Core.{
  HttpServerCore, http_server_core, hcs_from_setting_manager, from_setting_manager,
}
use t2h.Server.Core
use t2h.Server.Core.Life.{started, established, refused, badly, launched}
use t2h.Services.{registrate}
use t2h.Api.Start.{
  Environment, Service, torrent_service, http_service, this_service_name, http_core_service_name,
  core_reader, server_settings, init_torrent_core, init_http_server, init_core_services,
}
use t2h.Api.{UnderlyingHandle}
use t2h.Api.Sound.{IsSafeService}

-- The services of a core that is started.
abbrev pub both_services : Core → HttpServerCore → List (Bytes × Service)
both_services c h =
    (this_service_name, torrent_service c) ∷ (http_core_service_name, http_service h) ∷ []

abbrev pub new_handle : Core → HttpServerCore → UnderlyingHandle
new_handle c h = record { core_handle = record { services = both_services c h }; torrents = [] }

module _ (env : Environment) where
  torrent_core-IsSound : IsSound (torrent_core env.core_settings env.static_settings)
  torrent_core-IsSound = record {
    stored = λ p l. absurd (omega (arith, l));
    live = λ k. absurd (ground (arith, k));
  }

  -- The torrent core that a start leaves.
  started-IsSound :
      (sets : SettingManager) (c : Core) → init_torrent_core env sets ≡ returns (some c) → IsSound c
  unfolding init_torrent_core
  started-IsSound sets c e =
      go (launch_service platform initial)
        (launch_service-IsSoundly platform initial torrent_core-IsSound) e
    where
      platform : Platform
      platform = record env.platform { reader = core_reader env sets }

      initial : Core
      initial = torrent_core env.core_settings env.static_settings

      go :
          (r : Core × Outcome Bool)
          → IsSoundly r
          → (elim r.1 [
            | returns launched ↦ returns (if launched then some r.0 else none)
            | threw ↦ returns none
            | escaped ↦ returns none
            | undefined ↦ undefined
          ])
            ≡ returns (some c)
          → IsSound c
      go (d, returns true) k e =
          let q : d ≡ c = cc in subst IsSound q (record { stored = k.stored; live = k.live })
      go (d, returns false) k e = absurd (ground (arith, e))
      go (d, threw) k e = absurd (ground (arith, e))
      go (d, escaped) k e = absurd (ground (arith, e))
      go (d, undefined) k e = absurd (ground (arith, e))

  -- The server that a start leaves.
  started-IsSafeService :
      (sets : SettingManager) (h : HttpServerCore)
      → init_http_server env sets ≡ some h
      → IsSafeService (http_service h)
  unfolding init_http_server
  started-IsSafeService sets h e =
      elim (Option-cases
        (hcs_from_setting_manager env.exists env.is_directory (server_settings env sets))) [
          | inl k ↦ absurd (
              not_started
                (refused env.exists env.is_directory env.mg_start (server_settings env sets)
                  http_server_core refl k).0)
          | inr (local, k) ↦ elim (Option-cases (from_setting_manager (server_settings env sets))) [
            | inl m ↦ absurd (
                not_started
                  (badly env.exists env.is_directory env.mg_start (server_settings env sets)
                    http_server_core refl local k m).0)
            | inr (config, m) ↦
                let q : launch ≡ (started env.mg_start local config, true) =
                  launched env.exists env.is_directory env.mg_start (server_settings env sets)
                    http_server_core refl local config k m in
                let c : started env.mg_start local config ≡ h = ground (arith, e, q) in
                subst (λ g. IsSafeService (http_service g)) c
                  (λ _. (established env.mg_start config, refl))
          ]
        ]
    where
      launch : HttpServerCore × Bool
      launch =
          Core.launch_service env.exists env.is_directory env.mg_start (server_settings env sets)
            http_server_core

      not_started : launch.1 ≡ false → ⊥
      not_started k = ground (arith, e, k)

  pub services_started :
      (sets : SettingManager) (c : Core) (h : HttpServerCore)
      → init_torrent_core env sets ≡ returns (some c)
      → init_http_server env sets ≡ some h
      → init_core_services env sets ≡ returns (both_services c h)
  unfolding init_core_services registrate find assign str_eq
  services_started sets c h e f = rw (e, init_core_services) (rw (f, init_core_services) refl)

  -- A null pointer is called where the torrent core, or after it the server, is missing.
  pub services_missing :
      (sets : SettingManager)
      → (init_torrent_core env sets ≡ returns none → init_core_services env sets ≡ undefined)
        × ((c : Core)
            → init_torrent_core env sets ≡ returns (some c)
            → init_http_server env sets ≡ none
            → (stop_service env.platform c).1 ≡ returns tt
            → init_core_services env sets ≡ undefined)
  unfolding init_core_services
  services_missing sets = (
    λ e. rw (e, init_core_services) refl,
    λ c e f g.
        rw (e, init_core_services) (rw (f, init_core_services) (rw (g, init_core_services) refl)),
  )

  no_server :
      (sets : SettingManager) (c : Core) (services : List (Bytes × Service))
      → init_torrent_core env sets ≡ returns (some c)
      → init_http_server env sets ≡ none
      → init_core_services env sets ≢ returns services
  unfolding init_core_services
  no_server sets c services e f = go (stop_service env.platform c).1 refl
    where
      go :
          (o : Outcome (Unit {0}))
          → (stop_service env.platform c).1 ≡ o
          → init_core_services env sets ≢ returns services
      go (returns a) g =
          rw (e, init_core_services)
            (rw (f, init_core_services) (rw (g, init_core_services) (λ k. cc)))
      go threw g =
          rw (e, init_core_services)
            (rw (f, init_core_services) (rw (g, init_core_services) (λ k. cc)))
      go escaped g =
          rw (e, init_core_services)
            (rw (f, init_core_services) (rw (g, init_core_services) (λ k. cc)))
      go undefined g =
          rw (e, init_core_services)
            (rw (f, init_core_services) (rw (g, init_core_services) (λ k. cc)))

  no_core :
      (sets : SettingManager) (services : List (Bytes × Service))
      (o : Outcome (List (Bytes × Service)))
      → init_core_services env sets ≡ o
      → o ≢ returns services
      → init_core_services env sets ≢ returns services
  no_core sets services o e n k = n (sym e ∙ k)

  -- Services that are given are both of them, the torrent core sound.
  pub services_given :
      (sets : SettingManager) (services : List (Bytes × Service))
      → init_core_services env sets ≡ returns services
      → (c : Core) × ((h : HttpServerCore) × ((services ≡ both_services c h)
            × (IsSound c × IsSafeService (http_service h))))
  unfolding init_core_services
  services_given sets services e = by_core (init_torrent_core env sets) refl
    where
      by_server :
          (c : Core)
          → init_torrent_core env sets ≡ returns (some c)
          → (o : Option HttpServerCore) → init_http_server env sets ≡ o
          → (d : Core) × ((h : HttpServerCore) × ((services ≡ both_services d h)
                × (IsSound d × IsSafeService (http_service h))))
      by_server c f (some h) g =
          let q : returns services ≡ returns (both_services c h) =
            sym e ∙ services_started sets c h f g in
          (c, (h, (ground (arith, q), (started-IsSound sets c f, started-IsSafeService sets h g))))
      by_server c f none g = absurd (no_server sets c services f g e)

      by_core :
          (o : Outcome (Option Core))
          → init_torrent_core env sets ≡ o
          → (c : Core) × ((h : HttpServerCore) × ((services ≡ both_services c h)
                × (IsSound c × IsSafeService (http_service h))))
      by_core (returns (some c)) f = by_server c f (init_http_server env sets) refl
      by_core (returns none) f = absurd (ground (arith, e, (services_missing sets).0 f))
      by_core threw f =
          absurd (no_core sets services threw (rw (f, init_core_services) refl) (λ k. cc) e)
      by_core escaped f =
          absurd (no_core sets services escaped (rw (f, init_core_services) refl) (λ k. cc) e)
      by_core undefined f =
          absurd (no_core sets services undefined (rw (f, init_core_services) refl) (λ k. cc) e)
