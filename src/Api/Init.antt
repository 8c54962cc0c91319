-- ===== src/Api/Init.antt =====
-- src/core/external_api: what a start of the library gives on every branch.
use t2h.Common.{
  ◌+◌, ◌==◌, ==_iff, Bool, true, false, List, [], Option, none, some, Bytes, str_eq, find,
  find-assign_same, size, pos, ◌≡◌, refl, sym,
}
use mathlib.Core.Path.{subst}
use t2h.Settings.{SettingManager, config_is_well}
use t2h.Handles.{registr_new_handle}
use t2h.Core.World.{Core, Outcome, returns, threw, escaped, undefined}
use t2h.Core.Service.{stop_service}
use t2h.Core.Service.Sound.{IsSound}
use t2h.Server.Core.{HttpServerCore}
use t2h.Services.{get_service}
use t2h.Api.Start.{
  Environment, Service, http_service, get_torrent_core, init_torrent_core, init_http_server,
  init_core_services, configure, initialize,
}
use t2h.Api.{Program, invalid_handle}
use t2h.Api.Functions.{t2h_init_}
use t2h.Api.Sound.{IsSafeService, IsUsable, IsOpen, put-IsUsable}
use t2h.Api.Started.{new_handle, services_started, services_missing, services_given}

module _ (env : Environment) (workaround : Bool) where
  -- A start that is given settings. With bad settings the caller gets no handle, and nothing but the
  -- settings has changed. With good ones a handle above the number of the handles comes out, under
  -- which the torrent core and the server are found, where both are started; where one of them is not,
  -- the server for one after a stop of the torrent core that returns, a null pointer is called.
  pub t2h_init_lem :
      (config : Bytes) (load_from_file : Bool) (s : Program)
      → let sets = configure env load_from_file config s.sets in
        let r = t2h_init_ env workaround (some config) load_from_file s in
        (config_is_well sets ≡ false → r ≡ (record s { sets = sets }, returns invalid_handle))
        × (config_is_well sets ≡ true
            → (init_torrent_core env sets ≡ returns none → r.1 ≡ undefined)
              × ((c : Core)
                  → init_torrent_core env sets ≡ returns (some c)
                  → (init_http_server env sets ≡ none
                      → (stop_service env.platform c).1 ≡ returns tt
                      → r.1 ≡ undefined)
                    × ((h : HttpServerCore)
                        → init_http_server env sets ≡ some h
                        → (r.1 ≡ returns (pos (size ◌==◌ s.handles + 1)))
                          × (find ◌==◌ (size ◌==◌ s.handles + 1) r.0.handles
                              ≡ some (new_handle c h)))))
  unfolding t2h_init_ initialize registr_new_handle
  t2h_init_lem config load_from_file s =
      let sets = configure env load_from_file config s.sets in
      (
        λ w. rw (w, t2h_init_) refl,
        λ w. (
          λ e. rw (w, t2h_init_) (rw ((services_missing env sets).0 e, t2h_init_) refl),
          λ c e. (
            λ f g. rw (w, t2h_init_) (rw ((services_missing env sets).1 c e f g, t2h_init_) refl),
            λ h f.
                rw (w, t2h_init_)
                  (rw (services_started env sets c h e f, t2h_init_)
                    (
                      refl,
                      find-assign_same ◌==◌ ==_iff (size ◌==◌ s.handles + 1) (new_handle c h)
                          s.handles,
                    )),
          ),
        ),
      )

  new_handle-IsUsable :
      (c : Core) (h : HttpServerCore)
      → IsSound c
      → IsSafeService (http_service h)
      → IsUsable (new_handle c h)
  unfolding get_torrent_core get_service find str_eq
  new_handle-IsUsable c h k m = record { core = c; found = refl; sound = k; safe = (k, (m, tt)) }

  given-IsUsable :
      (sets : SettingManager) (services : List (Bytes × Service))
      → init_core_services env sets ≡ returns services
      → IsUsable (record { core_handle = record { services = services }; torrents = [] })
  given-IsUsable sets services e =
      let (c, (h, (q, (k, m)))) = services_given env sets services e in
      subst (λ l. IsUsable (record { core_handle = record { services = l }; torrents = [] }))
        (sym q) (new_handle-IsUsable c h k m)

  -- A start keeps every handle usable.
  pub init-IsOpen :
      (config : Option Bytes) (load_from_file : Bool) (s : Program)
      → IsOpen s
      → IsOpen (t2h_init_ env workaround config load_from_file s).0
  unfolding t2h_init_ initialize registr_new_handle
  init-IsOpen none load_from_file s o = o
  init-IsOpen (some config) load_from_file s o =
      by_settings (config_is_well (configure env load_from_file config s.sets)) refl
    where
      sets : SettingManager
      sets = configure env load_from_file config s.sets

      by_services :
          (r : Outcome (List (Bytes × Service)))
          → config_is_well sets ≡ true
          → init_core_services env sets ≡ r
          → IsOpen (t2h_init_ env workaround (some config) load_from_file s).0
      by_services (returns services) w e =
          rw (w, t2h_init_)
            (rw (e, t2h_init_)
              (put-IsUsable s (size ◌==◌ s.handles + 1)
                (record { core_handle = record { services = services }; torrents = [] }) o
                (given-IsUsable sets services e)))
      by_services threw w e = rw (w, t2h_init_) (rw (e, t2h_init_) o)
      by_services escaped w e = rw (w, t2h_init_) (rw (e, t2h_init_) o)
      by_services undefined w e = rw (w, t2h_init_) (rw (e, t2h_init_) o)

      by_settings :
          (b : Bool)
          → config_is_well sets ≡ b
          → IsOpen (t2h_init_ env workaround (some config) load_from_file s).0
      by_settings true w = by_services (init_core_services env sets) w refl
      by_settings false w = rw (w, t2h_init_) o
