-- ===== src/Server/Core/Life.antt =====
-- http_server_core.cpp: when the server starts, and what its stop leaves.
use t2h.Common.{
  ℕ, Bool, true, false, not, ◌||◌, Option, none, some, Bytes, ℤ, pos, leb_ℤ, ltb_ℤ, if◌then◌else◌,
  ◌≡◌, ◌⊎◌, refl, Option-cases, inl, inr, arith,
}
use t2h.Http.Transport.Connection.{
  TransportConfig, HttpMongooseTransport, establish_connection, stop_connection,
}
use t2h.Core.World.{service_running, service_stoped, is_running}
use t2h.Server.Buffer.{FileInfoBuffer, stop_graceful}
use t2h.Server.Core.{
  HscLocalConfig, ServerSettings, HttpServerCore, hcs_from_setting_manager, from_setting_manager,
  start_transport, launch_service, stop_service,
}

-- The transport that a launch leaves.
abbrev pub established : (TransportConfig → Bool) → TransportConfig → HttpMongooseTransport
established mg_start config = record {
  config = record config { context = true };
  mg_handle = mg_start (record config { context = true });
  http_context = true;
  stop = false;
}

abbrev pub started : (TransportConfig → Bool) → HscLocalConfig → TransportConfig → HttpServerCore
started mg_start local config = record {
  transport = some (established mg_start config);
  cur_state = service_running;
  local_config = local;
}

module _ (exists is_directory : Bytes → Bool) (mg_start : TransportConfig → Bool)
    (r : ServerSettings) where
  abbrev local_of : Option HscLocalConfig
  local_of = hcs_from_setting_manager exists is_directory r

  sized :
      (doc_root : Bytes) (chunk : ℤ) (timeout : ℕ) (local : HscLocalConfig)
      → (if (not (exists doc_root) || not (is_directory doc_root)) || ltb_ℤ chunk (pos 1000)
          then none
          else some (record {
            doc_root = doc_root;
            chunked_ostream = true;
            max_chunk_size = chunk;
            cores_sync_timeout = timeout;
          }))
        ≡ some local
      → (leb_ℤ (pos 1000) local.max_chunk_size ≡ true)
        × ((exists local.doc_root ≡ true) × (is_directory local.doc_root ≡ true))
  sized doc_root chunk timeout local e = ground arith

  -- The settings that the server takes.
  checked :
      (local : HscLocalConfig)
      → local_of ≡ some local
      → (leb_ℤ (pos 1000) local.max_chunk_size ≡ true)
        × ((exists local.doc_root ≡ true) × (is_directory local.doc_root ≡ true))
  unfolding hcs_from_setting_manager
  checked local e = ground arith

  pub refused :
      (s : HttpServerCore)
      → is_running s.cur_state ≡ false
      → local_of ≡ none
      → ((launch_service exists is_directory mg_start r s).1 ≡ false)
        × ((launch_service exists is_directory mg_start r s).0.cur_state ≡ s.cur_state)
  unfolding launch_service
  refused s h k = rw (h, launch_service) (rw (k, launch_service) (refl, refl))

  pub badly :
      (s : HttpServerCore)
      → is_running s.cur_state ≡ false
      → (local : HscLocalConfig) → local_of ≡ some local
      → from_setting_manager r ≡ none
      → ((launch_service exists is_directory mg_start r s).1 ≡ false)
        × ((launch_service exists is_directory mg_start r s).0.cur_state ≡ s.cur_state)
  unfolding launch_service
  badly s h local k m =
      rw (h, launch_service) (rw (k, launch_service) (rw (m, launch_service) (refl, refl)))

  pub launched :
      (s : HttpServerCore)
      → is_running s.cur_state ≡ false
      → (local : HscLocalConfig) (config : TransportConfig) → local_of ≡ some local
      → from_setting_manager r ≡ some config
      → launch_service exists is_directory mg_start r s ≡ (started mg_start local config, true)
  unfolding launch_service start_transport establish_connection
  launched s h local config k m =
      rw (h, launch_service) (rw (k, launch_service) (rw (m, launch_service) refl))

  again :
      (local : HscLocalConfig) (config : TransportConfig)
      → launch_service exists is_directory mg_start r (started mg_start local config)
        ≡ (started mg_start local config, false)
  unfolding launch_service
  again local config = refl

  -- A server that does not run is launched exactly where both groups of settings are good; the launch
  -- then returns true, with a server that runs, also where mongoose did not start. Its files are in a
  -- directory that is there, and a chunk has a thousand bytes at least. A second launch returns false
  -- and changes nothing. A stop calls that of the transport and leaves the table of the files as it is.
  -- Where the settings are bad the launch returns false and the server's state is as before.
  pub launch-stop :
      (s : HttpServerCore) (b : FileInfoBuffer)
      → is_running s.cur_state ≡ false
      → ((local_of ≡ none) ⊎ (from_setting_manager r ≡ none)
          → ((launch_service exists is_directory mg_start r s).1 ≡ false)
            × ((launch_service exists is_directory mg_start r s).0.cur_state ≡ s.cur_state))
        × ((local : HscLocalConfig) (config : TransportConfig)
            → local_of ≡ some local
            → from_setting_manager r ≡ some config
            → ((leb_ℤ (pos 1000) local.max_chunk_size ≡ true)
                × ((exists local.doc_root ≡ true) × (is_directory local.doc_root ≡ true)))
              × ((launch_service exists is_directory mg_start r s
                    ≡ (started mg_start local config, true))
                  × ((launch_service exists is_directory mg_start r (started mg_start local config)
                        ≡ (started mg_start local config, false))
                      × (stop_service (started mg_start local config) b
                          ≡ some (
                            record (started mg_start local config) {
                              cur_state = service_stoped;
                              transport = some (stop_connection (established mg_start config));
                            },
                            b,
                          )))))
  unfolding stop_service stop_graceful
  launch-stop s b h = (
    λ bad. elim bad [
      | inl k ↦ refused s h k
      | inr k ↦ elim (Option-cases local_of) [
        | inl k' ↦ refused s h k'
        | inr (local, k') ↦ badly s h local k' k
      ]
    ],
    λ local config k m.
        (checked local k, (launched s h local config k m, (again local config, refl))),
  )
