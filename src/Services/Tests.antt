-- ===== src/Services/Tests.antt =====
-- Tests of the services, with a state for a service.
use t2h.Common.{true, List, [], ◌∷◌, none, some, Bytes, codes, str_eq, find, ◌≡◌, ◌≢◌, refl, arith}
use t2h.Services.{
  ServiceState, service_running, service_stoped, registrate, unregistrate, get_service, stop_one,
  each, stop_all,
}
use t2h.Services.Ends.{registrate_lem, stop_all_lem}

abbrev one_service : List (Bytes × ServiceState)
one_service = (codes "http", service_running) ∷ []

abbrev stays : ServiceState → ServiceState
stays s = s

abbrev becomes_stoped : ServiceState → ServiceState
becomes_stoped s = service_stoped

registrate_lem_test :
    (get_service one_service (codes "core") ≡ none
      → get_service (registrate one_service (some (codes "core", service_stoped))).0 (codes "core")
        ≡ some service_stoped)
    × (((t : ServiceState)
          → get_service one_service (codes "core") ≡ some t
          → registrate one_service (some (codes "core", service_stoped)) ≡ (one_service, true))
        × ((get_service
                (registrate one_service (some (codes "core", service_stoped))).0
                (codes "longer")
              ≡ get_service one_service (codes "longer"))
            × (((unregistrate one_service (codes "core")).1
                  ≡ get_service one_service (codes "core"))
                × ((get_service (unregistrate one_service (codes "core")).0 (codes "core") ≡ none)
                    × (get_service (unregistrate one_service (codes "core")).0 (codes "longer")
                        ≡ get_service one_service (codes "longer"))))))
registrate_lem_test =
    registrate_lem one_service (codes "core") (codes "longer") service_stoped (λ e. ground arith)

stop_all_lem_test :
    (service_stoped ≢ service_running)
    × (get_service (stop_all stays becomes_stoped stays one_service).0 (codes "http") ≡ none)
unfolding find str_eq stop_all stop_one each
stop_all_lem_test =
    stop_all_lem stays becomes_stoped stays (λ s e f. ground (arith, f)) one_service (codes "http")
      service_stoped refl
