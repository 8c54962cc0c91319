-- ===== src/Services.antt =====
-- src/common/services_manager.cpp, services_manager.hpp and base_service.hpp: the services of a core
-- by name. A service is its state, and what stopping and waiting make of it are parameters.
mod Ends
mod Tests
use t2h.Common.{
  ℕ, Bool, true, false, List, [], ◌∷◌, Option, none, some, Bytes, str_eq, find, erase, assign,
}

-- base_service::service_state; service_error and service_state_unknown are the same number.
pub data ServiceState : Type 0 where
  service_running service_stoped service_error : ServiceState

abbrev pub service_state_unknown : ServiceState
service_state_unknown = service_error

-- A service and its name; `none` is a null pointer.
module _ {S : Type 0} where
  unfoldable pub registrate : List (Bytes × S) → Option (Bytes × S) → List (Bytes × S) × Bool
  registrate services none = (services, false)
  registrate services (some (name, service)) = elim (find str_eq name services) [
    | none ↦ (assign str_eq name service services, true)
    | some s ↦ (services, true)
  ]

  unfoldable pub unregistrate : List (Bytes × S) → Bytes → List (Bytes × S) × Option S
  unregistrate services name = elim (find str_eq name services) [
    | none ↦ (services, none)
    | some s ↦ (erase str_eq name services, some s)
  ]

  unfoldable pub get_service : List (Bytes × S) → Bytes → Option S
  get_service services name = find str_eq name services

  unfoldable pub each : (S → S) → List (Bytes × S) → List (Bytes × S)
  each f [] = []
  each f ((name, s) ∷ services) = (name, f s) ∷ each f services

  module _ (state_of : S → ServiceState) (stop_service wait_service : S → S) where
    unfoldable pub get_service_state : List (Bytes × S) → Bytes → ServiceState
    get_service_state services name = elim (find str_eq name services) [
      | none ↦ service_state_unknown
      | some s ↦ state_of s
    ]

    unfoldable pub stop_one : S → S
    stop_one s = elim (state_of s) [
      | service_running ↦ wait_service (stop_service s)
      | service_stoped ↦ s
      | service_error ↦ s
    ]

    -- The table, which is empty then, and the services that it held, as they are left.
    unfoldable pub stop_all : List (Bytes × S) → List (Bytes × S) × List (Bytes × S)
    unfolding stop_one each
    stop_all services = ([], each stop_one services)

    unfoldable pub wait_one : S → S
    wait_one s = elim (state_of s) [
      | service_running ↦ wait_service s
      | service_stoped ↦ s
      | service_error ↦ s
    ]

    unfoldable pub wait_all : List (Bytes × S) → List (Bytes × S)
    unfolding wait_one each
    wait_all services = each wait_one services
