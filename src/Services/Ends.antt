-- ===== src/Services/Ends.antt =====
-- services_manager: what is registered under a name, and the end of all services.
use t2h.Common.{
  true, List, [], ◌∷◌, none, some, Bytes, str_eq, str_eq_iff, find, find-assign_same,
  find-assign_other, find-erase_same, find-erase_other, ◌≡◌, ◌≢◌, refl, Option-cases, Bool-cases,
  inl, inr, arith,
}
use t2h.Services.{
  ServiceState, service_running, service_stoped, service_error, registrate, unregistrate,
  get_service, stop_one, each, stop_all,
}

module _ {S : Type 0} where
  -- A service is found under its name once it is registered, unless the name was taken, when the one
  -- that was there stays and the call says true all the same; taking it out gives the one that was
  -- found and leaves the name without one. No other name is touched.
  pub registrate_lem :
      (m : List (Bytes × S)) (name other : Bytes) (s : S)
      → name ≢ other
      → (get_service m name ≡ none → get_service (registrate m (some (name, s))).0 name ≡ some s)
        × (((t : S) → get_service m name ≡ some t → registrate m (some (name, s)) ≡ (m, true))
            × ((get_service (registrate m (some (name, s))).0 other ≡ get_service m other)
                × (((unregistrate m name).1 ≡ get_service m name)
                    × ((get_service (unregistrate m name).0 name ≡ none)
                        × (get_service (unregistrate m name).0 other ≡ get_service m other)))))
  unfolding registrate unregistrate get_service
  registrate_lem m name other s d = elim (Option-cases (find str_eq name m)) [
    | inl e ↦
        rw (e, registrate, unregistrate)
          (
            λ f. find-assign_same str_eq str_eq_iff name s m,
            (
              λ t f. absurd (ground arith),
              (find-assign_other str_eq str_eq_iff name other s m d, (refl, (e, refl))),
            ),
          )
    | inr (t, e) ↦
        rw (e, registrate, unregistrate)
          (
            λ f. absurd (ground arith),
            (
              λ u f. refl,
              (
                refl,
                (
                  refl,
                  (
                    find-erase_same str_eq str_eq_iff name m,
                    find-erase_other str_eq str_eq_iff name other m d,
                  ),
                ),
              ),
            ),
          )
  ]

  module _ (state_of : S → ServiceState) (stop_service wait_service : S → S)
      (stops : (s : S)
        → state_of s ≡ service_running
        → state_of (wait_service (stop_service s)) ≢ service_running) where
    one_stopped :
        (s : S) → state_of (stop_one state_of stop_service wait_service s) ≢ service_running
    unfolding stop_one
    one_stopped s = by_state (state_of s) refl
      where
        by_state :
            (x : ServiceState)
            → state_of s ≡ x
            → state_of (stop_one state_of stop_service wait_service s) ≢ service_running
        by_state service_running e = rw (e, stop_one) (stops s e)
        by_state service_stoped e = rw (e, stop_one) (λ f. cc)
        by_state service_error e = rw (e, stop_one) (λ f. cc)

    all_stopped :
        (m : List (Bytes × S)) (name : Bytes) (s : S)
        → find str_eq name (each (stop_one state_of stop_service wait_service) m) ≡ some s
        → state_of s ≢ service_running
    unfolding each find
    all_stopped [] name s e = cc
    all_stopped ((n, t) ∷ m) name s e = elim (Bool-cases (str_eq n name)) [
      | inl g ↦ λ f. ground (arith, g, e, f, one_stopped t)
      | inr g ↦ all_stopped m name s (ground (arith, e, g))
    ]

    -- Where a running service that was stopped and waited for does not run any more, no service runs
    -- after all were stopped, and the table is empty.
    pub stop_all_lem :
        (m : List (Bytes × S)) (name : Bytes) (s : S)
        → find str_eq name (stop_all state_of stop_service wait_service m).1 ≡ some s
        → (state_of s ≢ service_running)
          × (get_service (stop_all state_of stop_service wait_service m).0 name ≡ none)
    unfolding stop_all get_service find
    stop_all_lem m name s e = (all_stopped m name s e, refl)
