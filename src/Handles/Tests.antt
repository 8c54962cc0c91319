-- ===== src/Handles/Tests.antt =====
-- Tests of the handles' numbers.
use t2h.Common.{ℕ, List, [], ◌∷◌, none, some, ◌≡◌, refl, arith, find, size}
use t2h.Handles.{registr_new_handle, unregistr_handle, get_handle}
use t2h.Handles.Lookup.{
  registr_new_handle_lem, unregistr_handle_lem, registr_new_handle-IsDense, registr-unregistr_clash,
  IsDense, registered,
}

abbrev two_handles : List (ℕ × ℕ)
two_handles = (1, 70) ∷ (2, 80) ∷ []

abbrev no_handles : List (ℕ × ℕ)
no_handles = []

registr_new_handle_lem_test :
    (get_handle (registr_new_handle two_handles 90).0 (registr_new_handle two_handles 90).1
      ≡ some 90)
    × (get_handle (registr_new_handle two_handles 90).0 2 ≡ get_handle two_handles 2)
unfolding registr_new_handle size
registr_new_handle_lem_test = registr_new_handle_lem two_handles 90 2 (omega arith)

unregistr_handle_lem_test :
    ((unregistr_handle two_handles 1).1 ≡ get_handle two_handles 1)
    × ((get_handle (unregistr_handle two_handles 1).0 1 ≡ none)
        × (get_handle (unregistr_handle two_handles 1).0 2 ≡ get_handle two_handles 2))
unregistr_handle_lem_test = unregistr_handle_lem two_handles 1 2 (omega arith)

registr_new_handle-IsDense_test :
    (get_handle no_handles (registr_new_handle no_handles 5).1 ≡ none)
    × IsDense (registr_new_handle no_handles 5).0
unfolding IsDense find
registr_new_handle-IsDense_test = registr_new_handle-IsDense no_handles 5 (λ k l. refl)

abbrev one_handle : List ℕ
one_handle = 70 ∷ []

registr-unregistr_clash_example :
    let (m, removed) = unregistr_handle (registered (80 ∷ one_handle)) 1 in
    let (after, number) = registr_new_handle m 90 in
    ((removed ≡ get_handle (registered (80 ∷ one_handle)) 1) × ((x : ℕ) × (removed ≡ some x)))
    × ((get_handle m 2 ≡ some 80) × ((number ≡ 2) × (get_handle after 2 ≡ some 90)))
registr-unregistr_clash_example =
    registr-unregistr_clash one_handle 80 90 1 (omega arith) (omega arith)
