-- ===== src/Core/Future.antt =====
-- src/core/torrent_core/torrent_core_future.cpp: the two loops that wait for the status of a future.
-- A wake-up says what the status is then and whether the wait ended before its deadline.
use t2h.Common.{Bool, true, false, not, ◌&&◌, List, [], ◌∷◌, Option, none, some, if◌then◌else◌}

pub record Wake : Type 0 where
  pub status : Bool
  pub success : Bool

-- `none` while the loop waits on.
unfoldable pub wait_result : List Wake → Option (Unit {0})
wait_result [] = none
wait_result (w ∷ ws) = let rest = wait_result ws in if w.status then some tt else rest

unfoldable pub timed_wait_result : List Wake → Option Bool
timed_wait_result [] = none
timed_wait_result (w ∷ ws) =
    let rest = timed_wait_result ws in
    if not w.status && not w.success then some false else if w.status then some true else rest
