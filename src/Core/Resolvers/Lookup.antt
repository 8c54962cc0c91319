-- ===== src/Core/Resolvers/Lookup.antt =====
-- lookup_error: a torrent that hangs is given a resolver, which waits and then rechecks it.
use t2h.Common.{
  ℕ, ◌+◌, ◌≤◌, ◌<◌, leb, Bool, true, false, not, [], ◌∷◌, ◌++◌, none, some, if◌then◌else◌, ◌≡◌,
  refl, arith,
}
use t2h.Core.World.{
  force_recheck, Core, Libtorrent, TorrentStatus, hang_at_start_error, returns, M, ◌>>=◌, ◌>>◌,
  pure, get_state, call,
}
use t2h.Core.Calls.{logged, bind_returns, safe_returns, call_returns}
use t2h.Core.Resolvers.{
  register_default_resolvers, is_need_resolve, get_resolver, resolve, clone, set_resolve_info,
}

-- A torrent that hangs, without a resolver: the default resolvers find one whose delay ends in five
-- seconds.
get_resolver_hang :
    (now : ℕ) (status : TorrentStatus)
    → is_need_resolve (hang_at_start_error none 0) status ≡ true
    → get_resolver now register_default_resolvers status
      ≡ some (hang_at_start_error (some status) (now + 5))
unfolding get_resolver clone set_resolve_info
get_resolver_hang now status h = rw (h, get_resolver) refl

-- A resolver of a torrent whose handle is valid is not done before the end of its delay and changes
-- nothing; from then on it has the torrent checked again, once, and is done, when libtorrent does not
-- throw.
pub resolve_lem :
    (lt : Libtorrent) (now deadline : ℕ) (status : TorrentStatus) (s : Core)
    → lt.is_valid s.calls status.handle ≡ true
    → lt.throws s.calls (force_recheck status.handle) ≡ false
    → (now < deadline
        → resolve lt now (hang_at_start_error (some status) deadline) s ≡ (s, returns false))
      × (deadline ≤ now
          → resolve lt now (hang_at_start_error (some status) deadline) s
            ≡ (record s { calls = s.calls ++ force_recheck status.handle ∷ [] }, returns true))
unfolding resolve get_state ◌>>=◌
resolve_lem lt now deadline status s v t = (
  λ l.
      safe_returns false false begun s s
        (waits (lt.is_valid s.calls status.handle) (leb deadline now) v (ground (arith, l))),
  λ l.
      safe_returns false true begun s (logged (force_recheck status.handle) s)
        (checks (lt.is_valid s.calls status.handle) (leb deadline now) v (ground (arith, l))),
)
  where
    check : M Bool
    check = call lt (force_recheck status.handle) >> pure true

    begun : M Bool
    begun = get_state >>= λ u.
        if not (lt.is_valid u.calls status.handle)
        then pure false
        else if leb deadline now
        then check
        else pure false

    waits :
        (b c : Bool)
        → b ≡ true
        → c ≡ false
        → (if not b then pure false else if c then check else pure false) s ≡ (s, returns false)
    waits true true g h = absurd (ground (arith, h))
    waits true false g h = refl
    waits false c g h = absurd (ground (arith, g))

    checks :
        (b c : Bool)
        → b ≡ true
        → c ≡ true
        → (if not b then pure false else if c then check else pure false) s
          ≡ (logged (force_recheck status.handle) s, returns true)
    checks true true g h =
        bind_returns (call lt (force_recheck status.handle)) (λ _. pure true) s
          (logged (force_recheck status.handle) s) tt
          (call_returns lt (force_recheck status.handle) s t)
    checks true false g h = absurd (ground (arith, h))
    checks false c g h = absurd (ground (arith, g))
