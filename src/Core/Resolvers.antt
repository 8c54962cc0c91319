-- ===== src/Core/Resolvers.antt =====
-- src/core/torrent_core/details: resolvers_factory.cpp, error_resolvers_types.cpp and lookup_error.cpp,
-- the resolvers of a torrent's errors. The map is kept in the order of its keys; a time is a number of
-- seconds.
pub mod Lookup
use t2h.Common.{
  ℕ, ◌+◌, leb, ltb, ◌==◌, Bool, true, false, not, ◌&&◌, List, [], ◌∷◌, Option, none, some, find,
  erase, assign, ℤ, pos, eqb_ℤ, if◌then◌else◌,
}
use t2h.Core.World.{
  Libtorrent, TorrentStatus, Resolver, hang_at_start_error, connection_error, unknown_error,
  TorrentExInfo, Core, M, returns, pure, get_state, call, Call, force_recheck, exception_safe, load,
  store, ◌>>=◌, ◌>>◌,
}

-- error_resolvers_types
unfoldable pub get_type : Resolver → ℕ
get_type (hang_at_start_error _ _) = 0
get_type connection_error = 1
get_type unknown_error = 3

unfoldable pub is_need_resolve : Resolver → TorrentStatus → Bool
is_need_resolve (hang_at_start_error _ _) status =
    (not status.paused && status.downloading)
    && ((eqb_ℤ status.num_peers (pos 0) && not (eqb_ℤ status.connect_candidates (pos 0)))
        && status.no_progress)
is_need_resolve connection_error status = false
is_need_resolve unknown_error status = false

-- clone, at the time `now`: 5 seconds from then is the deadline.
unfoldable pub clone : ℕ → Resolver → TorrentStatus → Resolver
clone now (hang_at_start_error _ _) status = hang_at_start_error (some status) (now + 5)
clone now connection_error status = connection_error
clone now unknown_error status = unknown_error

unfoldable pub set_resolve_info : Resolver → TorrentStatus → Resolver
set_resolve_info (hang_at_start_error _ deadline) status =
    hang_at_start_error (some status) deadline
set_resolve_info connection_error status = connection_error
set_resolve_info unknown_error status = unknown_error

abbrev pub Resolvers : Type 0
Resolvers = List (ℕ × Resolver)

-- resolvers_factory::register_default_resolvers
abbrev pub register_default_resolvers : Resolvers
register_default_resolvers =
    (0, hang_at_start_error none 0) ∷ (1, connection_error) ∷ (3, unknown_error) ∷ []

-- A null pointer is `none`.
unfoldable pub add_resolver : Resolvers → Option Resolver → Resolvers
unfolding get_type
add_resolver resolvers none = resolvers
add_resolver resolvers (some r) = elim (find ◌==◌ (get_type r) resolvers) [
  | none ↦ resolvers
  | some _ ↦ assign ◌==◌ (get_type r) r resolvers
]

unfoldable pub remove_resolver : Resolvers → Option Resolver → Resolvers
unfolding get_type
remove_resolver resolvers none = resolvers
remove_resolver resolvers (some r) = erase ◌==◌ (get_type r) resolvers

-- The overload with a type, without set_resolve_info.
unfoldable pub get_resolver_of : ℕ → Resolvers → ℕ → TorrentStatus → Option Resolver
unfolding is_need_resolve clone
get_resolver_of now resolvers resolver_type status = elim (find ◌==◌ resolver_type resolvers) [
  | none ↦ none
  | some r ↦ if is_need_resolve r status then some (clone now r status) else none
]

unfoldable pub get_resolver : ℕ → Resolvers → TorrentStatus → Option Resolver
unfolding is_need_resolve clone set_resolve_info
get_resolver now [] status = none
get_resolver now ((_, r) ∷ resolvers) status =
    let rest = get_resolver now resolvers status in
    if is_need_resolve r status then some (set_resolve_info (clone now r status) status) else rest

-- lookup_error::need_resolving
unfoldable pub need_resolving : ℕ → Resolvers → Option Resolver → TorrentStatus → Option Resolver
unfolding get_resolver
need_resolving now resolvers (some _) status = none
need_resolving now resolvers none status = get_resolver now resolvers status

module _ (lt : Libtorrent) where
  -- The virtual function resolve. A resolver that was never given a status has a handle that is not
  -- valid.
  unfoldable pub resolve : ℕ → Resolver → M Bool
  unfolding ◌>>=◌ call exception_safe
  resolve now (hang_at_start_error none deadline) = pure false
  resolve now (hang_at_start_error (some status) deadline) = exception_safe false (do
    s ← get_state
    if not (lt.is_valid s.calls status.handle)
        then pure false
        else if leb deadline now
        then (do call lt (force_recheck status.handle); pure true)
        else pure false)
  resolve now connection_error = pure true
  resolve now unknown_error = pure true

  -- lookup_error: the constructor, and the destructor with try_resolve.
  unfoldable pub lookup_error : ℕ → Resolvers → ℕ → TorrentStatus → M (Unit {0})
  unfolding ◌>>=◌ load store need_resolving resolve
  lookup_error now resolvers p status = do
    ex ← load p
    elim (need_resolving now resolvers ex.resolver status) [
      | none ↦ pure tt
      | some r ↦ store p (record ex { resolver = some r })
    ]
    ex' ← load p
    elim ex'.resolver [
      | none ↦ pure tt
      | some r ↦ do
        done ← resolve now r
        now_ex ← load p
        if done then store p (record now_ex { resolver = none }) else pure tt
    ]
