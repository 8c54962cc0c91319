-- ===== src/Core/Service/Removal.antt =====
-- src/core/torrent_core/torrent_core.cpp and sequential_torrent_controller.cpp: what is left of a torrent
-- that is removed when libtorrent tells that it is deleted.
use t2h.Common.{
  ℕ, ◌==◌, ==_iff, true, false, List, Option, none, some, Bytes, find, erase, find-erase, ◌≡◌, refl,
  sym, ap, ◌∙◌, arith,
}
use mathlib.Core.Path.{subst}
use t2h.Core.World.{
  Call, post_torrent_updates, session_remove_torrent, Core, TorrentExInfo, event_file_remove,
  returns, M, ◌>>=◌, ◌>>◌, pure, save_path_of, session_call, with_buffer, set_buffer, load,
  is_running,
}
use t2h.Core.Buffer.{get_usafe, get, remove, remove_usafe}
use t2h.Core.Controller.{emit_each}
use t2h.Core.Alerts.{on_deleted}
use t2h.Core.Service.{Platform, remove_torrent}
use t2h.Core.Calls.{logged, bind_returns, session_call_returns, on_torrent_returns, buffered}

module _ (e : Platform) (i p : ℕ) (s : Core) (torrents : List (ℕ × ℕ)) (ex : TorrentExInfo)
    (running : is_running s.cur_state ≡ true) (session : s.session ≡ true)
    (shared : s.shared_buffer ≡ some torrents) (there : find ◌==◌ i torrents ≡ some p)
    (stored : find ◌==◌ p s.ex_infos ≡ some ex)
    (calm : (c : List Call) (k : Call) → e.lt.throws c k ≡ false) where
  -- The state that the removal leaves.
  abbrev without : Core
  without = logged post_torrent_updates (record (logged (session_remove_torrent ex.handle) s) {
    shared_buffer = some (erase ◌==◌ i torrents);
  })

  removed_torrent : remove_torrent e i s ≡ (without, returns tt)
  unfolding remove_torrent set_buffer remove_usafe
  removed_torrent =
      on_torrent_returns e tt tt i p act s without torrents ex running shared there stored (
        bind_returns (session_call e.lt (session_remove_torrent ex.handle)) (λ _. taken >>= written)
          s s1 tt
          (session_call_returns e.lt (session_remove_torrent ex.handle) s session
            (calm s.calls (session_remove_torrent ex.handle)))
        ∙ bind_returns taken written s1 s1 (erase ◌==◌ i torrents)
            (buffered (λ b. remove_usafe b i) torrents s1 shared)
        ∙ bind_returns (set_buffer (erase ◌==◌ i torrents))
            (λ _. session_call e.lt post_torrent_updates) s1 s2 tt refl
        ∙ session_call_returns e.lt post_torrent_updates s2 session
            (calm s2.calls post_torrent_updates))
    where
      s1 : Core
      s1 = logged (session_remove_torrent ex.handle) s

      s2 : Core
      s2 = record s1 { shared_buffer = some (erase ◌==◌ i torrents) }

      taken : M (List (ℕ × ℕ))
      taken = with_buffer (λ b. remove_usafe b i)

      written : List (ℕ × ℕ) → M (Unit {0})
      written left = set_buffer left >> session_call e.lt post_torrent_updates

      act : TorrentExInfo → M (Unit {0})
      act x = session_call e.lt (session_remove_torrent x.handle) >> (taken >>= written)

  gone : (path : Bytes) → e.hasher path ≡ i → get e.hasher (erase ◌==◌ i torrents) path ≡ none
  unfolding get get_usafe
  gone path h =
      let same : (i == e.hasher path) ≡ true = ground (arith, h) in
      find-erase ◌==◌ ==_iff i torrents (e.hasher path) ∙ rw same refl

  told_of_nothing :
      (path : Bytes)
      → e.lt.save_path without.calls ex.handle ≡ some path
      → e.hasher path ≡ i
      → on_deleted e.lt e.hasher e.partial_sort ex.handle without ≡ (without, returns tt)
  unfolding on_deleted save_path_of
  told_of_nothing path known h =
      bind_returns (save_path_of e.lt ex.handle) sought without without path
        (rw (known, save_path_of) refl)
      ∙ bind_returns (with_buffer (λ b. get e.hasher b path)) answer without without none (
          buffered (λ b. get e.hasher b path) (erase ◌==◌ i torrents) without refl
          ∙ ap (λ o. (without, returns o)) (gone path h))
    where
      answer : Option ℕ → M (Unit {0})
      answer found = elim found [
        | none ↦ pure tt
        | some q ↦ do
          now_ex ← load q
          emit_each event_file_remove now_ex.avaliables_files
          save_path ← save_path_of e.lt ex.handle
          left ← with_buffer (λ b. remove e.hasher b save_path)
          set_buffer left
      ]

      sought : Bytes → M (Unit {0})
      sought found_path = with_buffer (λ b. get e.hasher b found_path) >>= answer

  -- A torrent of a running service that is removed, by a libtorrent that throws nothing and still knows
  -- the path of the torrent, is out of the buffer before libtorrent tells that it is deleted. The
  -- removal tells of no file, and the handling of that alert, which is to tell of the removal of every
  -- file, then does nothing.
  pub remove_torrent-on_deleted :
      (path : Bytes)
      → ((c : List Call) → e.lt.save_path c ex.handle ≡ some path)
      → e.hasher path ≡ i
      → ((remove_torrent e i s).0.events ≡ s.events)
        × (on_deleted e.lt e.hasher e.partial_sort ex.handle (remove_torrent e i s).0
            ≡ ((remove_torrent e i s).0, returns tt))
  remove_torrent-on_deleted path known h = (
    ap (λ r. r.0.events) removed_torrent,
    subst (λ t. on_deleted e.lt e.hasher e.partial_sort ex.handle t ≡ (t, returns tt))
        (sym (ap (λ r. r.0) removed_torrent)) (told_of_nothing path (known without.calls) h),
  )
