-- ===== src/Core/Service/Loop.antt =====
-- src/core/torrent_core/torrent_core.cpp: the loop over libtorrent's alerts, and the addition of a
-- torrent, which waits for it. An iteration of the loop is the alerts that came before its deadline, or
-- `none`; an alert that is no pointer is `none`.
use t2h.Common.{ℕ, not, Bool, true, false, List, [], ◌∷◌, Option, none, some, Bytes, if◌then◌else◌}
use t2h.Torrent.Text.{Paths, initialize_f}
use t2h.Core.World.{
  post_torrent_updates, TorrentExInfo, service_stoped, returns, threw, escaped, undefined, M, ◌>>=◌,
  ◌>>◌, pure, get_state, session_call, save_path_of, with_buffer, set_buffer, load, store, new_info,
  is_running, exception_safe,
}
use t2h.Core.Buffer.{add, remove}
use t2h.Core.Controller
use t2h.Core.Alerts.{Alert, listen_failed_alert, dispatch_alert}
use t2h.Core.Resolvers.{Resolvers}
use t2h.Core.Service.{Platform, invalid_torrent_id, when_running, set_cur_state}

-- Every exception of the standard library is caught for each alert.
unfoldable pub swallow : M (Unit {0}) → M (Unit {0})
swallow m s =
    let (t, o) = m s in
    elim o [
      | returns b ↦ (t, returns tt)
      | threw ↦ (t, returns tt)
      | escaped ↦ (t, returns tt)
      | undefined ↦ (t, undefined)
    ]

-- is_critical_error
unfoldable pub is_critical_error : Alert → Bool
is_critical_error listen_failed_alert = true
is_critical_error _ = false

-- The time of an iteration and what its wait gave.
abbrev pub Round : Type 0
Round = ℕ × Option (List (Option Alert))

module _ (e : Platform) (resolvers : Resolvers) where
  unfoldable pub handle_core_notifications : ℕ → List (Option Alert) → M (Unit {0})
  unfolding ◌>>=◌ swallow is_critical_error set_cur_state dispatch_alert
  handle_core_notifications now [] = pure tt
  handle_core_notifications now (none ∷ alerts) = handle_core_notifications now alerts
  handle_core_notifications now (some a ∷ alerts) = do
    swallow (
        if is_critical_error a
        then set_cur_state e service_stoped
        else dispatch_alert e.lt e.hasher e.partial_sort now resolvers a)
    handle_core_notifications now alerts

  -- The body of the loop; the exceptions of libtorrent are caught.
  unfoldable pub core_round : Round → M (Unit {0})
  unfolding ◌>>=◌ exception_safe session_call handle_core_notifications
  core_round (now, waited) = exception_safe tt (do
    session_call e.lt post_torrent_updates
    elim waited [ none ↦ pure tt | some alerts ↦ handle_core_notifications now alerts ])

  -- The loop up to the last of the given rounds, or to its end when the service does not run.
  unfoldable pub core_main_loop : List Round → M (Unit {0})
  unfolding ◌>>=◌ core_round set_cur_state
  core_main_loop [] = pure tt
  core_main_loop (r ∷ rounds) = do
    s ← get_state
    if is_running s.cur_state
        then (do core_round r; core_main_loop rounds)
        else set_cur_state e service_stoped

  unfoldable pub fresh_info : ℕ → TorrentExInfo
  fresh_info now = record {
    resolver = none;
    last_resolve_checkout = now;
    handle = e.lt.no_handle;
    save_path = [];
    sandbox_dir_name = [];
    index = 0;
    avaliables_files = [];
  }

  -- The pointer is put into the buffer, with its hash.
  unfoldable pub add_to_buffer : ℕ → TorrentExInfo → M (Bool × ℕ)
  unfolding add
  add_to_buffer p ex s = elim s.shared_buffer [
    | none ↦ (s, undefined)
    | some b ↦
        let (c, (infos, answer)) = add e.hasher b s.ex_infos p ex in
        (record s { shared_buffer = some c; ex_infos = infos }, returns answer)
  ]

  -- add_torrent at the time `now`, while the loop goes through `rounds`.
  unfoldable pub add_torrent : ℕ → Paths → List Round → Bytes → M ℕ
  unfolding ◌>>=◌ when_running new_info store add_to_buffer load save_path_of with_buffer set_buffer
      core_main_loop
  add_torrent now paths rounds path = when_running e invalid_torrent_id (do
    p ← new_info (fresh_info now)
    s ← get_state
    elim (initialize_f paths s.settings.save_root path) [
      | none ↦ pure invalid_torrent_id
      | some (save_path, sandbox) ↦ do
        let ex : TorrentExInfo = record (fresh_info now) {
          save_path = save_path;
          sandbox_dir_name = sandbox;
        }
        store p ex
        added ← add_to_buffer p ex
        if not added.0 then pure invalid_torrent_id else (do
          accepted ← Controller.add_torrent e.lt e.hasher (core_main_loop rounds) p
          if accepted then pure added.1 else (do
            now_ex ← load p
            handle_path ← save_path_of e.lt now_ex.handle
            left ← with_buffer (λ b. remove e.hasher b handle_path)
            set_buffer left
            pure invalid_torrent_id))
    ])
