-- ===== src/Core/World.antt =====
-- src/core/torrent_core: the state that torrent_core.cpp and sequential_torrent_controller.cpp share,
-- and the monad of their functions. libtorrent is the record `Libtorrent`: what its handles answer and
-- which of its calls throw, in the history of the calls so far; a handle is a number.
use t2h.Common.{
  ℕ, suc, ◌==◌, Bool, true, false, List, [], ◌∷◌, ◌++◌, Option, none, some, Bytes, find, assign,
  erase, ℤ, if◌then◌else◌,
}
use t2h.Torrent.{FileInfo}

-- What is called of libtorrent's session and handles.
pub data Call : Type 0 where
  async_add_torrent : Bytes → Call
  session_remove_torrent : ℕ → Call
  post_torrent_updates set_settings load_state save_state : Call
  start_lsd start_upnp start_natpmp stop_dht stop_lsd stop_upnp stop_natpmp : Call
  listen_on : ℤ → ℤ → Call
  file_priority : ℕ → ℤ → ℕ → Call
  piece_priority : ℕ → ℕ → ℕ → Call
  prioritize_files : ℕ → List ℕ → Call
  force_reannounce resume_torrent pause_torrent clear_error force_recheck : ℕ → Call
  set_max_connections set_max_uploads set_upload_limit set_download_limit : ℕ → ℤ → Call
  set_sequential_download resolve_countries : ℕ → Bool → Call

pub record Libtorrent : Type 0 where
  pub no_handle : ℕ
  pub is_valid : List Call → ℕ → Bool
  pub save_path : List Call → ℕ → Option Bytes
  pub get_torrent_files : List Call → ℕ → Option (List (Bytes × ℕ))
  pub map_file : ℕ → (file_index offset : ℕ) → ℕ
  pub piece_length : ℕ → ℕ
  pub file_priorities : List Call → ℕ → List ℕ
  pub throws : List Call → Call → Bool

-- libtorrent::torrent_status, as far as it is read; `no_progress` is `progress == 0.0f`.
pub record TorrentStatus : Type 0 where
  pub handle : ℕ
  pub paused : Bool
  pub downloading : Bool
  pub num_peers : ℤ
  pub connect_candidates : ℤ
  pub no_progress : Bool

-- The classes of error_resolvers_types.hpp with the fields that they read: the status, which a resolver
-- of the factory does not have, and the end of the delay.
pub data Resolver : Type 0 where
  hang_at_start_error : Option TorrentStatus → ℕ → Resolver
  connection_error unknown_error : Resolver

-- add_torrent_future
pub record AddTorrentFuture : Type 0 where
  pub status : Bool
  pub handle : ℕ

-- torrent_ex_info
pub record TorrentExInfo : Type 0 where
  pub resolver : Option Resolver
  pub last_resolve_checkout : ℕ
  pub handle : ℕ
  pub save_path : Bytes
  pub sandbox_dir_name : Bytes
  pub index : ℕ
  pub avaliables_files : List FileInfo

-- The calls of torrent_core_event_handler.
pub data Event : Type 0 where
  event_file_add : Bytes → ℕ → Event
  event_file_remove : Bytes → Event
  event_file_complete : Bytes → ℕ → Event
  event_pause : Bytes → Event
  event_progress_update : Bytes → ℕ → Event

-- base_service::service_state
pub data CurState : Type 0 where
  service_state_unknown service_running service_stoped : CurState

-- torrent_core_settings
pub record TorrentCoreSettings : Type 0 where
  pub save_root : Bytes
  pub port_start : ℤ
  pub port_end : ℤ
  pub max_alert_wait_time : ℤ
  pub loadable_session : Bool

-- static_settings
pub record StaticSettings : Type 0 where
  pub tc_root : Bytes
  pub auto_error_resolving : Bool
  pub resolve_checkout : ℕ
  pub max_partial_download_size : ℕ
  pub partial_files_download : Bool
  pub sequential_download : Bool
  pub resolve_countries : Bool
  pub download_limit : ℤ
  pub upload_limit : ℤ
  pub max_uploads : ℤ
  pub max_connections_per_torrent : ℤ
  pub torrent_add_timeout : ℕ

-- torrent_core with its controller: `session` is whether the pointer to the session is not null, and
-- `shared_buffer` is `none` for a null pointer. The information of a torrent is shared by pointer, and
-- `ex_infos` is what the pointers below `fresh` point to, but for the field `future`, which `futures`
-- has for the pointers where it is not null. The calls and the events are kept in order.
pub record Core : Type 0 where
  pub cur_state : CurState
  pub session : Bool
  pub shared_buffer : Option (List (ℕ × ℕ))
  pub ex_infos : List (ℕ × TorrentExInfo)
  pub fresh : ℕ
  pub futures : List (ℕ × AddTorrentFuture)
  pub settings : TorrentCoreSettings
  pub controller_settings : StaticSettings
  pub calls : List Call
  pub events : List Event

-- How a call ends: with a value, by libtorrent's exception, by another exception of the standard
-- library, or in what C++ leaves undefined, as a call through a null pointer.
pub data Outcome {ℓ} (A : Type ℓ) : Type ℓ where
  returns : A → Outcome A
  threw escaped undefined : Outcome A

abbrev pub M : Type 0 → Type 0
M A = Core → Core × Outcome A

infixl 5 ◌>>=◌ ◌>>◌
unfoldable pub ◌>>=◌ : {A B : Type 0} → M A → (A → M B) → M B
◌>>=◌ m f s =
    let (t, o) = m s in
    elim o [
      | returns a ↦ f a t
      | threw ↦ (t, threw)
      | escaped ↦ (t, escaped)
      | undefined ↦ (t, undefined)
    ]

abbrev pub ◌>>◌ : {A B : Type 0} → M A → M B → M B
m >> n = m >>= λ _. n

abbrev pub pure : {A : Type 0} → A → M A
pure a s = (s, returns a)

unfoldable pub get_state : M Core
get_state s = (s, returns s)

-- LIBTORRENT_EXCEPTION_SAFE_BEGIN and LIBTORRENT_EXCEPTION_SAFE_END_, with what is returned then.
unfoldable pub exception_safe : {A : Type 0} → A → M A → M A
exception_safe a m s =
    let (t, o) = m s in
    elim o [
      | returns b ↦ (t, returns b)
      | threw ↦ (t, returns a)
      | escaped ↦ (t, escaped)
      | undefined ↦ (t, undefined)
    ]

abbrev pub is_running : CurState → Bool
is_running service_running = true
is_running service_state_unknown = false
is_running service_stoped = false

module _ (lt : Libtorrent) where
  -- A call of a handle.
  unfoldable pub call : Call → M (Unit {0})
  call c s =
      let t : Core = record s { calls = s.calls ++ c ∷ [] } in
      if lt.throws s.calls c then (t, threw) else (t, returns tt)

  -- A call through `core_session_` or `session_ref_`.
  unfoldable pub session_call : Call → M (Unit {0})
  unfolding call
  session_call c s = if s.session then call c s else (s, undefined)

  -- handle.get_torrent_info(), which throws.
  unfoldable pub get_torrent_info_of : ℕ → M (List (Bytes × ℕ))
  get_torrent_info_of h s = elim (lt.get_torrent_files s.calls h) [
    | none ↦ (s, threw)
    | some files ↦ (s, returns files)
  ]

  -- handle.save_path(), which throws.
  unfoldable pub save_path_of : ℕ → M Bytes
  save_path_of h s = elim (lt.save_path s.calls h) [
    | none ↦ (s, threw)
    | some path ↦ (s, returns path)
  ]

-- A call through `shared_buffer_`.
unfoldable pub with_buffer : {A : Type 0} → (List (ℕ × ℕ) → A) → M A
with_buffer f s = elim s.shared_buffer [ none ↦ (s, undefined) | some b ↦ (s, returns (f b)) ]

unfoldable pub set_buffer : List (ℕ × ℕ) → M (Unit {0})
set_buffer b s = (record s { shared_buffer = some b }, returns tt)

-- What is read and written through a pointer to a torrent's information.
unfoldable pub load : ℕ → M TorrentExInfo
load p s = elim (find ◌==◌ p s.ex_infos) [ none ↦ (s, undefined) | some ex ↦ (s, returns ex) ]

unfoldable pub store : ℕ → TorrentExInfo → M (Unit {0})
store p ex s = (record s { ex_infos = assign ◌==◌ p ex s.ex_infos }, returns tt)

-- The field `future` of a torrent's information, through a pointer that is there.
unfoldable pub load_future : ℕ → M (Option AddTorrentFuture)
load_future p s = (s, returns (find ◌==◌ p s.futures))

unfoldable pub store_future : ℕ → AddTorrentFuture → M (Unit {0})
store_future p f s = (record s { futures = assign ◌==◌ p f s.futures }, returns tt)

unfoldable pub erase_future : ℕ → M (Unit {0})
erase_future p s = (record s { futures = erase ◌==◌ p s.futures }, returns tt)

unfoldable pub new_info : TorrentExInfo → M ℕ
new_info ex s = (
  record s { ex_infos = assign ◌==◌ s.fresh ex s.ex_infos; fresh = suc s.fresh },
  returns s.fresh,
)

-- A destructor that writes through a pointer when the function is left, however it is left.
unfoldable pub leaving : {A : Type 0} → M (Unit {0}) → M A → M A
leaving d m s = let (t, o) = m s in ((d t).0, o)

unfoldable pub undefined_behaviour : {A : Type 0} → M A
undefined_behaviour s = (s, undefined)

unfoldable pub emit : Event → M (Unit {0})
emit e s = (record s { events = s.events ++ e ∷ [] }, returns tt)
