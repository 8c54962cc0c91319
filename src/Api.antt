-- ===== src/Api.antt =====
-- src/core/external_api/external_api.cpp: the functions that the library exports. A handle's object is
-- shared by pointer and reached through the table of the handles alone; the text that a caller is given
-- is kept in the memory of its torrent. The replacement of backslashes in a path is for Windows and is
-- not modelled.
pub mod Start
pub mod Started
pub mod Init
pub mod Guards
pub mod Sound
pub mod Functions
pub mod Calls
pub mod Closing
pub mod Reachable
pub mod Url
pub mod Samples
mod Tests
use t2h.Common.{
  ℕ, suc, ◌+◌, ◌-◌, ◌^◌, ◌==◌, Bool, true, false, List, [], ◌∷◌, ◌++◌, Option, none, some, Bytes,
  codes, find, erase, assign, size, str_eq, ℤ, pos, negsuc, if◌then◌else◌,
}
use t2h.Settings.{SettingManager}
use t2h.Handles.{registr_new_handle, unregistr_handle, get_handle}
use t2h.Torrent.Text.{Paths}
use t2h.Core.World.{Outcome, returns, threw, escaped, undefined, M}
use t2h.Core.Resolvers.{Resolvers}
use t2h.Core.Service.{
  invalid_torrent_id, get_torrent_info, start_torrent_download, pause_download, resume_download,
  remove_torrent, stop_torrent_download, add_torrent_url,
}
use t2h.Core.Service.Loop.{Round, add_torrent}
use t2h.Server.Buffer.{FileInfoBuffer}
use t2h.Api.Start.{
  Environment, Service, torrent_service, http_service, this_service_name, CoreHandle,
  get_torrent_core, cast_value, initialize, destroy,
}

-- details::underlying_info
pub record UnderlyingInfo : Type 0 where
  pub tid : ℕ
  pub mem_collector : List Bytes

-- details::underlying_handle
pub record UnderlyingHandle : Type 0 where
  pub core_handle : CoreHandle
  pub torrents : List (ℕ × UnderlyingInfo)

-- What the program holds outside of its functions: the handles, the settings and the table of files.
pub record Program : Type 0 where
  pub handles : List (ℕ × UnderlyingHandle)
  pub sets : SettingManager
  pub table : FileInfoBuffer

-- INVALID_T2H_HANDLE, and INVALID_TORRENT_ID as an unsigned number of 64 bits; with T2H_INT_WORKAROUND,
-- where the number of a torrent is an int, it stands for the int -1.
abbrev pub invalid_handle : ℤ
invalid_handle = negsuc 0

abbrev pub invalid_id : ℕ
invalid_id = 2 ^ 64 - 1

-- underlying_handle::add_info of new information for the torrent, with whether T2H_INT_WORKAROUND is
-- defined. An insertion under a key that is there changes nothing.
unfoldable pub add_info : Bool → UnderlyingHandle → ℕ → UnderlyingHandle × ℕ
add_info workaround h tid =
    let id = if workaround then size ◌==◌ h.torrents + 1 else tid in
    elim (find ◌==◌ id h.torrents) [
      | none ↦ (
        record h {
          torrents = assign ◌==◌ id (record { tid = tid; mem_collector = [] }) h.torrents;
        },
        id,
      )
      | some _ ↦ (h, id)
    ]

unfoldable pub get_info : UnderlyingHandle → ℕ → Option UnderlyingInfo
get_info h tid = find ◌==◌ tid h.torrents

unfoldable pub remove_info : UnderlyingHandle → ℕ → UnderlyingHandle
remove_info h tor_id = record h { torrents = erase ◌==◌ tor_id h.torrents }

-- The array with its final zero; `none` is a null pointer.
unfoldable pub string_to_c_string : Bytes → Option Bytes
string_to_c_string [] = none
string_to_c_string (c ∷ cs) = some ((c ∷ cs) ++ 0 ∷ [])

-- `none` is an exception of the settings.
unfoldable pub create_url : SettingManager → Bytes → Option Bytes
unfolding cast_value
create_url sets [] = some []
create_url sets (c ∷ path) = elim (cast_value (λ t. t) sets (codes "server_addr")) [
  | none ↦ none
  | some addr ↦ elim (cast_value (λ t. t) sets (codes "server_port")) [
    | none ↦ none
    | some port ↦
        some (codes "http://" ++ (addr ++ (codes ":" ++ (port ++ (codes "/" ++ (c ∷ path))))))
  ]
]

-- The functions of a handle's object: the object after them, and how they end.
abbrev pub OnHandle : Type 0 → Type 0
OnHandle A = UnderlyingHandle → UnderlyingHandle × Outcome A

unfoldable pub followed_by : {A B : Type 0} → OnHandle A → (A → OnHandle B) → OnHandle B
followed_by m f h =
    let (k, o) = m h in
    elim o [
      | returns a ↦ f a k
      | threw ↦ (k, threw)
      | escaped ↦ (k, escaped)
      | undefined ↦ (k, undefined)
    ]

abbrev pub give : {A : Type 0} → A → OnHandle A
give a h = (h, returns a)

-- A call of the torrent core, through a pointer that is null where the service is not registered.
unfoldable pub with_core : {A : Type 0} → M A → OnHandle A
unfolding get_torrent_core
with_core m h = elim (get_torrent_core h.core_handle) [
  | none ↦ (h, undefined)
  | some s ↦ elim s [
    | http_service _ ↦ (h, undefined)
    | torrent_service c ↦
        let (d, o) = m c in
        (
          record h {
            core_handle = record h.core_handle {
              services = assign str_eq this_service_name (torrent_service d) h.core_handle.services;
            };
          },
          o,
        )
  ]
]

-- What is done for a torrent that the handle knows; the rest returns `a`.
unfoldable pub with_info : {A : Type 0} → ℕ → A → (UnderlyingInfo → OnHandle A) → OnHandle A
unfolding get_info
with_info torrent_id a f h = elim (get_info h torrent_id) [
  | none ↦ (h, returns a)
  | some info ↦ f info h
]

-- The text is put into the memory of the torrent.
unfoldable pub keep_text : ℕ → UnderlyingInfo → Bytes → OnHandle (Option Bytes)
unfolding string_to_c_string
keep_text torrent_id info string h = elim (string_to_c_string string) [
  | none ↦ (h, returns none)
  | some mem ↦ (
    record h {
      torrents =
          assign ◌==◌ torrent_id (record info { mem_collector = info.mem_collector ++ mem ∷ [] })
            h.torrents;
    },
    returns (some mem),
  )
]

-- A handle above INVALID_T2H_HANDLE; an object that is null is called into.
unfoldable pub with_handle : {A : Type 0} → ℤ → A → OnHandle A → Program → Program × Outcome A
unfolding get_handle
with_handle (negsuc n) a f s = (s, returns a)
with_handle (pos n) a f s = elim (get_handle s.handles n) [
  | none ↦ (s, undefined)
  | some h ↦ let (k, o) = f h in (record s { handles = assign ◌==◌ n k s.handles }, o)
]

-- The guard of the functions over a torrent, and that of those over a file.
abbrev pub on_torrent :
    {A : Type 0} → ℤ → ℕ → A → (UnderlyingInfo → OnHandle A) → Program → Program × Outcome A
on_torrent handle torrent_id a f s =
    if torrent_id == invalid_id
    then (s, returns a)
    else with_handle handle a (with_info torrent_id a f) s

abbrev pub on_file :
    {A : Type 0} → ℤ → ℕ → ℤ → A → (UnderlyingInfo → OnHandle A) → Program → Program × Outcome A
on_file handle torrent_id (negsuc n) a f s = (s, returns a)
on_file handle torrent_id (pos n) a f s = on_torrent handle torrent_id a f s
