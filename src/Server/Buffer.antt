-- ===== src/Server/Buffer.antt =====
-- src/core/http_server/details/file_info_buffer.cpp, file_info_buffer.hpp and
-- file_info_buffer_realtime_updater.cpp: the table of the files that the torrents write. A file's
-- information is shared by pointer between the table and the requests, and a stream by pointer
-- between a request and the subscribers of a file; the two stores are association lists over the
-- pointers. `none` is what is undefined in C++.
pub mod Updates
pub mod Subscribers
pub mod Sound
pub mod Additions
pub mod Refines
mod Tests
use t2h.Common.{
  ℕ, suc, ◌+◌, ◌==◌, ltb, Bool, true, false, List, [], ◌∷◌, ◌++◌, Option, none, some, Bytes, str_eq,
  find, erase, assign, length, ℤ, pos, ltb_ℤ, ◌||◌, if◌then◌else◌,
}
use t2h.Server.Stream.{ExData, on_bytes_avaliable_change, on_break}

pub record HcFileInfo : Type 0 where
  pub file_path : Bytes
  pub file_size : ℤ
  pub avaliable_bytes : ℤ
  pub subscribers : List ℕ

pub record FileInfoBuffer : Type 0 where
  pub infos : List (Bytes × ℕ)
  pub store : List (ℕ × HcFileInfo)
  pub streams : List (ℕ × ExData)
  pub fresh : ℕ

abbrev pub file_info_buffer : FileInfoBuffer
file_info_buffer = record { infos = []; store = []; streams = []; fresh = 0 }

-- A call on the stream that a pointer names.
unfoldable pub on_stream : (ExData → ExData) → ℕ → List (ℕ × ExData) → List (ℕ × ExData)
on_stream f i m = elim (find ◌==◌ i m) [ none ↦ m | some x ↦ assign ◌==◌ i (f x) m ]

-- hc_file_info_notify_subscribers
unfoldable pub notify_subscribers :
    (ExData → ExData) → List ℕ → List (ℕ × ExData) → List (ℕ × ExData)
notify_subscribers f [] m = m
notify_subscribers f (i ∷ is) m = notify_subscribers f is (on_stream f i m)

unfoldable pub get_info : FileInfoBuffer → Bytes → Option ℕ
get_info b path = find str_eq path b.infos

unfoldable pub on_file_add : FileInfoBuffer → Bytes → ℤ → ℤ → Option FileInfoBuffer
on_file_add b file_path file_size avaliable_bytes = elim (find str_eq file_path b.infos) [
  | none ↦ some (record b {
    infos = assign str_eq file_path b.fresh b.infos;
    store =
        assign ◌==◌ b.fresh
          (record {
            file_path = file_path;
            file_size = file_size;
            avaliable_bytes = avaliable_bytes;
            subscribers = [];
          })
          b.store;
    fresh = suc b.fresh;
  })
  | some p ↦ elim (find ◌==◌ p b.store) [
    | none ↦ none
    | some fi ↦ some (record b {
      store =
          assign ◌==◌ p (record fi { file_size = file_size; avaliable_bytes = avaliable_bytes })
            b.store;
    })
  ]
]

unfoldable pub update_info : FileInfoBuffer → Bytes → ℤ → Option FileInfoBuffer
update_info b file_path avaliable_bytes = elim (find str_eq file_path b.infos) [
  | none ↦ some b
  | some p ↦ elim (find ◌==◌ p b.store) [
    | none ↦ none
    | some fi ↦ some (record b {
      store = assign ◌==◌ p (record fi { avaliable_bytes = avaliable_bytes }) b.store;
      streams =
          notify_subscribers (λ x. on_bytes_avaliable_change x avaliable_bytes) fi.subscribers
            b.streams;
    })
  ]
]

-- `found` is an iterator, which the key stands for: past the end, or at an element that was erased,
-- it must not be read.
unfoldable pub remove_info : FileInfoBuffer → Bytes → Option FileInfoBuffer
remove_info b path =
    let infos = erase str_eq path b.infos in
    elim (find str_eq path infos) [
      | none ↦ none
      | some p ↦ elim (find ◌==◌ p b.store) [
        | none ↦ none
        | some fi ↦ some (record b {
          infos = infos;
          streams = notify_subscribers on_break fi.subscribers b.streams;
        })
      ]
    ]

unfoldable pub registr_subscriber : FileInfoBuffer → ℕ → ℕ → Option (FileInfoBuffer × ℕ)
registr_subscriber b p i = elim (find ◌==◌ p b.store) [
  | none ↦ none
  | some fi ↦ some (
    record b {
      store = assign ◌==◌ p (record fi { subscribers = fi.subscribers ++ i ∷ [] }) b.store;
      streams = on_stream (λ x. on_bytes_avaliable_change x fi.avaliable_bytes) i b.streams;
    },
    length (fi.subscribers ++ i ∷ []),
  )
]

-- The overload over a number. An erase past the end is undefined; the test takes the number as unsigned,
-- so that a negative one is past the end.
unfoldable pub unregistr_subscriber_id : FileInfoBuffer → ℕ → ℤ → Option FileInfoBuffer
unregistr_subscriber_id b p sid = elim (find ◌==◌ p b.store) [
  | none ↦ none
  | some fi ↦ if ltb_ℤ sid (pos 0) || ltb_ℤ (pos (length fi.subscribers)) sid then none else some b
]

-- The first occurrence goes.
unfoldable pub erase_first : ℕ → List ℕ → List ℕ
erase_first i [] = []
erase_first i (j ∷ js) = let rest = erase_first i js in if j == i then js else j ∷ rest

unfoldable pub holds : ℕ → List ℕ → Bool
holds i [] = false
holds i (j ∷ js) = if j == i then true else holds i js

-- The overload over a stream.
unfoldable pub unregistr_subscriber : FileInfoBuffer → ℕ → ℕ → Option FileInfoBuffer
unregistr_subscriber b p i = elim (find ◌==◌ p b.store) [
  | none ↦ none
  | some fi ↦
      if holds i fi.subscribers
      then some (record b {
        store = assign ◌==◌ p (record fi { subscribers = erase_first i fi.subscribers }) b.store;
        streams = on_stream on_break i b.streams;
      })
      else some b
]

-- The loop of `stop` over the table.
unfoldable pub break_all :
    List (Bytes × ℕ) → List (ℕ × HcFileInfo) → List (ℕ × ExData) → List (ℕ × ExData)
break_all [] store m = m
break_all ((path, p) ∷ infos) store m = elim (find ◌==◌ p store) [
  | none ↦ break_all infos store m
  | some fi ↦ break_all infos store (notify_subscribers on_break fi.subscribers m)
]

-- `is_stoped_` is set and reset within this call, under the lock that every other call takes.
unfoldable pub stop : FileInfoBuffer → FileInfoBuffer
stop b = record b { infos = []; streams = break_all b.infos b.store b.streams }

-- stop_graceful and stop_force call `close` with 1 and with 0. The class has no such member, so it is
-- the system's close of a file descriptor: `stop` is not called, and the table is left as it is.
unfoldable pub stop_graceful : FileInfoBuffer → FileInfoBuffer
stop_graceful b = b

-- core_file_change_notification
pub data ChangeState : Type 0 where
  file_update file_remove file_add : ChangeState

pub record CoreFileChangeNotification : Type 0 where
  pub event_type : ChangeState
  pub file_path : Bytes
  pub file_size : ℤ
  pub avaliable_bytes : ℤ

-- file_info_buffer_realtime_updater::on_notify; on_file_update passes the size on to nobody.
unfoldable pub on_notify : FileInfoBuffer → CoreFileChangeNotification → Option FileInfoBuffer
unfolding update_info on_file_add remove_info
on_notify b n = elim n.event_type [
  | file_remove ↦ remove_info b n.file_path
  | file_add ↦ on_file_add b n.file_path n.file_size n.avaliable_bytes
  | file_update ↦ update_info b n.file_path n.avaliable_bytes
]
