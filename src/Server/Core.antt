-- ===== src/Server/Core.antt =====
-- src/core/http_server/http_server_core.cpp and http_server_core.hpp: the settings, the launch and the
-- stop of the server, and its handlers of the requests.
pub mod Answers
mod Tests
pub mod Life
use t2h.Common.{
  ℕ, suc, ◌+◌, ◌==◌, leb, Bool, true, false, not, ◌&&◌, ◌||◌, List, [], ◌∷◌, ◌++◌, Option, none,
  some, Bytes, codes, find, assign, ℤ, pos, pos_part, ltb_ℤ, eqb_ℤ, if◌then◌else◌,
}
use t2h.Http.Range.{RangeHeader}
use t2h.Http.Transport.{
  HandlerCall, on_partial_content_request, on_head_request, on_content_request,
}
use t2h.Http.Transport.Connection.{
  TransportConfig, HttpMongooseTransport, http_mongoose_transport, establish_connection,
  stop_connection,
}
use t2h.Core.World.{CurState, service_state_unknown, service_running, service_stoped, is_running}
use t2h.Server.Stream.{ExData, state_default, Wakeup, Sending, write_content_impl}
use t2h.Server.Buffer.{
  FileInfoBuffer, HcFileInfo, get_info, registr_subscriber, unregistr_subscriber_id, stop_graceful,
}
use t2h.Server.Reply.{
  HttpData, Reply, head_reply, partial_content_reply, send_content_reply, perform, requested_range,
}

-- details::hsc_local_config
pub record HscLocalConfig : Type 0 where
  pub doc_root : Bytes
  pub chunked_ostream : Bool
  pub max_chunk_size : ℤ
  pub cores_sync_timeout : ℕ

-- What setting_manager::get_value gives at the three types that the server reads; `none` is an exception.
pub record ServerSettings : Type 0 where
  pub text : Bytes → Option Bytes
  pub int64 : Bytes → Option ℤ
  pub size : Bytes → Option ℕ

-- `none` is an exception, of the settings or of the checks.
unfoldable pub hcs_from_setting_manager :
    (exists is_directory : Bytes → Bool) → ServerSettings → Option HscLocalConfig
hcs_from_setting_manager exists is_directory r = elim (r.text (codes "doc_root")) [
  | none ↦ none
  | some doc_root ↦ elim (r.int64 (codes "hc_max_chunk_size")) [
    | none ↦ none
    | some max_chunk_size ↦ elim (r.size (codes "cores_sync_timeout")) [
      | none ↦ none
      | some cores_sync_timeout ↦
          if (not (exists doc_root) || not (is_directory doc_root))
            || ltb_ℤ max_chunk_size (pos 1000)
          then none
          else some (record {
            doc_root = doc_root;
            chunked_ostream = true;
            max_chunk_size = max_chunk_size;
            cores_sync_timeout = cores_sync_timeout;
          })
    ]
  ]
]

unfoldable pub from_setting_manager : ServerSettings → Option TransportConfig
from_setting_manager r = elim (r.text (codes "doc_root")) [
  | none ↦ none
  | some doc_root ↦ elim (r.text (codes "server_addr")) [
    | none ↦ none
    | some addr ↦ elim (r.text (codes "server_port")) [
      | none ↦ none
      | some port ↦ elim (r.size (codes "workers")) [
        | none ↦ none
        | some workers ↦
            if workers == 0
            then none
            else some (record {
              doc_root = doc_root;
              ip_addr = addr;
              port = port;
              max_threads = workers;
              context = false;
            })
      ]
    ]
  ]
]

-- The service; the table of the files is one for the whole program and stands outside of it.
pub record HttpServerCore : Type 0 where
  pub transport : Option HttpMongooseTransport
  pub cur_state : CurState
  pub local_config : HscLocalConfig

-- The constructor: every field is zero, which is no state of a service.
abbrev pub http_server_core : HttpServerCore
http_server_core = record {
  transport = none;
  cur_state = service_state_unknown;
  local_config = record {
    doc_root = [];
    chunked_ostream = false;
    max_chunk_size = pos 0;
    cores_sync_timeout = 0;
  };
}

-- The part of launch_service behind the settings. What it throws leaves the transport as it is.
unfoldable pub start_transport :
    (mg_start : TransportConfig → Bool) → TransportConfig → HttpServerCore → HttpServerCore × Bool
unfolding establish_connection
start_transport mg_start config s =
    let (t, ok) =
      establish_connection mg_start (http_mongoose_transport (record config { context = true })) in
    if ok
    then (record s { transport = some t; cur_state = service_running }, true)
    else (record s { transport = some t }, false)

unfoldable pub launch_service :
    (exists is_directory : Bytes → Bool)
    → (mg_start : TransportConfig → Bool) → ServerSettings
    → HttpServerCore
    → HttpServerCore × Bool
unfolding hcs_from_setting_manager from_setting_manager start_transport
launch_service exists is_directory mg_start r s =
    if is_running s.cur_state
    then (s, false)
    else elim (hcs_from_setting_manager exists is_directory r) [
      | none ↦ (s, false)
      | some local ↦
          let s' = record s { local_config = local } in
          elim (from_setting_manager r) [
            | none ↦ (s', false)
            | some config ↦ start_transport mg_start config s'
          ]
    ]

-- A transport that is null is undefined, which is `none`.
unfoldable pub stop_service :
    HttpServerCore → FileInfoBuffer → Option (HttpServerCore × FileInfoBuffer)
unfolding stop_connection stop_graceful
stop_service s b =
    if is_running s.cur_state
    then elim s.transport [
      | none ↦ none
      | some t ↦ some (
        record s { cur_state = service_stoped; transport = some (stop_connection t) },
        stop_graceful b,
      )
    ]
    else some (s, b)

-- get_ostream_policy: the stream that the constructor makes, under the pointer i.
unfoldable pub get_ostream_policy : FileInfoBuffer → ℕ → FileInfoBuffer
get_ostream_policy b i = record b {
  streams = assign ◌==◌ i (record { avaliable_bytes = pos 0; state = state_default }) b.streams;
}

-- One request: the pointer of its stream, what other threads tell the stream, and what they
-- make of the table until the reply is sent.
pub record Request : Type 0 where
  pub pointer : ℕ
  pub wakeups : List Wakeup
  pub meanwhile : FileInfoBuffer → FileInfoBuffer

-- The files and the client: `read_at` reads of the file at a path, `write` is the transport's, `print`,
-- `gmt_time` and `etag` are what the headers take.
module _ {W : Type 0} (read_at : Bytes → ℤ → ℕ → Option Bytes) (write : W → Bytes → W × ℕ)
    (print : ℤ → Bytes) (gmt_time etag : Bytes) (config : HscLocalConfig) where
  -- perform of the stream, whose knowledge is `x`. Each round moves the position on, so the end of the
  -- range and one more is fuel enough.
  unfoldable pub perform_reply : Reply → HttpData → Bytes → ExData → List Wakeup → W → W × Sending
  unfolding perform write_content_impl
  perform_reply reply hd path x ws w =
      let (keeps, (v, sent)) =
        perform print gmt_time etag write
          (λ d u.
            write_content_impl (read_at path) write (suc (pos_part d.read_end))
              (pos_part config.max_chunk_size) d.read_start d.read_end x ws u)
          true (some w) reply hd in
      (elim v [ none ↦ w | some u ↦ u ], sent)

  -- What the three handlers share: the search of the file, the subscription of the stream, the reply and
  -- the end of the subscription. The first result is `none` for what is undefined; that of the reply is
  -- `none` for a path that is not in the table, where nothing is written.
  unfoldable pub reply_to :
      Reply
      → (HcFileInfo → HttpData)
      → Bytes
      → Request
      → FileInfoBuffer
      → W
      → Option (FileInfoBuffer × (W × Option Sending))
  unfolding get_info get_ostream_policy registr_subscriber unregistr_subscriber_id perform_reply
  reply_to reply hd_of uri q b w = elim (get_info b (config.doc_root ++ uri)) [
    | none ↦ some (b, (w, none))
    | some p ↦ elim (find ◌==◌ p b.store) [
      | none ↦ none
      | some fi ↦ elim (registr_subscriber (get_ostream_policy b q.pointer) p q.pointer) [
        | none ↦ none
        | some (c, sid) ↦ elim (find ◌==◌ q.pointer c.streams) [
          | none ↦ none
          | some x ↦
              let (v, sent) = perform_reply reply (hd_of fi) fi.file_path x q.wakeups w in
              elim (unregistr_subscriber_id (q.meanwhile c) p (pos sid)) [
                | none ↦ none
                | some d ↦ some (d, (v, some sent))
              ]
        ]
      ]
    ]
  ]

  abbrev pub whole_file : HcFileInfo → HttpData
  whole_file fi = record { file_size = fi.file_size; read_start = pos 0; read_end = fi.file_size }

  -- The handler that the transport calls.
  unfoldable pub handle :
      HandlerCall → Request → FileInfoBuffer → W → Option (FileInfoBuffer × (W × Option Sending))
  unfolding reply_to
  handle (on_partial_content_request uri range) q b w =
      reply_to partial_content_reply (λ fi. requested_range range fi.file_size) uri q b w
  handle (on_head_request uri) q b w = reply_to head_reply whole_file uri q b w
  handle (on_content_request uri) q b w = reply_to send_content_reply whole_file uri q b w

  -- The calls of one message in their order, with a request for each.
  unfoldable pub handle_all :
      List HandlerCall → List Request → FileInfoBuffer → W → Option (FileInfoBuffer × W)
  unfolding handle
  handle_all [] qs b w = some (b, w)
  handle_all (call ∷ calls) [] b w = some (b, w)
  handle_all (call ∷ calls) (q ∷ qs) b w = elim (handle call q b w) [
    | none ↦ none
    | some (c, (v, sent)) ↦ handle_all calls qs c v
  ]
