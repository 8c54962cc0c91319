-- ===== src/Server/Core/Tests.antt =====
-- Tests of the server over its requests.
use t2h.Common.{
  ℕ, ◌+◌, ◌*◌, ◌-◌, ◌≤◌, ◌<◌, true, false, List, [], ◌∷◌, ◌++◌, Option, none, some, Bytes, codes,
  str_eq, find, length, take, drop, ℤ, pos, pos_part, ◌≡◌, ◌⊎◌, inl, inr, refl, arith,
}
use t2h.Http.Range.{RangeHeader, all, bad}
use t2h.Http.Range.{
  http_translate_range_header, http_translate_range_header_, find_first_of, translate_parts,
  http_range_header_value_parser, collect, parse_bounds, cast_string_range_to_int,
}
use t2h.Http.Uri.{http_normalize_uri}
use t2h.Http.Transport.{mg_new_request, dispatch_http_message}
use t2h.Http.Transport.Connection.{TransportConfig}
use t2h.Http.Transport.Dispatch.{request}
use t2h.Server.Buffer.{FileInfoBuffer, HcFileInfo, get_info}
use t2h.Server.Reply.{send_content_reply}
use t2h.Server.Core.{
  HscLocalConfig, ServerSettings, http_server_core, hcs_from_setting_manager, from_setting_manager,
  launch_service, handle_all, Request,
}
use t2h.Server.Core.Life.{launch-stop, started}
use t2h.Server.Core.Answers.{
  config, headers, undisturbed, subscribed_to, after_content, after_part, content_request-served,
  range_request-answered_twice,
}

abbrev ten_bytes : Bytes
ten_bytes = codes "0123456789"

abbrev reads_all : Bytes → ℤ → ℕ → Option Bytes
reads_all path p n = some (take n (drop (pos_part p) ten_bytes))

abbrev writes_all : Bytes → Bytes → Bytes × ℕ
writes_all w bs = (w ++ bs, length bs)

abbrev prints : ℤ → Bytes
prints n = codes "7"

abbrev one_digit : Bytes → Option ℤ
one_digit (c ∷ []) = some (pos (c - b'0'))
one_digit _ = none

abbrev unset : RangeHeader
unset = record { bstart_1 = pos 9; bend_1 = pos 9; bstart_2 = pos 9; bend_2 = pos 9 }

abbrev no_ids : List ℕ
no_ids = []

-- The file, complete and without subscribers.
abbrev whole : HcFileInfo
whole = record {
  file_path = codes "/box/a";
  file_size = pos 10;
  avaliable_bytes = pos 10;
  subscribers = no_ids;
}

abbrev one_file : FileInfoBuffer
one_file = record {
  infos = (codes "/srv/a", 2) ∷ [];
  store = (2, whole) ∷ [];
  streams = [];
  fresh = 3;
}

abbrev three_bytes : HscLocalConfig
three_bytes =
    config prints (codes "now") (codes "tag") reads_all writes_all (λ w bs. refl) (codes "/srv") 3 5

abbrev answer :
    Option Bytes → RangeHeader → List Request → FileInfoBuffer → Option (FileInfoBuffer × Bytes)
answer range unread qs b =
    handle_all reads_all writes_all prints (codes "now") (codes "tag") three_bytes
      (dispatch_http_message one_digit mg_new_request
        (request one_digit (codes "1.1") (codes "GET") (codes "/a") range) unread).0
      qs b []

content_request-served_example :
    answer none unset (undisturbed 7 [] ∷ []) one_file
    ≡ some (
      subscribed_to one_file 2 7 whole,
      headers prints
            (codes "now")
            (codes "tag")
            reads_all
            writes_all
            (λ w bs. refl)
            (codes "/srv")
            3
            5
            send_content_reply
            (record { file_size = pos 10; read_start = pos 0; read_end = pos 10 })
          ++ ten_bytes,
    )
unfolding find get_info http_normalize_uri str_eq
content_request-served_example =
    (content_request-served prints (codes "now") (codes "tag") reads_all writes_all (λ w bs. refl)
        (codes "/srv") 3 5 ten_bytes (codes "/box/a") (pos 10) (λ q m. refl) (omega arith)
        (omega arith) refl one_digit unset (codes "/a") 2 7 [] one_file [] no_ids).1.1
      refl refl (omega arith) tt

abbrev from_two : RangeHeader
from_two = record { bstart_1 = pos 2; bend_1 = all; bstart_2 = bad; bend_2 = pos 9 }

-- Bytes from 2 on are asked for, without an end.
range_request-answered_twice_example :
    (k : ℕ) × (((k ≡ 0) ⊎ (2 + k * 3 < 10))
      × ((10 ≤ 2 + (k + 1) * 3)
          × (answer
                (some (codes "bytes=2-"))
                unset
                (undisturbed 7 [] ∷ undisturbed 8 [] ∷ [])
                one_file
              ≡ some (
                subscribed_to
                    (subscribed_to one_file 2 7 whole)
                    2
                    8
                    (record whole { subscribers = 7 ∷ [] }),
                after_content prints
                    (codes "now")
                    (codes "tag")
                    reads_all
                    writes_all
                    (λ w bs. refl)
                    (codes "/srv")
                    3
                    5
                    ten_bytes
                    (codes "/box/a")
                    (pos 10)
                    (λ q m. refl)
                    (omega arith)
                    (omega arith)
                    refl
                    (after_part prints
                      (codes "now")
                      (codes "tag")
                      reads_all
                      writes_all
                      (λ w bs. refl)
                      (codes "/srv")
                      3
                      5
                      ten_bytes
                      (codes "/box/a")
                      (pos 10)
                      (λ q m. refl)
                      (omega arith)
                      (omega arith)
                      refl
                      []
                      2
                      10
                      k)
                    (7 ∷ []),
              ))))
unfolding find get_info http_normalize_uri str_eq http_translate_range_header
    http_translate_range_header_ find_first_of translate_parts http_range_header_value_parser
    collect parse_bounds cast_string_range_to_int
range_request-answered_twice_example =
    range_request-answered_twice prints (codes "now") (codes "tag") reads_all writes_all
      (λ w bs. refl) (codes "/srv") 3 5 ten_bytes (codes "/box/a") (pos 10) (λ q m. refl)
      (omega arith) (omega arith) refl one_digit unset from_two (codes "/a") (codes "bytes=2-") 2 7
      8 [] [] one_file [] no_ids 2 10 refl (inl refl, inr (refl, refl)) refl refl (omega arith)
      (omega arith) tt tt

abbrev settings : ServerSettings
settings = record {
  text = λ key. some (codes "/srv");
  int64 = λ key. some (pos 1000);
  size = λ key. some 8;
}

abbrev local : HscLocalConfig
local = record {
  doc_root = codes "/srv";
  chunked_ostream = true;
  max_chunk_size = pos 1000;
  cores_sync_timeout = 8;
}

abbrev transport : TransportConfig
transport = record {
  doc_root = codes "/srv";
  ip_addr = codes "/srv";
  port = codes "/srv";
  max_threads = 8;
  context = false;
}

launch-stop_test :
    launch_service (λ path. true) (λ path. true) (λ config. true) settings http_server_core
    ≡ (started (λ config. true) local transport, true)
unfolding hcs_from_setting_manager from_setting_manager
launch-stop_test =
    ((launch-stop (λ path. true) (λ path. true) (λ config. true) settings http_server_core one_file
        refl).1
      local transport refl refl).1.0
