-- ===== src/Http/Transport/Tests.antt =====
-- Tests of the dispatch of requests.
use t2h.Common.{◌-◌, true, false, [], ◌∷◌, Option, none, some, Bytes, codes, ◌≡◌, refl, ℤ, pos}
use t2h.Http.Range.{
  RangeHeader, all, bad, http_translate_range_header, http_translate_range_header_, find_first_of,
  translate_parts, http_range_header_value_parser, collect, parse_bounds, cast_string_range_to_int,
}
use t2h.Http.Uri.{http_normalize_uri}
use t2h.Http.Transport.{
  mg_new_request, on_partial_content_request, on_content_request, dispatch_http_message,
  RequestInfo,
}
use t2h.Http.Transport.Connection.{
  TransportConfig, http_mongoose_transport, establish_connection, stop_connection, establish-stop,
}
use t2h.Http.Transport.Dispatch.{dispatch_http_message_lem}

-- A stand-in for lexical_cast that reads one digit.
abbrev one_digit : Bytes → Option ℤ
one_digit (c ∷ []) = some (pos (c - b'0'))
one_digit _ = none

abbrev unset : RangeHeader
unset = record { bstart_1 = pos 9; bend_1 = pos 9; bstart_2 = pos 9; bend_2 = pos 9 }

abbrev from_three : RangeHeader
from_three = record { bstart_1 = pos 3; bend_1 = all; bstart_2 = bad; bend_2 = pos 9 }

abbrev get_range : RequestInfo
get_range = record {
  http_version = codes "1.1";
  request_method = codes "GET";
  uri = codes "/a+b";
  range_header = some (codes "bytes=3-");
}

dispatch_http_message_lem_test : dispatch_http_message one_digit mg_new_request get_range unset ≡ (
  on_partial_content_request (codes "/a b") from_three ∷ on_content_request (codes "/a b") ∷ [],
  true,
)
unfolding http_normalize_uri http_translate_range_header http_translate_range_header_ find_first_of
    translate_parts http_range_header_value_parser collect parse_bounds cast_string_range_to_int
dispatch_http_message_lem_test =
    (dispatch_http_message_lem one_digit unset from_three (codes "/a+b") (codes "bytes=3-") none).0
      refl

abbrev eight_threads : TransportConfig
eight_threads = record {
  doc_root = codes "/srv";
  ip_addr = codes "127.0.0.1";
  port = codes "8080";
  max_threads = 8;
  context = true;
}

-- mongoose gives null for the configuration.
establish-stop_example :
    let t = (establish_connection (λ config. false) (http_mongoose_transport eight_threads)).0 in
    stop_connection t ≡ t
establish-stop_example =
    (establish-stop (λ config. false) one_digit eight_threads mg_new_request get_range unset).1.1
      refl
