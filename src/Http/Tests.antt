-- ===== src/Http/Tests.antt =====
-- Runs of the model of src/common/http_utility on concrete input, and the theorems at such input.
use t2h.Common.{
  true, false, [], ◌∷◌, ◌++◌, Option, none, some, ◌≡◌, ◌≢◌, refl, arith, Bytes, codes, ◌-◌, ℤ, pos,
}
use t2h.Http.Message.{mget, munknown, method_type}
use t2h.Http.Parser.{
  method_start, consume, expecting_newline_3, tri_true, returns, faults, back_of_empty, parse,
  update_back, is_ctl, is_digit, not_token,
}
use t2h.Http.Parser.Chunks.{resume, parse-append}
use t2h.Http.Parser.Faults.{parse-ne-back_of_empty}
use t2h.Http.Parser.Sound.{Promise, parse-Promise}
use t2h.Http.Parser.Text.{RequestText, IsRequestText, print, fresh}
use t2h.Http.Parser.RoundTrip.{parse-print}
use t2h.Http.Reply.{
  add_header, add_header_directly, add_status, cast_helper, add_content, stock_reply, copy_from,
  set_at, resize, safe_lexical_cast,
}
use t2h.Http.Reply.Resources.{ok, not_found, created, status_string, cast_to_string}
use t2h.Http.Reply.Loops.{zeros}
use t2h.Http.Reply.Buffer.{growing, fixed, add_header_lem, add_status_lem, add_content_lem}
use t2h.Http.Reply.Stock.{line_left, stock_reply_lem}
use t2h.Http.Range.{RangeHeader, all, http_translate_range_header, cast_bound}
use t2h.Http.Range.Pieces.{cleared}
use t2h.Http.Range.Translate.{translate_two_ranges}
use t2h.Http.Range.EarlyComma.{translate_early_comma}

abbrev get_text : RequestText
get_text = record {
  method = codes "GET";
  uri = codes "/a/b.avi";
  major = codes "1";
  minor = codes "1";
  headers =
      record { name = codes "Host"; value = codes "t2h" }
      ∷ record { name = codes "Range"; value = codes "bytes=0-99" }
      ∷ [];
}

-- A request as it comes over the wire, with a folded header line.
folded :
    parse method_start (fresh munknown 7 7) (codes "GET / HTTP/1.0\r\nA: b\r\n  c\r\n\r\n")
    ≡ returns (record {
      result = tri_true;
      rest = [];
      state = expecting_newline_3;
      req = record {
        mtype = mget;
        method = codes "GET";
        uri = codes "/";
        http_version_major = 1;
        http_version_minor = 0;
        headers = record { name = codes "A"; value = codes "bc" } ∷ [];
      };
    })
unfolding parse consume not_token update_back method_type
folded = refl

get_text-IsRequestText : IsRequestText get_text
unfolding not_token is_digit is_ctl
get_text-IsRequestText = record {
  has_method = λ e. cc;
  method_tokens = ground arith;
  uri_bytes = ground arith;
  major_number = (λ e. cc, ground arith, omega arith);
  minor_number = (λ e. cc, ground arith, omega arith);
  headers_hold =
      (((λ e. cc), ground arith, ground arith), (((λ e. cc), ground arith, ground arith), tt));
}

parse-print_example :
    parse method_start (fresh munknown 7 7) (print get_text (codes "tail"))
    ≡ returns (record {
      result = tri_true;
      rest = codes "tail";
      state = expecting_newline_3;
      req = record {
        mtype = mget;
        method = codes "GET";
        uri = codes "/a/b.avi";
        http_version_major = 1;
        http_version_minor = 1;
        headers = get_text.headers;
      };
    })
unfolding method_type
parse-print_example = parse-print munknown 7 7 get_text (codes "tail") get_text-IsRequestText

parse-append_test :
    parse method_start (fresh munknown 0 0) (codes "GET / HT" ++ codes "TP/1.1\r\n\r\n")
    ≡ resume (parse method_start (fresh munknown 0 0) (codes "GET / HT")) (codes "TP/1.1\r\n\r\n")
parse-append_test =
    parse-append method_start (fresh munknown 0 0) (codes "GET / HT") (codes "TP/1.1\r\n\r\n")

parse-ne-back_of_empty_example :
    parse method_start (fresh munknown 0 0) (codes "G / HTTP/1.1\r\n x") ≢ faults back_of_empty
parse-ne-back_of_empty_example =
    parse-ne-back_of_empty (fresh munknown 0 0) (codes "G / HTTP/1.1\r\n x")

parse-Promise_example : Promise (parse method_start (fresh munknown 0 0) (print get_text []))
parse-Promise_example = parse-Promise (fresh munknown 0 0) (print get_text []) (tt, tt, tt)

-- The replies.
empty_page :
    (stock_reply (λ n. some (codes "0")) (growing (codes "junk")) ok).0
    ≡ growing (codes "HTTP/1.1 200 OK\r\nContent-Length: 0\r\nContent-Type: text/html\r\n")
unfolding stock_reply add_status cast_helper add_header add_header_directly add_content copy_from
    set_at resize safe_lexical_cast status_string cast_to_string
empty_page = refl

add_header_lem_test :
    (add_header (growing (codes "x")) (codes "A") (codes "b") ≡ (growing (codes "xA: b\r\n"), true))
    × (add_header (fixed (codes "x")) (codes "A") (codes "b") ≡ (fixed (codes "x"), false))
add_header_lem_test = add_header_lem (codes "x") (codes "A") (codes "b")

add_content_lem_test :
    (add_content (growing (codes "x")) (some (codes "yz")) ≡ (growing (codes "x\r\nyz"), true))
    × (add_content (fixed (codes "x")) (some (codes "yz")) ≡ (fixed [], false))
    × (add_content (growing (codes "x")) (some []) ≡ (growing (codes "x"), false))
add_content_lem_test = add_content_lem (codes "x") b'y' (codes "z")

add_status_lem_test :
    add_status (growing (codes "Server: t2h\r\n")) created
    ≡ (growing (codes "HTTP/1.1 201 Created\r\n" ++ zeros 13), true)
unfolding status_string
add_status_lem_test = add_status_lem (growing (codes "Server: t2h\r\n")) created

stock_reply_lem_example :
    stock_reply (λ n. some (codes "90")) (fixed []) not_found
    ≡ (fixed (line_left (status_string not_found) (cast_to_string not_found)), true)
stock_reply_lem_example = (stock_reply_lem (λ n. some (codes "90")) [] not_found).1

-- A stand-in for lexical_cast that reads one digit.
abbrev one_digit : Bytes → Option ℤ
one_digit (c ∷ []) = some (pos (c - b'0'))
one_digit _ = none

abbrev unset : RangeHeader
unset = record { bstart_1 = pos 9; bend_1 = pos 9; bstart_2 = pos 9; bend_2 = pos 9 }

translate_two_ranges_test :
    http_translate_range_header one_digit unset (codes "bytes=*-1,2-4")
    ≡ some (record { bstart_1 = all; bend_1 = pos 1; bstart_2 = pos 2; bend_2 = pos 4 }, true)
unfolding cast_bound
translate_two_ranges_test =
    translate_two_ranges one_digit unset (codes "bytes") (codes "*") (codes "1") (codes "2")
      (codes "4") (ground arith) (ground arith) (ground arith) (ground arith) (ground arith)
      (ground arith)

-- A stand-in for lexical_cast that reads nothing.
abbrev no_cast : Bytes → Option ℤ
no_cast xs = none

translate_early_comma_test :
    http_translate_range_header no_cast unset (codes "a,1-2=b") ≡ some (cleared unset, false)
translate_early_comma_test =
    translate_early_comma no_cast (λ xs ys. refl) unset (codes "a") (codes "1-2") (codes "b")
      (ground arith) (ground arith) (ground arith)
