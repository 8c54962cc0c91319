-- ===== src/Server/Reply.antt =====
-- src/core/http_server/details/replies, http_server_utility.hpp, http_core_reply.hpp,
-- http_server_ostream_policy.cpp and the request handlers of http_server_core.cpp: the headers of
-- each kind of reply, and what is written to the client for a request.
pub mod Ranges
mod Tests
use t2h.Common.{
  ℕ, ◌+◌, ltb, ◌==◌, Bool, true, false, not, ◌&&◌, List, [], ◌∷◌, ◌++◌, Option, none, some, Bytes,
  codes, length, ℤ, pos, ◌+ℤ◌, ◌-ℤ◌, ltb_ℤ, eqb_ℤ, if◌then◌else◌,
}
use t2h.Http.Range.{RangeHeader, all}
use t2h.Server.Stream.{Sending, returned}

-- http_data, with of the file what the replies read.
pub record HttpData : Type 0 where
  pub file_size : ℤ
  pub read_start : ℤ
  pub read_end : ℤ

-- What a partial reply says of itself, before it is printed.
pub record ContentRange : Type 0 where
  pub start : ℤ
  pub last : ℤ
  pub file_size : ℤ
  pub content_size : ℤ

unfoldable pub content_range : HttpData → ContentRange
content_range hd =
    let content_size = (hd.read_end -ℤ hd.read_start) +ℤ pos 1 in
    record {
      start = hd.read_start;
      last = if eqb_ℤ hd.read_end hd.file_size then hd.read_end -ℤ pos 1 else hd.read_end;
      file_size = hd.file_size;
      content_size = if ltb_ℤ hd.file_size content_size then hd.file_size else content_size;
    }

pub data Reply : Type 0 where
  head_reply partial_content_reply send_content_reply : Reply

-- `print` is lexical_cast to a string, `gmt_time` and `etag` are what the two helpers of
-- add_etag_date_headers give.
module _ (print : ℤ → Bytes) (gmt_time etag : Bytes) where
  unfoldable pub is_empty_text : Bytes → Bool
  is_empty_text [] = true
  is_empty_text (c ∷ cs) = false

  unfoldable pub add_etag_date_headers : Bytes → Bytes
  unfolding is_empty_text
  add_etag_date_headers out =
      (out ++ (if is_empty_text gmt_time then [] else codes "Date: " ++ gmt_time ++ codes "\r\n"))
      ++ (if is_empty_text etag then [] else codes "Etag: " ++ etag ++ codes "\r\n")

  -- head_reply::get_reply_headers
  unfoldable pub head_reply_headers : HttpData → Bytes × Bool
  head_reply_headers hd = (
    add_etag_date_headers (codes "HTTP/1.1 200 Ok\r\n")
        ++ codes "Content-Type: application/octet-stream\r\n"
        ++ codes "Content-Length: "
        ++ print hd.file_size
        ++ codes "\r\n\r\n",
    false,
  )

  -- partial_content_reply::get_reply_headers
  unfoldable pub partial_content_reply_headers : HttpData → Bytes × Bool
  partial_content_reply_headers hd =
      let r = content_range hd in
      (
        add_etag_date_headers (codes "HTTP/1.1 206 Partial-Content\r\n")
            ++ codes "Content-Type: application/octet-stream\r\n"
            ++ codes "Accept-Ranges: bytes\r\n"
            ++ codes "Content-Range: "
            ++ codes "bytes "
            ++ print r.start
            ++ codes "-"
            ++ print r.last
            ++ codes "/"
            ++ print r.file_size
            ++ codes "\r\nContent-Length: "
            ++ print r.content_size
            ++ codes "\r\n\r\n",
        true,
      )

  -- send_content_reply::get_reply_headers
  unfoldable pub send_content_reply_headers : HttpData → Bytes × Bool
  send_content_reply_headers hd = (
    add_etag_date_headers (codes "HTTP/1.1 200 OK\r\n")
        ++ codes "Content-Type: application/octet-stream\r\n"
        ++ codes "Accept-Ranges: bytes\r\n"
        ++ codes "Content-Length: "
        ++ print hd.file_size
        ++ codes "\r\n\r\n",
    true,
  )

  -- The virtual call.
  unfoldable pub get_reply_headers : Reply → HttpData → Bytes × Bool
  get_reply_headers head_reply hd = head_reply_headers hd
  get_reply_headers partial_content_reply hd = partial_content_reply_headers hd
  get_reply_headers send_content_reply hd = send_content_reply_headers hd

  -- `none` for a stream that has no transport any more. The first result is whether the stream keeps
  -- its transport, then the transport and what `perform` returns.
  unfoldable pub perform :
      {W : Type 0}
      → (write : W → Bytes → W × ℕ) → (write_content_impl : HttpData → W → W × Sending)
      → (reset_stream_at_end_of_io : Bool) → Option W
      → Reply
      → HttpData
      → Bool × (Option W × Sending)
  perform write write_content_impl reset none reply hd = (false, (none, returned false))
  perform write write_content_impl reset (some w) reply hd =
      let (reply_headers, is_need_perform_content) = get_reply_headers reply hd in
      let (v, n) = write w reply_headers in
      let state = ltb 0 n in
      if is_need_perform_content && state
      then (not reset, (some (write_content_impl hd v).0, (write_content_impl hd v).1))
      else (not reset, (some v, returned state))

-- The range that on_partial_content_request makes of the header's first pair.
unfoldable pub requested_range : RangeHeader → ℤ → HttpData
requested_range range file_size = record {
  file_size = file_size;
  read_start = if eqb_ℤ range.bstart_1 all then pos 0 else range.bstart_1;
  read_end = if eqb_ℤ range.bend_1 all then file_size else range.bend_1;
}
