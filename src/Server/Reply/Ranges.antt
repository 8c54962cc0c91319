-- ===== src/Server/Reply/Ranges.antt =====
-- The replies with their content: what a client is told about its range, and what it is sent.
use t2h.Common.{
  ℕ, suc, ◌+◌, ◌-◌, ◌≤◌, ◌<◌, ltb, true, false, List, ◌++◌, Option, some, Bytes, length, take, drop,
  ◌≡◌, ◌≢◌, refl, ℤ, pos, ◌-ℤ◌, pos_+ℤ, leb_ℤ, eqb_ℤ, ltb_ℤ, arith, min, if◌then◌else◌,
}
use t2h.Server.Stream.{returned, Wakeup, write_content_impl, int64_max}
use t2h.Server.Stream.Content.{ready, whole_file_sent, IsQuiet}
use t2h.Server.Reply.{
  HttpData, content_range, send_content_reply, add_etag_date_headers, get_reply_headers,
  send_content_reply_headers, perform,
}

pub pos_-ℤ : (a b : ℕ) → b ≤ a → pos a -ℤ pos b ≡ pos (a - b)
unfolding ◌-ℤ◌
pos_-ℤ a b h = ground arith

abbrev asked : ℕ → ℕ → ℕ → HttpData
asked s e size = record { file_size = pos size; read_start = pos s; read_end = pos e }

eqb_size : (e size : ℕ) → e ≢ size → eqb_ℤ (pos e) (pos size) ≡ false
eqb_size e size d = ground arith

eqb_self : (size : ℕ) → eqb_ℤ (pos size) (pos size) ≡ true
eqb_self size = ground arith

not_above : (size n : ℕ) → n ≤ size → ltb_ℤ (pos size) (pos n) ≡ false
not_above size n h = ground arith

capped : (size n : ℕ) → (if ltb_ℤ (pos size) (pos n) then pos size else pos n) ≡ pos (min size n)
capped size n = ground arith

-- A range inside the file is announced as it was asked for, with the number of its bytes. One whose
-- end is the size of the file is announced up to the last byte, but with one byte more than there
-- are from its start, unless that is more than the whole file has.
pub content_range_lem :
    (s e size : ℕ)
    → s ≤ e
    → 0 < size
    → (e < size
        → content_range (asked s e size) ≡ record {
          start = pos s;
          last = pos e;
          file_size = pos size;
          content_size = pos (e - s + 1);
        })
      × (e ≡ size
          → content_range (asked s e size) ≡ record {
            start = pos s;
            last = pos (size - 1);
            file_size = pos size;
            content_size = pos (min size (size - s + 1));
          })
unfolding content_range
content_range_lem s e size h z = (
  λ l.
      rw
        (
          pos_-ℤ e s h,
          pos_+ℤ (e - s) 1,
          eqb_size e size (λ q. omega arith),
          not_above size (e - s + 1) (omega arith),
        )
        refl,
  λ q.
      rw
        (
          pos_-ℤ e s h,
          pos_+ℤ (e - s) 1,
          q,
          eqb_self size,
          pos_-ℤ size 1 (omega arith),
          capped size (size - s + 1),
        )
        refl,
)

some_headers :
    (print : ℤ → Bytes) (gmt_time etag : Bytes) (hd : HttpData)
    → ltb 0 (length (get_reply_headers print gmt_time etag send_content_reply hd).0) ≡ true
unfolding get_reply_headers send_content_reply_headers add_etag_date_headers
some_headers print gmt_time etag hd = ground arith

-- A reply to a request for the whole of a file that is there is its headers and then the file, byte
-- for byte, and `perform` returns true and drops the transport.
pub content_request_lem :
    (print : ℤ → Bytes) (gmt_time etag file w : Bytes) (read_at : ℤ → ℕ → Option Bytes)
    (write : Bytes → Bytes → Bytes × ℕ)
    (reads : (p n : ℕ) → read_at (pos p) n ≡ some (take n (drop p file)))
    (writes : (w bs : Bytes) → write w bs ≡ (w ++ bs, length bs)) (size : ℕ) (n : ℤ)
    (ws : List Wakeup)
    → 0 < size
    → 0 < length file
    → length file + size ≤ int64_max
    → leb_ℤ (pos (length file)) n ≡ true
    → IsQuiet (length file) ws
    → perform print gmt_time etag write
        (λ hd.
          write_content_impl read_at write
            (suc (length file))
            size
            hd.read_start
            hd.read_end
            (ready n)
            ws)
        true
        (some w)
        send_content_reply
        (asked 0 (length file) (length file))
      ≡ (
        false,
        (
          some (
              (w
                ++ (get_reply_headers print gmt_time etag send_content_reply
                    (asked 0 (length file) (length file))).0)
              ++ file),
          returned true,
        ),
      )
unfolding perform get_reply_headers send_content_reply_headers
content_request_lem print gmt_time etag file w read_at write reads writes size n ws a b c d q =
    rw
      (
        writes w (get_reply_headers print gmt_time etag send_content_reply whole).0,
        some_headers print gmt_time etag whole,
        whole_file_sent file read_at write reads writes (suc (length file)) size 0 n ws
            (w ++ (get_reply_headers print gmt_time etag send_content_reply whole).0) (omega arith)
            a b c d q,
      )
      refl
  where
    whole : HttpData
    whole = asked 0 (length file) (length file)
