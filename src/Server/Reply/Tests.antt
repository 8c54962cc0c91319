-- ===== src/Server/Reply/Tests.antt =====
-- Tests of the replies.
use t2h.Common.{
  ℕ, ◌+◌, true, false, [], ◌∷◌, ◌++◌, Option, some, Bytes, codes, length, take, drop, ◌≡◌, refl, ℤ,
  pos, negsuc, pos_part, arith,
}
use t2h.Server.Stream.{returned, write_content_impl}
use t2h.Server.Stream.Content.{ready}
use t2h.Server.Reply.{HttpData, content_range, get_reply_headers, perform, send_content_reply}
use t2h.Server.Reply.Ranges.{content_range_lem, content_request_lem}

-- Bytes from 40 on of a file of 100 bytes: 60 bytes, announced as 61.
content_range_lem_test :
    content_range (record { file_size = pos 100; read_start = pos 40; read_end = pos 100 })
    ≡ record { start = pos 40; last = pos 99; file_size = pos 100; content_size = pos 61 }
content_range_lem_test = (content_range_lem 40 100 100 (omega arith) (omega arith)).1 refl

abbrev ten_bytes : Bytes
ten_bytes = codes "0123456789"

abbrev no_bytes : Bytes
no_bytes = []

abbrev reads_all : ℤ → ℕ → Option Bytes
reads_all p n = some (take n (drop (pos_part p) ten_bytes))

abbrev writes_all : Bytes → Bytes → Bytes × ℕ
writes_all w bs = (w ++ bs, length bs)

abbrev print_digit : ℤ → Bytes
print_digit (pos n) = (n + 48) ∷ []
print_digit (negsuc n) = codes "-"

abbrev whole_file : HttpData
whole_file = record { file_size = pos 10; read_start = pos 0; read_end = pos 10 }

content_request_lem_test :
    perform print_digit no_bytes no_bytes writes_all
      (λ hd.
        write_content_impl reads_all writes_all 11 4 hd.read_start hd.read_end (ready (pos 10)) [])
      true
      (some no_bytes)
      send_content_reply
      whole_file
    ≡ (
      false,
      (
        some (
            (no_bytes
              ++ (get_reply_headers print_digit no_bytes no_bytes send_content_reply whole_file).0)
            ++ ten_bytes),
        returned true,
      ),
    )
content_request_lem_test =
    content_request_lem print_digit no_bytes no_bytes ten_bytes no_bytes reads_all writes_all
      (λ p n. refl) (λ w bs. refl) 4 (pos 10) [] (omega arith) (omega arith) (omega arith) refl tt
