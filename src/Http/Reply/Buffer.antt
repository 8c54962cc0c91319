-- ===== src/Http/Reply/Buffer.antt =====
-- What the operations on a reply leave in the buffer.
use t2h.Http.Reply.Loops.{
  copy_from-full, zeros, length-zeros, resize_grow, copy_from-nil, copy_from-front, copy_from-end,
  copy_three,
}
use t2h.Common.{
  ℕ, suc, ◌+◌, true, false, [], ◌∷◌, ◌++◌, some, ◌≡◌, refl, arith, Bytes, codes, length, drop,
  length-append, append_assoc,
}
use t2h.Http.Reply.{
  HttpReply, wrote, threw, copy_from, add_header_directly, add_header, cast_helper, add_status,
  add_content,
}
use t2h.Http.Reply.Resources.{StatusType, status_string, name_value_separator, crlf}

-- A reply whose buffer grows with what is written, and one whose buffer does not.
abbrev pub growing : Bytes → HttpReply
growing b = record { enable_buf_realocation = true; buf = b }

abbrev pub fixed : Bytes → HttpReply
fixed b = record { enable_buf_realocation = false; buf = b }

header_size :
    (b n v : Bytes) → length b + length n + length v + 2 ≡ length b + (length n + (2 + length v))
header_size b n v = omega arith

add_header_directly-growing :
    (b name value : Bytes)
    → add_header_directly (growing b) name value
      ≡ wrote (b ++ (name ++ (name_value_separator ++ value)))
unfolding add_header_directly
add_header_directly-growing b name value =
    rw (header_size b name value, add_header_directly)
      (rw (resize_grow b (length name + (2 + length value)), add_header_directly)
        (copy_three b name name_value_separator value _ (omega arith)))

add_header_directly-fixed :
    (b name value : Bytes) → add_header_directly (fixed b) name value ≡ threw b
unfolding add_header_directly
add_header_directly-fixed b [] value = ground (
  arith,
  copy_from-nil (length b + 0 + length value + 2) (length b) b,
  copy_from-full name_value_separator (length b + 0 + length value + 2) (length b + 0) b (λ e. cc),
)
add_header_directly-fixed b (c ∷ name) value = ground (
  arith,
  copy_from-full (c ∷ name) (length b + suc (length name) + length value + 2) (length b) b
      (λ e. cc),
)

-- With reallocation on, add_header appends the line of the header; with it off, the line has no
-- room, the call says so and the buffer stays as it was.
pub add_header_lem :
    (b name value : Bytes)
    → (add_header (growing b) name value
        ≡ (growing (b ++ (name ++ (codes ": " ++ (value ++ codes "\r\n")))), true))
      × (add_header (fixed b) name value ≡ (fixed b, false))
unfolding add_header
add_header_lem b name value = (
  rw (add_header_directly-growing b name value, add_header) (simp append_assoc),
  rw (add_header_directly-fixed b name value, add_header),
)

-- add_status writes its line over the front of the buffer and makes the buffer longer by as many
-- bytes, which are zeros.
pub add_status_lem :
    (r : HttpReply) (status : StatusType)
    → let line = status_string status in
      add_status r status
      ≡ (record r { buf = line ++ drop (length line) (r.buf ++ zeros (length line)) }, true)
unfolding add_status cast_helper
add_status_lem r status =
    let line = status_string status in
    rw (resize_grow r.buf (length line), add_status)
      (rw (
        copy_from-front line (r.buf ++ zeros (length line)) (length r.buf + length line)
          (omega (arith, length-append r.buf (zeros (length line)), length-zeros (length line)))
          (omega arith)))

content_full :
    (b : Bytes) (c : ℕ) (cs : Bytes)
    → copy_from (length b + length (c ∷ cs)) (length b) (c ∷ cs) b ≡ threw b
content_full b c cs =
    copy_from-full (c ∷ cs) (length b + length (c ∷ cs)) (length b) b (λ e. cc) (omega arith)
      (omega arith)

-- add_content appends the end of an empty line and the content to a buffer that grows; a buffer that
-- does not grow is cleared and the call says so, and so is a call with no content refused.
pub add_content_lem :
    (b : Bytes) (c : ℕ) (cs : Bytes)
    → (add_content (growing b) (some (c ∷ cs)) ≡ (growing (b ++ (crlf ++ c ∷ cs)), true))
      × (add_content (fixed b) (some (c ∷ cs)) ≡ (fixed [], false))
      × (add_content (growing b) (some []) ≡ (growing b, false))
unfolding add_content
add_content_lem b c cs = (
  rw (resize_grow (b ++ crlf) (length (c ∷ cs)), add_content)
      (rw (copy_from-end (c ∷ cs) (b ++ crlf) (length (b ++ crlf) + suc (length cs)) (omega arith))
        (simp append_assoc)),
  rw (content_full (b ++ crlf) c cs, add_content),
  refl,
)
