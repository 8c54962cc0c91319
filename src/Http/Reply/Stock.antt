-- ===== src/Http/Reply/Stock.antt =====
-- The stock replies as a whole.
use t2h.Common.{
  ℕ, true, [], ◌∷◌, ◌++◌, Option, some, ◌≡◌, refl, ap, arith, Bytes, codes, length, drop_of_le,
  append-nil, append_assoc,
}
use t2h.Http.Reply.{add_status, add_header, add_content, safe_lexical_cast, stock_reply}
use t2h.Http.Reply.Resources.{StatusType, status_string, cast_to_string, crlf}
use t2h.Http.Reply.Loops.{zeros, length-zeros}
use t2h.Http.Reply.Buffer.{growing, fixed, add_header_lem, add_status_lem, add_content_lem}

-- A body behind the empty line. With no body there is no empty line either.
abbrev pub ended : Bytes → Bytes
ended [] = []
ended (c ∷ cs) = crlf ++ c ∷ cs

-- The status line and the two header lines, the first with the size of the body.
abbrev pub stock_head : (ℕ → Option Bytes) → StatusType → Bytes
stock_head cast status =
    status_string status
    ++ (codes "Content-Length: "
        ++ (safe_lexical_cast cast (length (cast_to_string status))
            ++ codes "\r\nContent-Type: text/html\r\n"))

add_status-empty :
    (status : StatusType) → (add_status (growing []) status).0 ≡ growing (status_string status)
add_status-empty status =
    let line = status_string status in
    rw (add_status_lem (growing []) status) (
      rw
        (drop_of_le (length line) (zeros (length line)) (omega (arith, length-zeros (length line))))
        (rw append-nil))

add_content-ended :
    (b content : Bytes) → (add_content (growing b) (some content)).0 ≡ growing (b ++ ended content)
add_content-ended b [] = rw ((add_content_lem b 0 []).2) (rw append-nil)
add_content-ended b (c ∷ cs) = rw ((add_content_lem b c cs).0)

add_header-growing :
    (b name value : Bytes)
    → (add_header (growing b) name value).0
      ≡ growing (b ++ (name ++ (codes ": " ++ (value ++ codes "\r\n"))))
add_header-growing b name value = ap (λ p. p.0) ((add_header_lem b name value).0)

-- What is left of a reply that does not grow, with this line and this body.
abbrev pub line_left : (line content : Bytes) → Bytes
line_left line [] = line
line_left line (c ∷ cs) = []

add_status-fixed :
    (status : StatusType) → (add_status (fixed []) status).0 ≡ fixed (status_string status)
add_status-fixed status =
    let line = status_string status in
    rw (add_status_lem (fixed []) status) (
      rw
        (drop_of_le (length line) (zeros (length line)) (omega (arith, length-zeros (length line))))
        (rw append-nil))

add_header-fixed : (b name value : Bytes) → (add_header (fixed b) name value).0 ≡ fixed b
add_header-fixed b name value = ap (λ p. p.0) ((add_header_lem b name value).1)

add_content-fixed :
    (b content : Bytes) → (add_content (fixed b) (some content)).0 ≡ fixed (line_left b content)
unfolding add_content
add_content-fixed b [] = refl
add_content-fixed b (c ∷ cs) = ap (λ p. p.0) ((add_content_lem b c cs).1)

-- A stock reply is built from scratch, whatever the buffer held. With reallocation on it is the status
-- line, the size and the type of the body, and the body behind an empty line where there is a body.
-- With reallocation off no header and no body is written: the status line is left where the body is
-- empty, and nothing at all where it is not. Both report success.
pub stock_reply_lem :
    (cast : ℕ → Option Bytes) (b : Bytes) (status : StatusType)
    → (stock_reply cast (growing b) status
        ≡ (growing (stock_head cast status ++ ended (cast_to_string status)), true))
      × (stock_reply cast (fixed b) status
          ≡ (fixed (line_left (status_string status) (cast_to_string status)), true))
unfolding stock_reply
stock_reply_lem cast b status = (
  simp (add_status-empty, add_header-growing, add_content-ended, append_assoc),
  simp (add_status-fixed, add_header-fixed, add_content-fixed),
)
