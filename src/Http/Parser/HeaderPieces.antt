-- ===== src/Http/Parser/HeaderPieces.antt =====
-- The parser over the header lines of a request, with anything behind them.
use t2h.Http.Parser.Text.{header_lines}
use t2h.Common.{
  ℕ, List, [], ◌∷◌, ◌++◌, some, ◌≡◌, refl, ◌∙◌, arith, Bytes, All, append_assoc, append-nil,
}
use t2h.Http.Message.{Header, Request}
use t2h.Http.Parser.Sound.{IsToken, IsText, IsHeader}
use t2h.Http.Parser.{
  header_line_start, header_name, header_value, not_token, update_back, push_name, push_value,
  consume, parse,
}

-- The header lines, behind the headers already read.
abbrev with_last : Request → List Header → Header → Request
with_last req hs h = record req { headers = hs ++ h ∷ [] }

update_back-concat :
    (f : Header → Header) (hs : List Header) (h : Header)
    → update_back f (hs ++ h ∷ []) ≡ some (hs ++ f h ∷ [])
unfolding update_back
update_back-concat f [] h = refl
update_back-concat f (g ∷ []) h = refl
update_back-concat f (g ∷ k ∷ hs) h = rw (update_back-concat f (k ∷ hs) h, update_back)

step_name :
    (req : Request) (hs : List Header) (h : Header) (c : ℕ) (rest : Bytes)
    → IsToken c
    → parse header_name (with_last req hs h) (c ∷ rest)
      ≡ parse header_name (with_last req hs (push_name c h)) rest
unfolding parse consume not_token
step_name req hs h c rest t = ground (arith, update_back-concat (push_name c) hs h)

step_value :
    (req : Request) (hs : List Header) (h : Header) (c : ℕ) (rest : Bytes)
    → IsText c
    → parse header_value (with_last req hs h) (c ∷ rest)
      ≡ parse header_value (with_last req hs (push_value c h)) rest
unfolding parse consume
step_value req hs h c rest t = ground (arith, update_back-concat (push_value c) hs h)

run_name :
    (ns : Bytes) (req : Request) (hs : List Header) (h : Header) (rest : Bytes)
    → All IsToken ns
    → parse header_name (with_last req hs h) (ns ++ rest)
      ≡ parse header_name (with_last req hs (record h { name = h.name ++ ns })) rest
run_name [] req hs h rest a = rw append-nil
run_name (c ∷ cs) req hs h rest a =
    step_name req hs h c (cs ++ rest) a.0
    ∙ run_name cs req hs (push_name c h) rest a.1
    ∙ rw append_assoc

run_value :
    (vs : Bytes) (req : Request) (hs : List Header) (h : Header) (rest : Bytes)
    → All IsText vs
    → parse header_value (with_last req hs h) (vs ++ rest)
      ≡ parse header_value (with_last req hs (record h { value = h.value ++ vs })) rest
run_value [] req hs h rest a = rw append-nil
run_value (c ∷ cs) req hs h rest a =
    step_value req hs h c (cs ++ rest) a.0
    ∙ run_value cs req hs (push_value c h) rest a.1
    ∙ rw append_assoc

-- The first byte of a name opens a header; the parser takes it for no folded line.
step_header :
    (req : Request) (c : ℕ) (rest : Bytes)
    → IsToken c
    → parse header_line_start req (c ∷ rest)
      ≡ parse header_name (with_last req req.headers (record { name = c ∷ []; value = [] })) rest
unfolding parse consume not_token
step_header req c rest t = ground arith

step_colon :
    (req : Request) (rest : Bytes)
    → parse header_name req (b':' ∷ b' ' ∷ rest) ≡ parse header_value req rest
unfolding parse consume
step_colon req rest = refl

step_crlf :
    (req : Request) (rest : Bytes)
    → parse header_value req (b'\r' ∷ b'\n' ∷ rest) ≡ parse header_line_start req rest
unfolding parse consume
step_crlf req rest = refl

run_pieces :
    (c : ℕ) (ns vs : Bytes) (req : Request) (rest : Bytes)
    → IsToken c
    → All IsToken ns
    → All IsText vs
    → parse header_line_start req (c ∷ ns ++ (b':' ∷ b' ' ∷ (vs ++ (b'\r' ∷ b'\n' ∷ rest))))
      ≡ parse header_line_start
          (with_last req req.headers (record { name = c ∷ ns; value = vs }))
          rest
run_pieces c ns vs req rest t n v =
    step_header req c _ t
    ∙ run_name ns req req.headers _ _ n
    ∙ step_colon _ _
    ∙ run_value vs req req.headers _ _ v
    ∙ step_crlf _ _

run_header :
    (name value : Bytes) (req : Request) (rest : Bytes)
    → IsHeader (record { name = name; value = value })
    → parse header_line_start req (name ++ (b':' ∷ b' ' ∷ (value ++ (b'\r' ∷ b'\n' ∷ rest))))
      ≡ parse header_line_start
          (with_last req req.headers (record { name = name; value = value }))
          rest
run_header [] value req rest (ne, n, v) = absurd (ne refl)
run_header (c ∷ ns) value req rest (ne, n, v) = run_pieces c ns value req rest n.0 n.1 v

pub run_headers :
    (hs : List Header) (req : Request) (rest : Bytes)
    → All IsHeader hs
    → parse header_line_start req (header_lines hs rest)
      ≡ parse header_line_start (record req { headers = req.headers ++ hs }) rest
run_headers [] req rest a = rw append-nil
run_headers (h ∷ hs) req rest a =
    run_header h.name h.value req _ a.0
    ∙ run_headers hs (with_last req req.headers h) rest a.1
    ∙ rw append_assoc
