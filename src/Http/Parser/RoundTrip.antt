-- ===== src/Http/Parser/RoundTrip.antt =====
-- `parse` reads back the text of a request.
use t2h.Http.Parser.Text.{RequestText, IsRequestText, print, number, fresh}
use t2h.Http.Parser.LinePieces.{run_method, run_uri, run_major, run_minor}
use t2h.Http.Parser.HeaderPieces.{run_headers}
use t2h.Common.{ℕ, [], ◌∷◌, ◌++◌, ◌≡◌, ◌≢◌, inl, refl, ◌∙◌, arith, Bytes, All, append_assoc}
use t2h.Http.Message.{Request, http_request_set_mtype, method_type, MethodType}
use t2h.Http.Parser.Sound.{IsToken}
use t2h.Http.Parser.{
  method_start, method, uri, http_version_major_start, http_version_major, http_version_minor_start,
  http_version_minor, header_line_start, expecting_newline_3, consume, tri_true, returns, parse,
}

step_start :
    (req : Request) (c : ℕ) (rest : Bytes)
    → IsToken c
    → parse method_start req (c ∷ rest)
      ≡ parse method (record req { method = req.method ++ c ∷ [] }) rest
unfolding parse consume
step_start req c rest h = ground arith

run_start :
    (m : Bytes) (req : Request) (rest : Bytes)
    → m ≢ []
    → All IsToken m
    → parse method_start req (m ++ rest)
      ≡ parse method (record req { method = req.method ++ m }) rest
run_start [] req rest ne a = absurd (ne refl)
run_start (c ∷ cs) req rest ne a =
    step_start req c (cs ++ rest) a.0
    ∙ run_method cs (record req { method = req.method ++ c ∷ [] }) rest a.1
    ∙ rw append_assoc

blank_method : (req : Request) (rest : Bytes) → parse method req (b' ' ∷ rest) ≡ parse uri req rest
unfolding parse consume
blank_method req rest = refl

blank_uri :
    (req : Request) (rest : Bytes)
    → parse uri req (b' ' ∷ b'H' ∷ b'T' ∷ b'T' ∷ b'P' ∷ b'/' ∷ rest)
      ≡ parse http_version_major_start
          (record req { http_version_major = 0; http_version_minor = 0 })
          rest
unfolding parse consume
blank_uri req rest = refl

dot_major :
    (req : Request) (rest : Bytes)
    → parse http_version_major req (b'.' ∷ rest) ≡ parse http_version_minor_start req rest
unfolding parse consume
dot_major req rest = refl

crlf_minor :
    (req : Request) (rest : Bytes)
    → parse http_version_minor req (b'\r' ∷ b'\n' ∷ rest) ≡ parse header_line_start req rest
unfolding parse consume
crlf_minor req rest = refl

crlf_end :
    (req : Request) (rest : Bytes)
    → parse header_line_start req (b'\r' ∷ b'\n' ∷ rest)
      ≡ returns (record {
        result = tri_true;
        rest = rest;
        state = expecting_newline_3;
        req = http_request_set_mtype req;
      })
unfolding parse consume
crlf_end req rest = refl

-- A request that is sent in the form METHOD URI HTTP/MAJOR.MINOR, a line for each header and an
-- empty line is read back whole by a parser at the method: every field is what was sent, the
-- numbers are those of the digits, and the bytes behind the empty line are left alone.
pub parse-print :
    (m : MethodType) (major minor : ℕ) (t : RequestText) (rest : Bytes)
    → IsRequestText t
    → parse method_start (fresh m major minor) (print t rest)
      ≡ returns (record {
        result = tri_true;
        rest = rest;
        state = expecting_newline_3;
        req = record {
          mtype = method_type t.method;
          method = t.method;
          uri = t.uri;
          http_version_major = number 0 t.major;
          http_version_minor = number 0 t.minor;
          headers = t.headers;
        };
      })
parse-print m major minor t rest h =
    run_start t.method _ _ h.has_method h.method_tokens
    ∙ blank_method _ _
    ∙ run_uri t.uri _ _ h.uri_bytes
    ∙ blank_uri _ _
    ∙ run_major t.major http_version_major_start _ _ (inl refl) h.major_number.0 h.major_number.1
        h.major_number.2
    ∙ dot_major _ _
    ∙ run_minor t.minor http_version_minor_start _ _ (inl refl) h.minor_number.0 h.minor_number.1
        h.minor_number.2
    ∙ crlf_minor _ _
    ∙ run_headers t.headers _ _ h.headers_hold
    ∙ crlf_end _ _
