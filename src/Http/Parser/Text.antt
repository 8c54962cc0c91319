-- ===== src/Http/Parser/Text.antt =====
-- The text of a request, written piece by piece: what a client sends that keeps to the grammar of
-- src/common/http_utility/http_request_parser.cpp.
use t2h.Common.{ℕ, ◌+◌, ◌-◌, ◌*◌, ◌≤◌, true, List, [], ◌∷◌, ◌++◌, ◌≡◌, ◌≢◌, Bytes, All}
use t2h.Http.Message.{Header, Request, MethodType}
use t2h.Http.Parser.Sound.{IsToken, IsUri, IsHeader}
use t2h.Http.Parser.{is_digit, int_max}

-- The pieces of a request in the order in which they are sent, the version numbers as their digits.
pub record RequestText : Type 0 where
  pub method : Bytes
  pub uri : Bytes
  pub major : Bytes
  pub minor : Bytes
  pub headers : List Header

abbrev pub header_lines : List Header → Bytes → Bytes
header_lines [] rest = rest
header_lines (h ∷ hs) rest =
    h.name ++ (b':' ∷ b' ' ∷ (h.value ++ (b'\r' ∷ b'\n' ∷ header_lines hs rest)))

abbrev pub print : RequestText → Bytes → Bytes
print t rest =
    t.method
    ++ (b' '
        ∷ (t.uri
            ++ (b' '
                ∷ b'H'
                ∷ b'T'
                ∷ b'T'
                ∷ b'P'
                ∷ b'/'
                ∷ (t.major
                    ++ (b'.'
                        ∷ (t.minor
                            ++ (b'\r' ∷ b'\n' ∷ header_lines t.headers (b'\r' ∷ b'\n' ∷ rest))))))))

-- The number that digits stand for, read behind `v`.
abbrev pub number : ℕ → Bytes → ℕ
number v [] = v
number v (c ∷ cs) = number (v * 10 + c - b'0') cs

-- Digits that are there and whose number an int can hold in the way `consume` adds them up.
abbrev pub IsNumber : Bytes → Type 0
IsNumber ds = (ds ≢ []) × All (λ c. is_digit c ≡ true) ds × (number 0 ds + b'0' ≤ int_max)

-- What the pieces have to be for the text to be read back.
pub record IsRequestText (t : RequestText) : Type 0 where
  pub has_method : t.method ≢ []
  pub method_tokens : All IsToken t.method
  pub uri_bytes : All IsUri t.uri
  pub major_number : IsNumber t.major
  pub minor_number : IsNumber t.minor
  pub headers_hold : All IsHeader t.headers

-- An http_request as a client of the parser makes it: the numbers and the type are not set.
abbrev pub fresh : MethodType → ℕ → ℕ → Request
fresh m major minor = record {
  mtype = m;
  method = [];
  uri = [];
  http_version_major = major;
  http_version_minor = minor;
  headers = [];
}
