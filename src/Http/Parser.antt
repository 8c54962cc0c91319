-- ===== src/Http/Parser.antt =====
-- src/common/http_utility/http_request_parser.cpp and http_request_parser.hpp: the byte-driven
-- state machine of http_request_parser. A byte of 128 and more is a negative char.
pub mod Rule
pub mod Chunks
pub mod Faults
pub mod Sound
pub mod Text
pub mod LinePieces
pub mod HeaderPieces
pub mod RoundTrip
use t2h.Common.{
  ℕ, ◌+◌, ◌-◌, ◌*◌, Bool, true, false, not, ◌&&◌, ◌||◌, List, [], ◌∷◌, ◌++◌, Option, none, some,
  ltb, leb, ◌==◌, if◌then◌else◌, Bytes,
}
use t2h.Http.Message.{Header, Request, http_request_set_mtype}

-- http_request_parser::state
pub data State : Type 0 where
  method_start method uri_start uri http_version_h http_version_t_1 http_version_t_2 : State
  http_version_p http_version_slash http_version_major_start http_version_major : State
  http_version_minor_start http_version_minor expecting_newline_1 header_line_start : State
  header_lws header_name space_before_header_value header_value expecting_newline_2 : State
  expecting_newline_3 state_type_max : State

unfoldable pub is_char : ℕ → Bool
is_char c = leb c 127

unfoldable pub is_ctl : ℕ → Bool
is_ctl c = leb c 31 || c == 127

unfoldable pub is_tspecial : ℕ → Bool
is_tspecial c =
    c == b'('
    || c == b')'
    || c == b'<'
    || c == b'>'
    || c == b'@'
    || c == b','
    || c == b';'
    || c == b':'
    || c == b'\\'
    || c == b'"'
    || c == b'/'
    || c == b'['
    || c == b']'
    || c == b'?'
    || c == b'='
    || c == b'{'
    || c == b'}'
    || c == b' '
    || c == b'\t'

unfoldable pub is_digit : ℕ → Bool
is_digit c = leb b'0' c && leb c b'9'

-- The test `!is_char(input) || is_ctl(input) || is_tspecial(input)`, which four states make.
unfoldable pub not_token : ℕ → Bool
unfolding is_char is_ctl is_tspecial
not_token c = not (is_char c) || is_ctl c || is_tspecial c

-- What is undefined in C++: a signed overflow, and back() of an empty vector.
pub data Fault : Type 0 where
  int_overflow back_of_empty : Fault

-- What `consume` returns, with the state and the request that it leaves where it goes on. Where it
-- returns true or false it has changed neither.
pub data Outcome : Type 0 where
  indeterminate : State → Request → Outcome
  complete : Outcome
  invalid : Outcome
  undefined : Fault → Outcome

abbrev pub int_max : ℕ
int_max = 2147483647

-- `v * 10 + input - '0'` on ints, handed to the rest of the case.
unfoldable pub with_digit : ℕ → ℕ → (ℕ → Outcome) → Outcome
with_digit v c k =
    if ltb int_max (v * 10 + c) then undefined int_overflow else k (v * 10 + c - b'0')

-- headers.back() = f(headers.back())
unfoldable pub update_back : (Header → Header) → List Header → Option (List Header)
update_back f [] = none
update_back f (h ∷ []) = some (f h ∷ [])
update_back f (h ∷ g ∷ hs) = elim (update_back f (g ∷ hs)) [ none ↦ none | some t ↦ some (h ∷ t) ]

abbrev pub push_name : ℕ → Header → Header
push_name c h = record h { name = h.name ++ c ∷ [] }

abbrev pub push_value : ℕ → Header → Header
push_value c h = record h { value = h.value ++ c ∷ [] }

unfoldable pub on_back : State → Request → (Header → Header) → Outcome
on_back s req f = elim (update_back f req.headers) [
  | none ↦ undefined back_of_empty
  | some hs ↦ indeterminate s (record req { headers = hs })
]

unfoldable pub is_empty : List Header → Bool
is_empty [] = true
is_empty (h ∷ hs) = false

-- One case of the switch each.
unfoldable pub consume : State → Request → ℕ → Outcome
unfolding is_ctl is_digit with_digit on_back is_empty
consume method_start req c =
    if not_token c
    then invalid
    else indeterminate method (record req { method = req.method ++ c ∷ [] })
consume method req c =
    if c == b' '
    then indeterminate uri req
    else if not_token c
    then invalid
    else indeterminate method (record req { method = req.method ++ c ∷ [] })
consume uri_start req c =
    if is_ctl c then invalid else indeterminate uri (record req { uri = req.uri ++ c ∷ [] })
consume uri req c =
    if c == b' '
    then indeterminate http_version_h req
    else if is_ctl c
    then invalid
    else indeterminate uri (record req { uri = req.uri ++ c ∷ [] })
consume http_version_h req c = if c == b'H' then indeterminate http_version_t_1 req else invalid
consume http_version_t_1 req c = if c == b'T' then indeterminate http_version_t_2 req else invalid
consume http_version_t_2 req c = if c == b'T' then indeterminate http_version_p req else invalid
consume http_version_p req c = if c == b'P' then indeterminate http_version_slash req else invalid
consume http_version_slash req c =
    if c == b'/'
    then indeterminate http_version_major_start
        (record req { http_version_major = 0; http_version_minor = 0 })
    else invalid
consume http_version_major_start req c =
    if is_digit c
    then with_digit req.http_version_major c
        (λ v. indeterminate http_version_major (record req { http_version_major = v }))
    else invalid
consume http_version_major req c =
    if c == b'.'
    then indeterminate http_version_minor_start req
    else if is_digit c
    then with_digit req.http_version_major c
        (λ v. indeterminate http_version_major (record req { http_version_major = v }))
    else invalid
consume http_version_minor_start req c =
    if is_digit c
    then with_digit req.http_version_minor c
        (λ v. indeterminate http_version_minor (record req { http_version_minor = v }))
    else invalid
consume http_version_minor req c =
    if c == b'\r'
    then indeterminate expecting_newline_1 req
    else if is_digit c
    then with_digit req.http_version_minor c
        (λ v. indeterminate http_version_minor (record req { http_version_minor = v }))
    else invalid
consume expecting_newline_1 req c =
    if c == b'\n' then indeterminate header_line_start req else invalid
consume header_line_start req c =
    if c == b'\r'
    then indeterminate expecting_newline_3 req
    else if not (is_empty req.headers) && (c == b' ' || c == b'\t')
    then indeterminate header_lws req
    else if not_token c
    then invalid
    else indeterminate header_name
        (record req { headers = req.headers ++ record { name = c ∷ []; value = [] } ∷ [] })
consume header_lws req c =
    if c == b'\r'
    then indeterminate expecting_newline_2 req
    else if c == b' ' || c == b'\t'
    then indeterminate header_lws req
    else if is_ctl c
    then invalid
    else on_back header_value req (push_value c)
consume header_name req c =
    if c == b':'
    then indeterminate space_before_header_value req
    else if not_token c
    then invalid
    else on_back header_name req (push_name c)
consume space_before_header_value req c =
    if c == b' ' then indeterminate header_value req else invalid
consume header_value req c =
    if c == b'\r'
    then indeterminate expecting_newline_2 req
    else if is_ctl c
    then invalid
    else on_back header_value req (push_value c)
consume expecting_newline_2 req c =
    if c == b'\n' then indeterminate header_line_start req else invalid
consume expecting_newline_3 req c = if c == b'\n' then complete else invalid
consume state_type_max req c = invalid

-- boost::tribool
pub data Tribool : Type 0 where
  tri_true tri_false tri_indeterminate : Tribool

-- The pair that `parse` returns, with the iterator as the bytes not consumed, the member `state_`
-- and the request.
pub record Parsed : Type 0 where
  pub result : Tribool
  pub rest : Bytes
  pub state : State
  pub req : Request

pub data Run : Type 0 where
  returns : Parsed → Run
  faults : Fault → Run

abbrev stops : Tribool → Bytes → State → Request → Run
stops t rest s req =
    returns (record { result = t; rest = rest; state = s; req = http_request_set_mtype req })

unfoldable pub parse : State → Request → Bytes → Run
parse s req [] = returns (record { result = tri_indeterminate; rest = []; state = s; req = req })
parse s req (c ∷ cs) = elim (consume s req c) [
  | indeterminate t r ↦ parse t r cs
  | complete ↦ stops tri_true cs s req
  | invalid ↦ stops tri_false cs s req
  | undefined f ↦ faults f
]
