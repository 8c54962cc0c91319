-- ===== src/Http/Reply.antt =====
-- src/common/http_utility/http_reply.cpp, http_reply.hpp and the loops of http_reply_resources.hpp.
-- The buffer is a std::vector<char>; `at` throws where the index is out of range, and what was
-- written before stays.
pub mod Resources
pub mod Loops
pub mod Buffer
pub mod Stock
use t2h.Common.{
  ℕ, zero, suc, ◌+◌, ◌-◌, Bool, true, false, List, [], ◌∷◌, ◌++◌, Option, none, some, Bytes, codes,
  ltb, if◌then◌else◌, length, take, replicate,
}
use Resources.{StatusType, status_string, cast_to_string, name_value_separator, crlf}

pub record HttpReply : Type 0 where
  pub enable_buf_realocation : Bool
  pub buf : Bytes

-- vector::resize, with zeros behind
unfoldable pub resize : Bytes → ℕ → Bytes
resize b n = take n b ++ replicate (n - length b) 0

-- b.at(i) = c
unfoldable pub set_at : Bytes → ℕ → ℕ → Option Bytes
set_at [] i c = none
set_at (x ∷ b) zero c = some (c ∷ b)
set_at (x ∷ b) (suc i) c = elim (set_at b i c) [ none ↦ none | some d ↦ some (x ∷ d) ]

-- How a loop over the buffer ends: with the buffer, or by an exception that leaves it as it is.
pub data Loop : Type 0 where
  wrote : Bytes → Loop
  threw : Bytes → Loop

infixl 5 ◌>>=◌
abbrev pub ◌>>=◌ : Loop → (Bytes → Loop) → Loop
wrote b >>= f = f b
threw b >>= f = threw b

-- for (it = it, it_ = 0; it < limit && it_ < src.size(); ++it, ++it_) b.at(it) = src.at(it_)
unfoldable pub copy_from : ℕ → ℕ → Bytes → Bytes → Loop
copy_from limit it [] b = wrote b
copy_from limit it (c ∷ src) b = elim (ltb it limit) [
  | true ↦ elim (set_at b it c) [ none ↦ threw b | some d ↦ copy_from limit (it + 1) src d ]
  | false ↦ wrote b
]

unfoldable pub add_header_directly : HttpReply → Bytes → Bytes → Loop
add_header_directly r name value =
    let size = length r.buf in
    let new_size = size + length name + length value + length name_value_separator in
    let b = if r.enable_buf_realocation then resize r.buf new_size else r.buf in
    do
      b1 ← copy_from new_size size name b
      b2 ← copy_from new_size (size + length name) name_value_separator b1
      copy_from new_size (size + length name + length name_value_separator) value b2

unfoldable pub add_header : HttpReply → Bytes → Bytes → HttpReply × Bool
add_header r name value = elim (add_header_directly r name value) [
  | wrote b ↦ (record r { buf = b ++ crlf }, true)
  | threw b ↦ (record r { buf = b }, false)
]

-- The message goes to the front of the buffer, whatever stands there.
unfoldable pub cast_helper : Bytes → Bytes → Loop
cast_helper b message =
    let new_size = length b + length message in copy_from new_size 0 message (resize b new_size)

unfoldable pub add_status : HttpReply → StatusType → HttpReply × Bool
add_status r status = elim (cast_helper r.buf (status_string status)) [
  | wrote b ↦ (record r { buf = b }, true)
  | threw b ↦ (record r { buf = b }, false)
]

-- `none` is a null pointer; the size is that of the bytes behind it.
unfoldable pub add_content : HttpReply → Option Bytes → HttpReply × Bool
add_content r none = (r, false)
add_content r (some []) = (r, false)
add_content r (some (c ∷ cs)) =
    let content = c ∷ cs in
    let b = r.buf ++ crlf in
    let new_size = length b + length content in
    let grown = if r.enable_buf_realocation then resize b new_size else b in
    elim (copy_from new_size (length b) content grown) [
      | wrote d ↦ (record r { buf = d }, true)
      | threw d ↦ (record r { buf = [] }, false)
    ]

-- safe_lexical_cast<std::string> over boost's lexical_cast, whose failure is `none`.
unfoldable pub safe_lexical_cast : (ℕ → Option Bytes) → ℕ → Bytes
safe_lexical_cast cast n = elim (cast n) [ none ↦ [] | some s ↦ s ]

-- The results of the four calls are not looked at.
unfoldable pub stock_reply : (ℕ → Option Bytes) → HttpReply → StatusType → HttpReply × Bool
stock_reply cast r status =
    let content = cast_to_string status in
    let r1 = (add_status (record r { buf = [] }) status).0 in
    let r2 = (add_header r1 (codes "Content-Length") (safe_lexical_cast cast (length content))).0 in
    let r3 = (add_header r2 (codes "Content-Type") (codes "text/html")).0 in
    ((add_content r3 (some content)).0, true)
