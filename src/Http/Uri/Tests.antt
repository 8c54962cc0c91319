-- ===== src/Http/Uri/Tests.antt =====
-- Tests of the decoding of a URI.
use t2h.Common.{
  ℕ, ◌+◌, ◌-◌, ◌*◌, ◌/◌, ◌%◌, Bool, true, false, Option, some, codes, ◌≡◌, refl, arith,
}
use t2h.Http.Uri.{url_decode}
use t2h.Http.Uri.Decoding.{url_encode, url_decode-encode}

-- Stand-ins for hex digits: the sixteen bytes from 64 on.
abbrev to_digits : ℕ → ℕ × ℕ
to_digits c = (64 + c / 16, 64 + c % 16)

abbrev from_digits : ℕ → ℕ → Option ℕ
from_digits d e = some ((d - 64) * 16 + (e - 64))

abbrev needs_none : ℕ → Bool
needs_none c = false

from_digits-to_digits : (c : ℕ) → from_digits (to_digits c).0 (to_digits c).1 ≡ some c
from_digits-to_digits c = ground arith

-- The percent sign at the end is refused.
refused_test : url_decode from_digits (codes "a+%4") ≡ (codes "a ", false)
unfolding url_decode
refused_test = refl

url_decode-encode_example :
    url_decode from_digits (url_encode needs_none to_digits (codes "a b+c%"))
    ≡ (codes "a b+c%", true)
url_decode-encode_example =
    url_decode-encode from_digits needs_none to_digits (λ c l. from_digits-to_digits c)
      (codes "a b+c%")
      (omega arith, (omega arith, (omega arith, (omega arith, (omega arith, (omega arith, tt))))))
