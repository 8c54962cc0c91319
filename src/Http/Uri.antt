-- ===== src/Http/Uri.antt =====
-- src/common/http_utility/http_utility.cpp: url_decode and http_normalize_uri, without the clause
-- for Windows.
pub mod Decoding
mod Tests
use t2h.Common.{ℕ, ◌==◌, Bool, true, false, List, [], ◌∷◌, Option, none, some, Bytes, if◌then◌else◌}

-- `out` with the bytes decoded so far, and whether the text was read to its end. The parameter reads
-- two bytes as std::hex does and casts the number to a char.
module _ (read_hex : ℕ → ℕ → Option ℕ) where
  abbrev prepend : ℕ → Bytes × Bool → Bytes × Bool
  prepend c r = (c ∷ r.0, r.1)

  unfoldable pub url_decode : Bytes → Bytes × Bool
  url_decode [] = ([], true)
  url_decode (c ∷ []) =
      if c == b'%' then ([], false) else if c == b'+' then (b' ' ∷ [], true) else (c ∷ [], true)
  url_decode (c ∷ d ∷ []) =
      let rest = url_decode (d ∷ []) in
      if c == b'%' then ([], false) else if c == b'+' then prepend b' ' rest else prepend c rest
  url_decode (c ∷ d ∷ e ∷ cs) =
      let rest = url_decode (d ∷ e ∷ cs) in
      let behind = url_decode cs in
      if c == b'%'
      then elim (read_hex d e) [ none ↦ ([], false) | some v ↦ prepend v behind ]
      else if c == b'+'
      then prepend b' ' rest
      else prepend c rest

unfoldable pub http_normalize_uri : Bytes → Bytes
http_normalize_uri [] = []
http_normalize_uri (c ∷ uri) = (if c == b'+' then b' ' else c) ∷ http_normalize_uri uri
