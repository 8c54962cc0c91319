-- ===== src/Http/Range.antt =====
-- src/common/http_utility/http_utility.cpp and http_utility.hpp: the Range header.
pub mod Search
pub mod Pieces
pub mod Translate
pub mod EarlyComma
use t2h.Common.{
  ℕ, suc, ◌+◌, Bool, true, false, ◌||◌, List, [], ◌∷◌, Option, none, some, Bytes, codes, str_eq,
  ◌==◌, if◌then◌else◌, length, drop, ℤ, pos, negsuc, eqb_ℤ,
}
use t2h.Http.Message.{Header}

-- range_header; the enumerators `all` and `bad` are -1 and -2.
pub record RangeHeader : Type 0 where
  pub bstart_1 : ℤ
  pub bend_1 : ℤ
  pub bstart_2 : ℤ
  pub bend_2 : ℤ

abbrev pub all : ℤ
all = negsuc 0

abbrev pub bad : ℤ
bad = negsuc 1

-- for (; first != last; ++first) out.push_back(str.at(first)), on the bytes from `first` on;
-- `none` is the exception of `at`.
unfoldable pub collect : Bytes → ℕ → ℕ → Option Bytes
collect [] first last = if first == last then some [] else none
collect (c ∷ cs) first last = elim (first == last) [
  | true ↦ some []
  | false ↦ elim (collect cs (first + 1) last) [ none ↦ none | some r ↦ some (c ∷ r) ]
]

abbrev pub slice : Bytes → ℕ → ℕ → Option Bytes
slice str first last = collect (drop first str) first last

-- find_first_of with one byte; `none` is npos.
unfoldable pub find_first_of : ℕ → Bytes → Option ℕ
find_first_of b [] = none
find_first_of b (c ∷ cs) =
    if c == b then some 0 else elim (find_first_of b cs) [ none ↦ none | some i ↦ some (suc i) ]

-- The parameter is boost::lexical_cast<boost::int64_t> of a text, with its exception as `none`.
module _ (lexical_cast : Bytes → Option ℤ) where
  -- The number that the bytes of one bound stand for.
  unfoldable pub cast_bound : Bytes → ℤ
  unfolding str_eq
  cast_bound tmp_buf =
      if str_eq tmp_buf (codes "*") || length tmp_buf == 0
      then all
      else elim (lexical_cast tmp_buf) [ none ↦ bad | some n ↦ n ]

  unfoldable pub cast_string_range_to_int : Bytes → ℕ → ℕ → ℤ
  unfolding cast_bound
  cast_string_range_to_int str first last = elim (slice str first last) [
    | none ↦ bad
    | some tmp_buf ↦ cast_bound tmp_buf
  ]

  -- The bounds of `value_range`, into the first or the second pair of fields.
  unfoldable pub parse_bounds : RangeHeader → Bytes → Bool → RangeHeader × Bool
  unfolding find_first_of
  parse_bounds rheader value_range is_second_part = elim (find_first_of b'-' value_range) [
    | none ↦ (rheader, false)
    | some pos_ ↦
        let bstart = cast_string_range_to_int value_range 0 pos_ in
        let bend = cast_string_range_to_int value_range (pos_ + 1) (length value_range) in
        if eqb_ℤ bstart bad || eqb_ℤ bend bad
        then (rheader, false)
        else if is_second_part
        then (record rheader { bstart_2 = bstart; bend_2 = bend }, true)
        else (record rheader { bstart_1 = bstart; bend_1 = bend }, true)
  ]

  -- `none` is the exception of value.at, which leaves this function.
  unfoldable pub http_range_header_value_parser :
      RangeHeader → Bytes → ℕ → ℕ → Bool → Option (RangeHeader × Bool)
  http_range_header_value_parser rheader value start_range end_range is_second_part =
      elim (slice value start_range end_range) [
        | none ↦ none
        | some value_range ↦ some (parse_bounds rheader value_range is_second_part)
      ]

  -- The part behind the search for "=" and ",", which both versions share.
  unfoldable pub translate_parts : RangeHeader → Bytes → ℕ → Option ℕ → Option (RangeHeader × Bool)
  translate_parts rheader header start none =
      http_range_header_value_parser rheader header (start + 1) (length header) false
  translate_parts rheader header start (some delim_pos) =
      if delim_pos + 1 == length header
      then some (rheader, false)
      else elim (http_range_header_value_parser rheader header (delim_pos + 1) (length header)
          true) [
            | none ↦ none
            | some (r, ok) ↦
                if ok
                then http_range_header_value_parser r header (start + 1) delim_pos false
                else some (r, false)
          ]

  unfoldable pub http_translate_range_header_ : RangeHeader → Bytes → Option (RangeHeader × Bool)
  http_translate_range_header_ rheader header = elim (find_first_of b'=' header) [
    | none ↦ some (rheader, false)
    | some start ↦ translate_parts rheader header start (find_first_of b',' header)
  ]

  -- The assignment names bend_1 twice and leaves bend_2 as it was.
  unfoldable pub http_translate_range_header : RangeHeader → Bytes → Option (RangeHeader × Bool)
  http_translate_range_header rheader header =
      http_translate_range_header_ (record rheader { bstart_1 = bad; bend_1 = bad; bstart_2 = bad })
        header

unfoldable pub http_get_header : List Header → Bytes → Option Header
http_get_header [] name = none
http_get_header (h ∷ hs) name = if str_eq h.name name then some h else http_get_header hs name

-- The version over a request's headers sets no field before it parses.
unfoldable pub http_translate_range_headers :
    (Bytes → Option ℤ) → RangeHeader → List Header → Option (RangeHeader × Bool)
http_translate_range_headers lexical_cast rheader headers =
    elim (http_get_header headers (codes "Range")) [
      | none ↦ some (rheader, false)
      | some h ↦ http_translate_range_header_ lexical_cast rheader h.value
    ]
