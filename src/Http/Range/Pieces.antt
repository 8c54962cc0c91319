-- ===== src/Http/Range/Pieces.antt =====
-- The parser of one range over a part of the header, and what the second range leaves for the
-- first.
use t2h.Common.{
  ℕ, ◌+◌, Bool, true, false, ◌||◌, [], ◌∷◌, ◌++◌, Option, some, ◌≡◌, ◌≢◌, refl, arith, Bytes, ◌==◌,
  if◌then◌else◌, length, length-append, append_assoc, ℤ, eqb_ℤ,
}
use t2h.Http.Range.{
  RangeHeader, bad, cast_bound, cast_string_range_to_int, parse_bounds,
  http_range_header_value_parser, translate_parts,
}
use t2h.Http.Range.Search.{Lacks, find_first_of-here, slice-append, slice-behind, slice_rest}

-- The two bounds of a range, into the first or the second pair of fields, unless one is bad.
abbrev pub set_bounds : RangeHeader → ℤ → ℤ → Bool → RangeHeader × Bool
set_bounds r s e second =
    if eqb_ℤ s bad || eqb_ℤ e bad
    then (r, false)
    else if second
    then (record r { bstart_2 = s; bend_2 = e }, true)
    else (record r { bstart_1 = s; bend_1 = e }, true)

abbrev pub cleared : RangeHeader → RangeHeader
cleared r = record r { bstart_1 = bad; bend_1 = bad; bstart_2 = bad }

-- The first range, where the second was in order.
abbrev pub then_first : RangeHeader × Bool → ℤ → ℤ → RangeHeader × Bool
then_first (r, ok) s e = if ok then set_bounds r s e false else (r, false)

pub append-ne-nil : (c : Bytes) (k : ℕ) (d : Bytes) → c ++ k ∷ d ≢ []
append-ne-nil [] k d = λ e. cc
append-ne-nil (x ∷ c) k d = λ e. cc

module _ (lexical_cast : Bytes → Option ℤ) where
  -- The first bound stands in front of the first dash, the second behind it.
  pub parse_bounds_lem :
      (r : RangeHeader) (a b : Bytes) (second : Bool)
      → Lacks b'-' a
      → parse_bounds lexical_cast r (a ++ b'-' ∷ b) second
        ≡ set_bounds r (cast_bound lexical_cast a) (cast_bound lexical_cast b) second
  unfolding parse_bounds cast_string_range_to_int
  parse_bounds_lem r a b second h =
      rw (find_first_of-here b'-' a b h, parse_bounds)
        (rw (slice-append [] a (b'-' ∷ b) 0 (length a) refl (omega arith), cast_string_range_to_int)
          (rw (slice_rest a b'-' b, cast_string_range_to_int)))

  pub parse_first :
      (r : RangeHeader) (u x post : Bytes) (last : ℕ)
      → last ≡ length u + 1 + length x
      → http_range_header_value_parser lexical_cast r
          (u ++ b'=' ∷ (x ++ post))
          (length u + 1)
          last
          false
        ≡ some (parse_bounds lexical_cast r x false)
  unfolding http_range_header_value_parser
  parse_first r u x post last e =
      rw (slice-behind u b'=' x post last e, http_range_header_value_parser)

  pub parse_rest :
      (r : RangeHeader) (pre : Bytes) (sep : ℕ) (y : Bytes) (second : Bool)
      → http_range_header_value_parser lexical_cast r
          (pre ++ sep ∷ y)
          (length pre + 1)
          (length (pre ++ sep ∷ y))
          second
        ≡ some (parse_bounds lexical_cast r y second)
  unfolding http_range_header_value_parser
  parse_rest r pre sep y second = rw (slice_rest pre sep y, http_range_header_value_parser)

  -- The first range is read where the second was in order.
  abbrev pub then_parse : RangeHeader × Bool → Bytes → RangeHeader × Bool
  then_parse (r, ok) x = if ok then parse_bounds lexical_cast r x false else (r, false)

  pub then_parse_lem :
      (p : RangeHeader × Bool) (a b : Bytes)
      → Lacks b'-' a
      → then_parse p (a ++ b'-' ∷ b)
        ≡ then_first p (cast_bound lexical_cast a) (cast_bound lexical_cast b)
  then_parse_lem (r, true) a b h = parse_bounds_lem r a b false h
  then_parse_lem (r, false) a b h = refl

  -- The test for a comma that ends the text fails where something stands behind the comma.
  pub not_at_end :
      (pre : Bytes) (sep c : ℕ) (y : Bytes)
      → (length pre + 1 == length (pre ++ sep ∷ c ∷ y)) ≡ false
  not_at_end pre sep c y = ground (arith, length-append pre (sep ∷ c ∷ y))

  -- With a comma at a known place, the part behind it is read first.
  pub translate_parts_comma :
      (r : RangeHeader) (unit x : Bytes) (k : ℕ) (y : Bytes)
      → translate_parts lexical_cast r
          (unit ++ b'=' ∷ (x ++ b',' ∷ k ∷ y))
          (length unit)
          (some (length (unit ++ b'=' ∷ x)))
        ≡ some (then_parse (parse_bounds lexical_cast r (k ∷ y) true) x)
  unfolding translate_parts
  translate_parts_comma r unit x k y =
      rw
        (
          ← append_assoc unit (b'=' ∷ x) (b',' ∷ k ∷ y),
          not_at_end (unit ++ b'=' ∷ x) b',' k y,
          translate_parts,
        )
        (rw (parse_rest r (unit ++ b'=' ∷ x) b',' (k ∷ y) true, translate_parts)
          (rw
            (parse_first _ unit x (b',' ∷ k ∷ y) (length (unit ++ b'=' ∷ x))
              (omega (arith, length-append unit (b'=' ∷ x))))
            (ground arith)))

  pub translate_comma :
      (r : RangeHeader) (unit x y : Bytes)
      → y ≢ []
      → translate_parts lexical_cast r
          (unit ++ b'=' ∷ (x ++ b',' ∷ y))
          (length unit)
          (some (length (unit ++ b'=' ∷ x)))
        ≡ some (then_parse (parse_bounds lexical_cast r y true) x)
  translate_comma r unit x [] ne = absurd (ne refl)
  translate_comma r unit x (k ∷ y) ne = translate_parts_comma r unit x k y
