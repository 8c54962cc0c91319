-- ===== src/Http/Range/Translate.antt =====
-- What the Range header means: one range, and two ranges.
use t2h.Http.Range.Pieces.{
  set_bounds, cleared, then_first, parse_bounds_lem, then_parse, then_parse_lem, translate_comma,
  append-ne-nil,
}
use t2h.Common.{
  true, ◌∷◌, ◌++◌, Option, some, ◌≡◌, refl, ap, ◌∙◌, Bytes, length, All-append, append_assoc, ℤ,
}
use t2h.Http.Range.{
  RangeHeader, find_first_of, cast_bound, http_translate_range_header_, http_translate_range_header,
}
use t2h.Http.Range.Search.{Lacks, find_first_of-here}

module _ (lexical_cast : Bytes → Option ℤ) where
  -- Two ranges: `unit=a-b,c-d` reads the second range first, fails where it is bad and goes on to the
  -- first only then; on success all four bounds are set.
  pub translate_two_ranges :
      (r : RangeHeader) (unit a b c d : Bytes)
      → Lacks b'=' unit
      → Lacks b',' unit
      → Lacks b'-' a
      → Lacks b',' a
      → Lacks b',' b
      → Lacks b'-' c
      → http_translate_range_header lexical_cast r
          (unit ++ b'=' ∷ ((a ++ b'-' ∷ b) ++ b',' ∷ (c ++ b'-' ∷ d)))
        ≡ some (
            then_first
              (set_bounds (cleared r) (cast_bound lexical_cast c) (cast_bound lexical_cast d) true)
              (cast_bound lexical_cast a)
              (cast_bound lexical_cast b))
  unfolding http_translate_range_header http_translate_range_header_
  translate_two_ranges r unit a b c d ue uc ad ac bc cd =
      rw (find_first_of-here b'=' unit (x ++ b',' ∷ y) ue, http_translate_range_header_)
        (rw (comma, http_translate_range_header_)
          (translate_comma lexical_cast (cleared r) unit x y (append-ne-nil c b'-' d)
            ∙ ap some (
                ap (λ p. then_parse lexical_cast p x)
                  (parse_bounds_lem lexical_cast (cleared r) c d true cd)
                ∙ then_parse_lem lexical_cast
                    (set_bounds (cleared r) (cast_bound lexical_cast c) (cast_bound lexical_cast d)
                      true)
                    a b ad)))
    where
      x : Bytes
      x = a ++ b'-' ∷ b

      y : Bytes
      y = c ++ b'-' ∷ d

      lacks : Lacks b',' (unit ++ b'=' ∷ x)
      lacks = All-append _ unit _ uc (refl, All-append _ a _ ac (refl, bc))

      comma : find_first_of b',' (unit ++ b'=' ∷ (x ++ b',' ∷ y)) ≡ some (length (unit ++ b'=' ∷ x))
      comma =
          rw (append_assoc unit (b'=' ∷ x) (b',' ∷ y)) at
            (find_first_of-here b',' (unit ++ b'=' ∷ x) y lacks)
