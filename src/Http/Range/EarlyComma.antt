-- ===== src/Http/Range/EarlyComma.antt =====
-- A comma that stands too early in the Range header.
use t2h.Http.Range.Pieces.{parse_bounds_lem, cleared, parse_rest, not_at_end, append-ne-nil}
use t2h.Common.{
  ◌∙◌, str_eq, ap, inl, inr, ◌⊎◌, Bool, Bool-cases, ==_iff, ◌==◌, refl, ℕ, ◌+◌, ◌<◌, true, false,
  [], ◌∷◌, ◌++◌, Option, none, some, ◌≡◌, ◌≢◌, refl, arith, Bytes, if◌then◌else◌, length, drop,
  length-append, All-append, append_assoc, ℤ,
}
use t2h.Http.Range.{
  cast_bound, bad, RangeHeader, find_first_of, parse_bounds, http_range_header_value_parser,
  translate_parts, http_translate_range_header_, http_translate_range_header,
}
use t2h.Http.Range.Search.{find_first_of-none, Lacks, find_first_of-here, collect-past}

module _ (lexical_cast : Bytes → Option ℤ) where
  parse_past :
      (r : RangeHeader) (text : Bytes) (first last : ℕ)
      → last < first
      → http_range_header_value_parser lexical_cast r text first last false ≡ none
  unfolding http_range_header_value_parser
  parse_past r text first last h =
      rw (collect-past (drop first text) first last h, http_range_header_value_parser)

  translate_parts_past :
      (r : RangeHeader) (u y : Bytes) (start : ℕ)
      → y ≢ []
      → length u < start + 1
      → translate_parts lexical_cast r (u ++ b',' ∷ y) start (some (length u)) ≡ (
          if (parse_bounds lexical_cast r y true).1
          then none
          else some ((parse_bounds lexical_cast r y true).0, false))
  unfolding translate_parts
  translate_parts_past r u [] start ne h = absurd (ne refl)
  translate_parts_past r u (k ∷ y) start ne h =
      rw (not_at_end lexical_cast u b',' k y, translate_parts)
        (rw (parse_rest lexical_cast r u b',' (k ∷ y) true, translate_parts)
          (rw (
            parse_past (parse_bounds lexical_cast r (k ∷ y) true).0 (u ++ b',' ∷ k ∷ y) (start + 1)
              (length u) h)))

  translate_past :
      (r : RangeHeader) (u v w : Bytes)
      → Lacks b'=' u
      → Lacks b',' u
      → Lacks b'=' v
      → http_translate_range_header lexical_cast r (u ++ b',' ∷ (v ++ b'=' ∷ w)) ≡ (
          if (parse_bounds lexical_cast (cleared r) (v ++ b'=' ∷ w) true).1
          then none
          else some ((parse_bounds lexical_cast (cleared r) (v ++ b'=' ∷ w) true).0, false))
  unfolding http_translate_range_header http_translate_range_header_ translate_parts
      http_range_header_value_parser
  translate_past r u v w ue uc ve =
      rw (equals, http_translate_range_header_)
        (rw (find_first_of-here b',' u (v ++ b'=' ∷ w) uc, http_translate_range_header_)
          (translate_parts_past (cleared r) u (v ++ b'=' ∷ w) (length (u ++ b',' ∷ v))
            (append-ne-nil v b'=' w) (omega (arith, length-append u (b',' ∷ v)))))
    where
      equals : find_first_of b'=' (u ++ b',' ∷ (v ++ b'=' ∷ w)) ≡ some (length (u ++ b',' ∷ v))
      equals =
          rw (append_assoc u (b',' ∷ v) (b'=' ∷ w)) at
            (find_first_of-here b'=' (u ++ b',' ∷ v) w (All-append _ u _ ue (refl, ve)))

-- A text holds no dash, or splits at its first one.
split_dash :
    (xs : Bytes) → Lacks b'-' xs ⊎ ((a : Bytes) × (b : Bytes) × (xs ≡ a ++ b'-' ∷ b) × Lacks b'-' a)
split_dash [] = inl tt
split_dash (x ∷ xs) = elim (Bool-cases (x == b'-')) [
  | inl e ↦ inr ([], xs, ap (λ c. c ∷ xs) ((==_iff x b'-').0 e), tt)
  | inr e ↦ elim (split_dash xs) [
    | inl l ↦ inl (e, l)
    | inr (a, b, q, l) ↦ inr (x ∷ a, b, ap (◌∷◌ x) q, (e, l))
  ]
]

-- What is assumed of boost::lexical_cast<boost::int64_t>: a text that holds an equals sign is no
-- number.
module _ (lexical_cast : Bytes → Option ℤ)
    (not_a_number : (xs ys : Bytes) → lexical_cast (xs ++ b'=' ∷ ys) ≡ none) where
  cast_bound-bad : (xs ys : Bytes) → cast_bound lexical_cast (xs ++ b'=' ∷ ys) ≡ bad
  unfolding cast_bound str_eq
  cast_bound-bad [] ys = ground (arith, not_a_number [] ys)
  cast_bound-bad (x ∷ []) ys = ground (arith, not_a_number (x ∷ []) ys)
  cast_bound-bad (x ∷ y ∷ xs) ys = ground (arith, not_a_number (x ∷ y ∷ xs) ys)

  bad_first :
      (r : RangeHeader) (v a b : Bytes) (second : Bool)
      → Lacks b'-' v
      → Lacks b'-' a
      → parse_bounds lexical_cast r (v ++ b'=' ∷ (a ++ b'-' ∷ b)) second ≡ (r, false)
  bad_first r v a b second l m = rw (append_assoc v (b'=' ∷ a) (b'-' ∷ b)) at shifted
    where
      shifted : parse_bounds lexical_cast r ((v ++ b'=' ∷ a) ++ b'-' ∷ b) second ≡ (r, false)
      shifted =
          parse_bounds_lem lexical_cast r (v ++ b'=' ∷ a) b second (All-append _ v _ l (refl, m))
          ∙ rw (cast_bound-bad v a) (ground arith)

  bad_second :
      (r : RangeHeader) (a b w : Bytes) (second : Bool)
      → Lacks b'-' a
      → parse_bounds lexical_cast r ((a ++ b'-' ∷ b) ++ b'=' ∷ w) second ≡ (r, false)
  bad_second r a b w second l = rw (append_assoc a (b'-' ∷ b) (b'=' ∷ w)) (
      parse_bounds_lem lexical_cast r a (b ++ b'=' ∷ w) second l
      ∙ rw (cast_bound-bad b w) (ground arith))

  parse_bounds-equals :
      (r : RangeHeader) (v w : Bytes) (second : Bool)
      → parse_bounds lexical_cast r (v ++ b'=' ∷ w) second ≡ (r, false)
  parse_bounds-equals r v w second = elim (split_dash v) [
    | inr (a, b, q, l) ↦ rw q (bad_second r a b w second l)
    | inl l ↦ elim (split_dash w) [
      | inl m ↦
          unfold parse_bounds in
          rw (find_first_of-none b'-' (v ++ b'=' ∷ w) (All-append _ v _ l (refl, m)), parse_bounds)
      | inr (a, b, q, m) ↦ rw q (bad_first r v a b second l m)
    ]
  ]

  -- A comma in front of the equals sign gives no range and no exception: what stands behind the comma
  -- is read as the second range first, and one of its bounds holds the equals sign. The fields are
  -- cleared but for bend_2.
  pub translate_early_comma :
      (r : RangeHeader) (u v w : Bytes)
      → Lacks b'=' u
      → Lacks b',' u
      → Lacks b'=' v
      → http_translate_range_header lexical_cast r (u ++ b',' ∷ (v ++ b'=' ∷ w))
        ≡ some (cleared r, false)
  translate_early_comma r u v w ue uc ve =
      translate_past lexical_cast r u v w ue uc ve ∙ rw (parse_bounds-equals (cleared r) v w true)
