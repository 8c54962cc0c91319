-- ===== src/Http/Uri/Decoding.antt =====
-- url_decode against an encoder.
use t2h.Common.{
  ℕ, ◌==◌, ==_iff, Bool, true, false, ◌||◌, [], ◌∷◌, ◌++◌, Option, some, Bytes, if◌then◌else◌, ◌≡◌,
  refl, ap, sym, ◌∙◌, All, ◌<◌, arith, Bool-cases, inl, inr,
}
use t2h.Http.Uri.{url_decode}

-- A percent sign, a plus and the bytes that `needs` picks are written in hex, a blank as a plus.
abbrev pub encode_byte : (needs : ℕ → Bool) → (digits : ℕ → ℕ × ℕ) → ℕ → Bytes
encode_byte needs digits c =
    if c == b' '
    then b'+' ∷ []
    else if c == b'%' || (c == b'+' || needs c)
    then b'%' ∷ (digits c).0 ∷ (digits c).1 ∷ []
    else c ∷ []

unfoldable pub url_encode : (needs : ℕ → Bool) → (digits : ℕ → ℕ × ℕ) → Bytes → Bytes
url_encode needs digits [] = []
url_encode needs digits (c ∷ cs) = encode_byte needs digits c ++ url_encode needs digits cs

module _ (read_hex : ℕ → ℕ → Option ℕ) (needs : ℕ → Bool) (digits : ℕ → ℕ × ℕ)
    (reads : (c : ℕ) → c < 256 → read_hex (digits c).0 (digits c).1 ≡ some c) where
  decode_plain :
      (c : ℕ) (cs bs : Bytes)
      → (c == b'%') ≡ false
      → (c == b'+') ≡ false
      → url_decode read_hex cs ≡ (bs, true)
      → url_decode read_hex (c ∷ cs) ≡ (c ∷ bs, true)
  unfolding url_decode
  decode_plain c [] bs p q e = ground arith
  decode_plain c (d ∷ []) bs p q e = ground arith
  decode_plain c (d ∷ f ∷ cs) bs p q e = ground arith

  decode_blank :
      (cs bs : Bytes)
      → url_decode read_hex cs ≡ (bs, true)
      → url_decode read_hex (b'+' ∷ cs) ≡ (b' ' ∷ bs, true)
  unfolding url_decode
  decode_blank [] bs e = ground arith
  decode_blank (d ∷ []) bs e = ground arith
  decode_blank (d ∷ f ∷ cs) bs e = ground arith

  decode_hex :
      (c : ℕ) (cs bs : Bytes)
      → c < 256
      → url_decode read_hex cs ≡ (bs, true)
      → url_decode read_hex (b'%' ∷ (digits c).0 ∷ (digits c).1 ∷ cs) ≡ (c ∷ bs, true)
  unfolding url_decode
  decode_hex c cs bs l e = rw (reads c l, e) refl

  -- A text of bytes that was encoded, with a blank as a plus and with whatever bytes in hex besides the percent
  -- sign and the plus, is decoded whole.
  pub url_decode-encode :
      (cs : Bytes)
      → All (λ c. c < 256) cs
      → url_decode read_hex (url_encode needs digits cs) ≡ (cs, true)
  unfolding url_encode url_decode
  url_decode-encode [] h = refl
  url_decode-encode (c ∷ cs) h = elim (Bool-cases (c == b' ')) [
    | inl e ↦ rw (e) (
        decode_blank (url_encode needs digits cs) cs (url_decode-encode cs h.1)
        ∙ ap (λ d. (d ∷ cs, true)) (sym ((==_iff c b' ').0 e)))
    | inr e ↦ elim (Bool-cases (c == b'%' || (c == b'+' || needs c))) [
      | inl f ↦
          rw (e, f) (decode_hex c (url_encode needs digits cs) cs h.0 (url_decode-encode cs h.1))
      | inr f ↦
          rw (e, f)
            (decode_plain c (url_encode needs digits cs) cs (ground (arith, f)) (ground (arith, f))
              (url_decode-encode cs h.1))
    ]
  ]
