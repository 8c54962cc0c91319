-- ===== src/Http/Reply/Loops.antt =====
-- The loop that writes into the buffer by `at`, over a buffer of known parts.
use t2h.Common.{
  ℕ, zero, suc, ◌+◌, ◌-◌, ◌≤◌, ◌<◌, [], ◌∷◌, ◌++◌, none, some, ◌≡◌, ◌≢◌, refl, sym, ap, ◌∙◌, arith,
  Bytes, length, take, drop, replicate, take_of_le, length-take, take-append-drop, length-replicate,
  replicate-append, length-append, append-nil, append_assoc,
}
use t2h.Http.Reply.{resize, set_at, wrote, threw, ◌>>=◌, copy_from}

pub set_at-middle :
    (pre : Bytes) (x c : ℕ) (post : Bytes)
    → set_at (pre ++ x ∷ post) (length pre) c ≡ some (pre ++ c ∷ post)
unfolding set_at
set_at-middle [] x c post = refl
set_at-middle (y ∷ pre) x c post = rw (set_at-middle pre x c post, set_at)

pub set_at-out : (b : Bytes) (i c : ℕ) → length b ≤ i → set_at b i c ≡ none
unfolding set_at
set_at-out [] i c h = refl
set_at-out (x ∷ b) zero c h = absurd (omega arith)
set_at-out (x ∷ b) (suc i) c h = rw (set_at-out b i c (omega arith), set_at)

pub copy_from-cons :
    (c x : ℕ) (src pre rest : Bytes) (limit it : ℕ)
    → it ≡ length pre
    → it < limit
    → copy_from limit it (c ∷ src) (pre ++ x ∷ rest)
      ≡ copy_from limit (it + 1) src ((pre ++ c ∷ []) ++ rest)
unfolding copy_from
copy_from-cons c x src pre rest limit it e h =
    rw (append_assoc pre (c ∷ []) rest, e) (ground (arith, set_at-middle pre x c rest))

-- The loop replaces as many bytes as it has to write, and nothing else.
pub copy_from-middle :
    (src pre pad post : Bytes) (limit it : ℕ)
    → length pad ≡ length src
    → it ≡ length pre
    → it + length src ≤ limit
    → copy_from limit it src (pre ++ (pad ++ post)) ≡ wrote (pre ++ (src ++ post))
copy_from-middle [] pre [] post limit it e g h = unfold copy_from in refl
copy_from-middle [] pre (x ∷ pad) post limit it e g h = absurd (omega arith)
copy_from-middle (c ∷ src) pre [] post limit it e g h = absurd (omega arith)
copy_from-middle (c ∷ src) pre (x ∷ pad) post limit it e g h =
    copy_from-cons c x src pre (pad ++ post) limit it g (omega arith)
    ∙ copy_from-middle src (pre ++ c ∷ []) pad post limit (it + 1) (omega arith)
        (omega (arith, length-append pre (c ∷ []))) (omega arith)
    ∙ ap wrote (append_assoc pre (c ∷ []) (src ++ post))

-- With the buffer full, the first write throws.
pub copy_from-full :
    (src : Bytes) (limit it : ℕ) (b : Bytes)
    → src ≢ []
    → it < limit
    → length b ≤ it
    → copy_from limit it src b ≡ threw b
unfolding copy_from
copy_from-full [] limit it b ne h k = absurd (ne refl)
copy_from-full (c ∷ src) limit it b ne h k = ground (arith, set_at-out b it c k)

abbrev pub zeros : ℕ → Bytes
zeros n = replicate n 0

pub length-zeros : (n : ℕ) → length (zeros n) ≡ n
length-zeros n = length-replicate n 0

-- resize to something larger pads with zeros.
pub resize_grow : (b : Bytes) (k : ℕ) → resize b (length b + k) ≡ b ++ zeros k
unfolding resize
resize_grow b k =
    let e : length b + k - length b ≡ k = omega arith in
    rw (take_of_le (length b + k) b (omega arith), e)

pub copy_from-nil : (limit it : ℕ) (b : Bytes) → copy_from limit it [] b ≡ wrote b
unfolding copy_from
copy_from-nil limit it b = refl

pub copy_from-front :
    (src b : Bytes) (limit : ℕ)
    → length src ≤ length b
    → length src ≤ limit
    → copy_from limit 0 src b ≡ wrote (src ++ drop (length src) b)
copy_from-front src b limit h k = rw (take-append-drop (length src) b) at (
    copy_from-middle src [] (take (length src) b) (drop (length src) b) limit 0
      (omega (arith, length-take (length src) b)) refl (omega arith))

pub copy_from-end :
    (src b : Bytes) (limit : ℕ)
    → length b + length src ≤ limit
    → copy_from limit (length b) src (b ++ zeros (length src)) ≡ wrote (b ++ src)
copy_from-end src b limit h = simp append-nil at (
    copy_from-middle src b (zeros (length src)) [] limit (length b)
      (length-replicate (length src) 0) refl (omega arith))

pub pad_three : (i j k : ℕ) → zeros (i + (j + k)) ≡ zeros i ++ (zeros j ++ zeros k)
pad_three i j k = sym (ap (◌++◌ (zeros i)) (replicate-append j k 0) ∙ replicate-append i (j + k) 0)

-- Three pieces written one behind the other into the grown part.
pub copy_three :
    (b x y z : Bytes) (limit : ℕ)
    → length b + length x + length y + length z ≤ limit
    → (copy_from limit (length b) x (b ++ zeros (length x + (length y + length z))) >>= λ b1.
        copy_from limit (length b + length x) y b1 >>= λ b2.
        copy_from limit (length b + length x + length y) z b2)
      ≡ wrote (b ++ (x ++ (y ++ z)))
copy_three b x y z limit h =
    rw
      (
        pad_three (length x) (length y) (length z),
        first,
        ← append_assoc b x (zy ++ zz),
        second,
        ← append_assoc (b ++ x) y zz,
        ← append-nil (zeros (length z)),
        third,
      )
      (simp (append-nil, append_assoc))
  where
    zx : Bytes
    zx = zeros (length x)

    zy : Bytes
    zy = zeros (length y)

    zz : Bytes
    zz = zeros (length z)

    first : copy_from limit (length b) x (b ++ (zx ++ (zy ++ zz))) ≡ wrote (b ++ (x ++ (zy ++ zz)))
    first =
        copy_from-middle x b zx (zy ++ zz) limit (length b) (length-replicate (length x) 0) refl
          (omega arith)

    second :
        copy_from limit (length b + length x) y ((b ++ x) ++ (zy ++ zz))
        ≡ wrote ((b ++ x) ++ (y ++ zz))
    second =
        copy_from-middle y (b ++ x) zy zz limit (length b + length x)
          (length-replicate (length y) 0) (sym (length-append b x)) (omega arith)

    third :
        copy_from limit (length b + length x + length y) z (((b ++ x) ++ y) ++ (zz ++ []))
        ≡ wrote (((b ++ x) ++ y) ++ (z ++ []))
    third =
        copy_from-middle z ((b ++ x) ++ y) zz [] limit (length b + length x + length y)
          (length-replicate (length z) 0)
          (omega (arith, length-append (b ++ x) y, length-append b x)) (omega arith)
