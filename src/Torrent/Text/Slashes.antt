-- ===== src/Torrent/Text/Slashes.antt =====
-- replace_slashes: when it escapes every slash of a path.
use t2h.Common.{
  ℕ, Bool, true, false, not, ◌&&◌, [], ◌∷◌, Bytes, if◌then◌else◌, ◌≡◌, refl, ap, Bool-cases, inl,
  inr, arith,
}
use t2h.Torrent.Text.{is_slash, replace_slashes}

-- Every slash escaped.
abbrev pub escape_slashes : Bytes → Bytes
escape_slashes [] = []
escape_slashes (c ∷ path) =
    if is_slash c then b'\\' ∷ b'\\' ∷ escape_slashes path else c ∷ escape_slashes path

-- No slash follows another.
abbrev pub is_apart : Bytes → Bool
is_apart [] = true
is_apart (c ∷ []) = true
is_apart (c ∷ d ∷ path) = not (is_slash c && is_slash d) && is_apart (d ∷ path)

apart_tail : (c : ℕ) (path : Bytes) → is_apart (c ∷ path) ≡ true → is_apart path ≡ true
apart_tail c [] h = refl
apart_tail c (d ∷ path) h = ground (arith, h)

one_slash :
    (c d : ℕ) (path : Bytes)
    → not (is_slash c && is_slash d) ≡ true
    → replace_slashes path ≡ escape_slashes path
    → replace_slashes (d ∷ path) ≡ escape_slashes (d ∷ path)
    → replace_slashes (c ∷ d ∷ path) ≡ escape_slashes (c ∷ d ∷ path)
unfolding replace_slashes
one_slash c d path h e f = elim (Bool-cases (is_slash c)) [
  | inl g ↦
      let k : is_slash d ≡ false = ground (arith, g, h) in
      rw (g, k) (ap (λ rest. b'\\' ∷ b'\\' ∷ d ∷ rest) e)
  | inr g ↦ rw g (ap (◌∷◌ c) f)
]

-- A path without two slashes in a row is escaped: each slash of it becomes two backslashes, and nothing
-- else changes.
pub replace_slashes_lem :
    (path : Bytes) → is_apart path ≡ true → replace_slashes path ≡ escape_slashes path
unfolding replace_slashes
replace_slashes_lem [] h = refl
replace_slashes_lem (c ∷ []) h = refl
replace_slashes_lem (c ∷ d ∷ path) h =
    let t : is_apart (d ∷ path) ≡ true = apart_tail c (d ∷ path) h in
    one_slash c d path (ground (arith, h)) (replace_slashes_lem path (apart_tail d path t))
      (replace_slashes_lem (d ∷ path) t)
