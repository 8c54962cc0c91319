-- ===== src/Http/Range/Search.antt =====
-- The two loops over bytes: a search, and a copy by `at`.
use t2h.Common.{
  ℕ, ◌+◌, ◌<◌, false, [], ◌∷◌, ◌++◌, none, some, ◌≡◌, refl, arith, Bytes, ◌==◌, length, drop,
  length-append, append_assoc, append-nil, All,
}
use t2h.Http.Range.{collect, slice, find_first_of}

abbrev pub Lacks : ℕ → Bytes → Type 0
Lacks b = All (λ c. (c == b) ≡ false)

-- The first such byte is found where it stands.
pub find_first_of-here :
    (b : ℕ) (xs ys : Bytes) → Lacks b xs → find_first_of b (xs ++ b ∷ ys) ≡ some (length xs)
unfolding find_first_of
find_first_of-here b [] ys a = ground arith
find_first_of-here b (x ∷ xs) ys a = ground (arith, find_first_of-here b xs ys a.1)

pub find_first_of-none : (b : ℕ) (xs : Bytes) → Lacks b xs → find_first_of b xs ≡ none
unfolding find_first_of
find_first_of-none b [] a = refl
find_first_of-none b (x ∷ xs) a = ground (arith, find_first_of-none b xs a.1)

drop-length : (xs ys : Bytes) → drop (length xs) (xs ++ ys) ≡ ys
drop-length [] ys = refl
drop-length (x ∷ xs) ys = drop-length xs ys

collect-length :
    (xs ys : Bytes) (first last : ℕ)
    → first + length xs ≡ last
    → collect (xs ++ ys) first last ≡ some xs
unfolding collect
collect-length [] [] first last e = ground arith
collect-length [] (y ∷ ys) first last e = ground arith
collect-length (x ∷ xs) ys first last e = ground (arith, collect-length xs ys (first + 1) last)

-- The bytes between two positions.
pub slice-append :
    (pre xs post : Bytes) (first last : ℕ)
    → first ≡ length pre
    → last ≡ length pre + length xs
    → slice (pre ++ (xs ++ post)) first last ≡ some xs
slice-append pre xs post first last e f =
    rw e
      (rw (drop-length pre (xs ++ post)) (collect-length xs post (length pre) last (omega arith)))

-- The bytes behind a separator, up to a position.
pub slice-behind :
    (pre : Bytes) (sep : ℕ) (xs post : Bytes) (last : ℕ)
    → last ≡ length pre + 1 + length xs
    → slice (pre ++ sep ∷ (xs ++ post)) (length pre + 1) last ≡ some xs
slice-behind pre sep xs post last e =
    let size = length-append pre (sep ∷ []) in
    rw (append_assoc pre (sep ∷ []) (xs ++ post)) at (
      slice-append (pre ++ sep ∷ []) xs post (length pre + 1) last (omega (arith, size))
        (omega (arith, size)))

pub slice_rest :
    (pre : Bytes) (sep : ℕ) (xs : Bytes)
    → slice (pre ++ sep ∷ xs) (length pre + 1) (length (pre ++ sep ∷ xs)) ≡ some xs
slice_rest pre sep xs = rw append-nil at (
    slice-behind pre sep xs [] (length (pre ++ sep ∷ xs))
      (omega (arith, length-append pre (sep ∷ xs))))

-- A loop that starts behind its end runs off the text.
pub collect-past : (xs : Bytes) (first last : ℕ) → last < first → collect xs first last ≡ none
unfolding collect
collect-past [] first last h = ground arith
collect-past (x ∷ xs) first last h = ground (arith, collect-past xs (first + 1) last)
