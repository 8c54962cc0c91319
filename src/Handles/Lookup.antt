-- ===== src/Handles/Lookup.antt =====
-- handles_manager: which handle a number gives after the calls made so far.
use t2h.Common.{
  length, erase, find-assign, Bool-cases, ◌≤◌, sym, ap, ℕ, suc, ◌+◌, ◌<◌, ◌==◌, ==_iff, List, [],
  ◌∷◌, none, some, find, assign, size, find-assign_same, find-assign_other, find-erase_same,
  find-erase_other, ◌≡◌, ◌≢◌, refl, ◌∙◌, Option-cases, inl, inr, arith,
}
use t2h.Handles.{registr_new_handle, unregistr_handle, get_handle}

module _ {H : Type 0} where
  -- A handle that was registered is found under its number, and every other number gives what it
  -- gave before.
  pub registr_new_handle_lem :
      (m : List (ℕ × H)) (h : H) (other : ℕ)
      → (registr_new_handle m h).1 ≢ other
      → (get_handle (registr_new_handle m h).0 (registr_new_handle m h).1 ≡ some h)
        × (get_handle (registr_new_handle m h).0 other ≡ get_handle m other)
  unfolding registr_new_handle get_handle
  registr_new_handle_lem m h other d = (
    find-assign_same ◌==◌ ==_iff (size ◌==◌ m + 1) h m,
    find-assign_other ◌==◌ ==_iff (size ◌==◌ m + 1) other h m d,
  )

  -- Unregistering gives the handle that the number stood for, if any, and leaves the number without
  -- one and every other number with what it had.
  pub unregistr_handle_lem :
      (m : List (ℕ × H)) (id other : ℕ)
      → id ≢ other
      → ((unregistr_handle m id).1 ≡ get_handle m id)
        × ((get_handle (unregistr_handle m id).0 id ≡ none)
            × (get_handle (unregistr_handle m id).0 other ≡ get_handle m other))
  unfolding unregistr_handle get_handle
  unregistr_handle_lem m id other d = elim (Option-cases (find ◌==◌ id m)) [
    | inl e ↦ rw (e, unregistr_handle) (refl, (e, refl))
    | inr (h, e) ↦
        rw (e, unregistr_handle)
          (refl, (find-erase_same ◌==◌ ==_iff id m, find-erase_other ◌==◌ ==_iff id other m d))
  ]

  size-assign :
      (k : ℕ) (h : H) (m : List (ℕ × H))
      → find ◌==◌ k m ≡ none
      → size ◌==◌ (assign ◌==◌ k h m) ≡ suc (size ◌==◌ m)
  unfolding size assign find
  size-assign k h [] e = refl
  size-assign k h ((j, v) ∷ m) e = ground (arith, size-assign k h m)

  -- Handles that only come are numbered one after the other, so no number is used twice.
  unfoldable pub IsDense : List (ℕ × H) → Type 0
  IsDense m = (k : ℕ) → size ◌==◌ m < k → find ◌==◌ k m ≡ none

  -- While nothing was unregistered a new handle takes a number that no handle has.
  pub registr_new_handle-IsDense :
      (m : List (ℕ × H)) (h : H)
      → IsDense m
      → (get_handle m (registr_new_handle m h).1 ≡ none) × IsDense (registr_new_handle m h).0
  unfolding registr_new_handle get_handle IsDense
  registr_new_handle-IsDense m h d = (
    d (size ◌==◌ m + 1) (omega arith),
    λ k l. find-assign_other ◌==◌ ==_iff (size ◌==◌ m + 1) k h m (apart k l) ∙ d k (less k l),
  )
    where
      grown : size ◌==◌ (assign ◌==◌ (size ◌==◌ m + 1) h m) ≡ suc (size ◌==◌ m)
      grown = size-assign (size ◌==◌ m + 1) h m (d (size ◌==◌ m + 1) (omega arith))

      apart : (k : ℕ) → size ◌==◌ (assign ◌==◌ (size ◌==◌ m + 1) h m) < k → size ◌==◌ m + 1 ≢ k
      apart k l e = omega (arith, grown)

      less : (k : ℕ) → size ◌==◌ (assign ◌==◌ (size ◌==◌ m + 1) h m) < k → size ◌==◌ m < k
      less k l = omega (arith, grown)

  -- No number stands twice.
  abbrev IsUnique : List (ℕ × H) → Type 0
  IsUnique [] = Unit {0}
  IsUnique ((j, v) ∷ m) = (find ◌==◌ j m ≡ none) × IsUnique m

  assign-IsUnique :
      (k : ℕ) (h : H) (m : List (ℕ × H))
      → find ◌==◌ k m ≡ none
      → IsUnique m
      → IsUnique (assign ◌==◌ k h m)
  unfolding find assign
  assign-IsUnique k h [] e u = (refl, tt)
  assign-IsUnique k h ((j, v) ∷ m) e (f, u) = elim (Bool-cases (j == k)) [
    | inl g ↦ absurd (ground (arith, e, g))
    | inr g ↦
        let e' : find ◌==◌ k m ≡ none = ground (arith, e, g) in
        rw (g, assign)
          (
            find-assign_other ◌==◌ ==_iff k j h m (λ x. ground (arith, x, g)) ∙ f,
            assign-IsUnique k h m e' u,
          )
  ]

  erase_absent :
      (k : ℕ) (m : List (ℕ × H)) → find ◌==◌ k m ≡ none → size ◌==◌ (erase ◌==◌ k m) ≡ size ◌==◌ m
  unfolding size erase find
  erase_absent k [] e = refl
  erase_absent k ((j, v) ∷ m) e = ground (arith, erase_absent k m)

  size-erase :
      (k : ℕ) (h : H) (m : List (ℕ × H))
      → IsUnique m
      → find ◌==◌ k m ≡ some h
      → suc (size ◌==◌ (erase ◌==◌ k m)) ≡ size ◌==◌ m
  unfolding size erase find
  size-erase k h [] u e = absurd (ground (arith, e))
  size-erase k h ((j, v) ∷ m) (f, u) e = elim (Bool-cases (j == k)) [
    | inl g ↦
        let i : j ≡ k = (==_iff j k).0 g in
        rw (g, erase) (ap suc (erase_absent k m (ap (λ x. find ◌==◌ x m) (sym i) ∙ f)))
    | inr g ↦
        let e' : find ◌==◌ k m ≡ some h = ground (arith, e, g) in
        rw (g, erase) (ap suc (size-erase k h m u e'))
  ]

  -- The table after these handles were registered, the last of them first.
  unfoldable pub registered : List H → List (ℕ × H)
  unfolding registr_new_handle
  registered [] = []
  registered (h ∷ hs) = (registr_new_handle (registered hs) h).0

  registered-IsDense : (hs : List H) → IsDense (registered hs)
  unfolding registered IsDense find
  registered-IsDense [] = λ k l. refl
  registered-IsDense (h ∷ hs) =
      (registr_new_handle-IsDense (registered hs) h (registered-IsDense hs)).1

  size-registered : (hs : List H) → size ◌==◌ (registered hs) ≡ length hs
  unfolding registered registr_new_handle IsDense size
  size-registered [] = refl
  size-registered (h ∷ hs) =
      size-assign (size ◌==◌ (registered hs) + 1) h (registered hs)
        (registered-IsDense hs (size ◌==◌ (registered hs) + 1) (omega arith))
      ∙ ap suc (size-registered hs)

  registered-IsUnique : (hs : List H) → IsUnique (registered hs)
  unfolding registered registr_new_handle IsDense
  registered-IsUnique [] = tt
  registered-IsUnique (h ∷ hs) =
      assign-IsUnique (size ◌==◌ (registered hs) + 1) h (registered hs)
        (registered-IsDense hs (size ◌==◌ (registered hs) + 1) (omega arith))
        (registered-IsUnique hs)

  -- Every number from 1 to the count is taken.
  taken :
      (hs : List H) (id : ℕ)
      → 0 < id
      → id ≤ length hs
      → (h : H) × (find ◌==◌ id (registered hs) ≡ some h)
  unfolding registered registr_new_handle
  taken [] id a b = absurd (omega (arith, a, b))
  taken (h ∷ hs) id a b = elim (Bool-cases (size ◌==◌ (registered hs) + 1 == id)) [
    | inl g ↦ (
      h,
      find-assign ◌==◌ ==_iff (size ◌==◌ (registered hs) + 1) h (registered hs) id ∙ rw g refl,
    )
    | inr g ↦
        let l : id ≤ length hs = ground (arith, b, g, size-registered hs) in
        let (k, e) = taken hs id a l in
        (k, find-assign ◌==◌ ==_iff (size ◌==◌ (registered hs) + 1) h (registered hs) id ∙ rw g e)
  ]

  last : (hs : List H) (b : H) → find ◌==◌ (suc (length hs)) (registered (b ∷ hs)) ≡ some b
  unfolding registered registr_new_handle
  last hs b =
      let n : size ◌==◌ (registered hs) + 1 ≡ suc (length hs) = omega (arith, size-registered hs) in
      rw n (find-assign_same ◌==◌ ==_iff (suc (length hs)) b (registered hs))

  -- After any handles were registered, the last of them b, each has a number from 1 on. Taking out one
  -- that is not the last gives that handle and leaves b under the last number; the next handle gets
  -- this number as well, and b is no longer found under it.
  pub registr-unregistr_clash :
      (hs : List H) (b h : H) (id : ℕ)
      → 0 < id
      → id ≤ length hs
      → let (m, removed) = unregistr_handle (registered (b ∷ hs)) id in
        let (after, number) = registr_new_handle m h in
        ((removed ≡ get_handle (registered (b ∷ hs)) id) × ((x : H) × (removed ≡ some x)))
        × ((get_handle m (suc (length hs)) ≡ some b)
            × ((number ≡ suc (length hs)) × (get_handle after (suc (length hs)) ≡ some h)))
  unfolding unregistr_handle registr_new_handle get_handle
  registr-unregistr_clash hs b h id a l =
      let m = registered (b ∷ hs) in
      let (x, e) = taken (b ∷ hs) id a (omega (arith, l)) in
      let s : suc (size ◌==◌ (erase ◌==◌ id m)) ≡ suc (length hs) =
        size-erase id x m (registered-IsUnique (b ∷ hs)) e ∙ size-registered (b ∷ hs) in
      let n : size ◌==◌ (erase ◌==◌ id m) + 1 ≡ suc (length hs) = omega (arith, s) in
      rw (e, unregistr_handle)
        (rw n (
          (refl, (x, refl)),
          (
            find-erase_other ◌==◌ ==_iff id (suc (length hs)) m (λ g. omega (arith, g, l))
                ∙ last hs b,
            (refl, find-assign_same ◌==◌ ==_iff (suc (length hs)) h (erase ◌==◌ id m)),
          ),
        ))
