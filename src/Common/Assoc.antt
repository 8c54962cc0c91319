-- ===== src/Common/Assoc.antt =====
-- std::map and boost::unordered_map as association lists, over a test `eqb` of the keys: `find`,
-- `erase` by key and the assignment `m[k] = v`.

use t2h.Common.Logic.{Bool-cases, if◌then◌else◌}
use mathlib.Core.Path.{◌≡◌, refl, sym}
use mathlib.Core.Logic.{◌↔◌, ◌≢◌, inl, inr}
use mathlib.Core.Bool.{Bool, true}
use mathlib.Core.Option.{Option, none, some}
use mathlib.Core.List.{List, [], ◌∷◌}
use Prim.Native.Nat.{ℕ, suc}
use native.Mathlib.Omega.{arith}

module _ {ℓ} {K V : Type ℓ} (eqb : K → K → Bool) where
  unfoldable pub find : K → List (K × V) → Option V
  find k [] = none
  find k ((j, v) ∷ m) = if eqb j k then some v else find k m

  unfoldable pub erase : K → List (K × V) → List (K × V)
  erase k [] = []
  erase k ((j, v) ∷ m) = let rest = erase k m in if eqb j k then rest else (j, v) ∷ rest

  unfoldable pub assign : K → V → List (K × V) → List (K × V)
  assign k v [] = (k, v) ∷ []
  assign k v ((j, w) ∷ m) = let rest = assign k v m in if eqb j k then (j, v) ∷ m else (j, w) ∷ rest

  unfoldable pub size : List (K × V) → ℕ
  size [] = 0
  size (p ∷ m) = suc (size m)

  module _ (eqb_iff : (a b : K) → (eqb a b ≡ true) ↔ (a ≡ b)) where
    pub find-assign_same : (k : K) (v : V) (m : List (K × V)) → find k (assign k v m) ≡ some v
    unfolding find assign
    find-assign_same k v [] = ground (arith, eqb_iff k k)
    find-assign_same k v ((j, w) ∷ m) = ground (arith, find-assign_same k v m)

    pub find-assign_other :
        (k j : K) (v : V) (m : List (K × V)) → k ≢ j → find j (assign k v m) ≡ find j m
    unfolding find assign
    find-assign_other k j v [] n = ground (arith, eqb_iff k j)
    find-assign_other k j v ((i, w) ∷ m) n =
        ground (arith, find-assign_other k j v m n, eqb_iff i j, eqb_iff i k)

    pub find-erase_same : (k : K) (m : List (K × V)) → find k (erase k m) ≡ none
    unfolding find erase
    find-erase_same k [] = refl
    find-erase_same k ((j, v) ∷ m) = ground (arith, find-erase_same k m)

    pub find-erase_other : (k j : K) (m : List (K × V)) → k ≢ j → find j (erase k m) ≡ find j m
    unfolding find erase
    find-erase_other k j [] n = refl
    find-erase_other k j ((i, w) ∷ m) n =
        ground (arith, find-erase_other k j m n, eqb_iff i j, eqb_iff i k)

    pub find-assign :
        (k : K) (v : V) (m : List (K × V)) (j : K)
        → find j (assign k v m) ≡ (if eqb k j then some v else find j m)
    find-assign k v m j = elim (Bool-cases (eqb k j)) [
      | inl e ↦ rw (e, sym ((eqb_iff k j).0 e)) (find-assign_same k v m)
      | inr e ↦ rw e (find-assign_other k j v m (λ d. ground (arith, e, (eqb_iff k j).1 d)))
    ]

    pub find-erase :
        (k : K) (m : List (K × V)) (j : K)
        → find j (erase k m) ≡ (if eqb k j then none else find j m)
    find-erase k m j = elim (Bool-cases (eqb k j)) [
      | inl e ↦ rw (e, sym ((eqb_iff k j).0 e)) (find-erase_same k m)
      | inr e ↦ rw e (find-erase_other k j m (λ d. ground (arith, e, (eqb_iff k j).1 d)))
    ]
