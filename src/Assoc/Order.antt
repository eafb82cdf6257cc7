-- ===== src/Assoc/Order.antt =====
-- Maps in the order of their keys, as `std::map` holds them, and what is found in them.
use yaraft.Prelude.{
  ℕ, ◌≤◌, ◌<◌, ◌≡◌, refl, List, [], ◌∷◌, none, some, ◌==◌, if◌then◌else◌, dec_lt, ℕ_discrete, arith,
}
use yaraft.Assoc.{find, insert, erase}

module _ {ℓ} {A : Type ℓ} where
  abbrev pub IsAbove : ℕ → List (ℕ × A) → Type 0
  IsAbove k [] = Unit {0}
  IsAbove k ((j, w) ∷ m) = (k < j) × IsAbove k m

  abbrev pub IsOrdered : List (ℕ × A) → Type 0
  IsOrdered [] = Unit {0}
  IsOrdered ((j, w) ∷ m) = IsAbove j m × IsOrdered m

  find_above : (k j : ℕ) (m : List (ℕ × A)) → IsAbove k m → j ≤ k → find j m ≡ none
  unfolding find
  find_above k j [] a h = refl
  find_above k j ((i, w) ∷ m) a h = ground (arith, find_above k j m a.1 h, a.0)

  pub find-insert :
      (k j : ℕ) (v : A) (m : List (ℕ × A))
      → find j (insert k v m) ≡ (if j == k then some v else find j m)
  unfolding find insert
  find-insert k j v [] = ground arith
  find-insert k j v ((i, w) ∷ m) = ground (arith, find-insert k j v m)

  pub find-erase :
      (k j : ℕ) (m : List (ℕ × A))
      → IsOrdered m
      → find j (erase k m) ≡ (if j == k then none else find j m)
  unfolding find erase
  find-erase k j [] o = ground arith
  find-erase k j ((i, w) ∷ m) o = ground (arith, find-erase k j m o.1, find_above i j m o.0)

  insert-IsAbove :
      (i k : ℕ) (v : A) (m : List (ℕ × A)) → i < k → IsAbove i m → IsAbove i (insert k v m)
  unfolding insert
  insert-IsAbove i k v [] h a = (h, tt)
  insert-IsAbove i k v ((j, w) ∷ m) h a = ground (arith, insert-IsAbove i k v m h a.1, a.0, a.1, h)

  IsAbove-trans : (i j : ℕ) (m : List (ℕ × A)) → i < j → IsAbove j m → IsAbove i m
  IsAbove-trans i j [] h a = tt
  IsAbove-trans i j ((k, w) ∷ m) h a = (omega (arith, a.0), IsAbove-trans i j m h a.1)

  pub insert-IsOrdered : (k : ℕ) (v : A) (m : List (ℕ × A)) → IsOrdered m → IsOrdered (insert k v m)
  unfolding insert
  insert-IsOrdered k v [] o = (tt, tt)
  insert-IsOrdered k v ((j, w) ∷ m) o = elim (ℕ_discrete j k) [
    | yes same ↦ ground (arith, same, o.0, o.1)
    | no other ↦ elim (dec_lt k j) [
      | yes before ↦ ground (arith, IsAbove-trans k j m before o.0, o.0, o.1)
      | no behind ↦
          ground (arith, insert-IsAbove j k v m (omega arith) o.0, insert-IsOrdered k v m o.1)
    ]
  ]

  erase-IsAbove : (i k : ℕ) (m : List (ℕ × A)) → IsAbove i m → IsAbove i (erase k m)
  unfolding erase
  erase-IsAbove i k [] a = tt
  erase-IsAbove i k ((j, w) ∷ m) a = ground (arith, erase-IsAbove i k m a.1, a.0, a.1)

  pub erase-IsOrdered : (k : ℕ) (m : List (ℕ × A)) → IsOrdered m → IsOrdered (erase k m)
  unfolding erase
  erase-IsOrdered k [] o = tt
  erase-IsOrdered k ((j, w) ∷ m) o =
      ground (arith, erase-IsAbove j k m o.0, erase-IsOrdered k m o.1, o.1)
