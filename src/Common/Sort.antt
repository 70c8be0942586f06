-- ===== src/Common/Sort.antt =====
-- `Array.prototype.sort` is stable: it is modelled by stable insertion, and meets the properties that
-- the language documents of it.
use Prim.Native.Nat.{ℕ, ◌≤◌}
use mathlib.Core.Path.{◌≡◌, refl}
use mathlib.Core.Logic.{inl, inr}
use mathlib.Core.Bool.{Bool, true, false}
use mathlib.Core.List.{List, [], ◌∷◌, Perm}
use mathlib.Core.List.Perm
use native.Mathlib.Omega.{arith}
use ai.Common.Tests.{if◌then◌else◌, Bool-cases, leb, ◌==◌}
use ai.Common.Lists.{keep, count, All, All-imp}

module _ {ℓ} {A : Type ℓ} (le : A → A → Bool) where
  -- Before the first element that is not smaller.
  unfoldable pub place : A → List A → List A
  place x [] = x ∷ []
  place x (y ∷ ys) = if le x y then x ∷ y ∷ ys else y ∷ place x ys

  unfoldable pub sort_by : List A → List A
  unfolding place
  sort_by [] = []
  sort_by (x ∷ xs) = place x (sort_by xs)

  place-perm : (x : A) (ys : List A) → Perm (place x ys) (x ∷ ys)
  unfolding place
  place-perm x [] = Perm.refl _
  place-perm x (y ∷ ys) = elim (Bool-cases (le x y)) [
    | inl e ↦ rw e (Perm.refl _)
    | inr e ↦ rw e (Perm.trans (Perm.cons y (place-perm x ys)) (Perm.swap x y ys))
  ]

  -- Sorting rearranges.
  pub sort_by-perm : (xs : List A) → Perm (sort_by xs) xs
  unfolding sort_by
  sort_by-perm [] = Perm.refl _
  sort_by-perm (x ∷ xs) = Perm.trans (place-perm x (sort_by xs)) (Perm.cons x (sort_by-perm xs))

  place-All {κ} : (P : A → Type κ) (x : A) (ys : List A) → P x → All P ys → All P (place x ys)
  unfolding place
  place-All P x [] p a = (p, tt)
  place-All P x (y ∷ ys) p a = elim (Bool-cases (le x y)) [
    | inl e ↦ rw e (p, a)
    | inr e ↦ rw e (a.0, place-All P x ys p a.1)
  ]

  pub sort_by-All {κ} : (P : A → Type κ) (xs : List A) → All P xs → All P (sort_by xs)
  unfolding sort_by
  sort_by-All P [] a = tt
  sort_by-All P (x ∷ xs) a = place-All P x (sort_by xs) a.0 (sort_by-All P xs a.1)

  place-count : (p : A → Bool) (x : A) (ys : List A) → count p (place x ys) ≡ count p (x ∷ ys)
  unfolding place
  place-count p x [] = refl
  place-count p x (y ∷ ys) = elim (Bool-cases (le x y)) [
    | inl e ↦ rw e
    | inr e ↦ rw e (omega (arith, place-count p x ys))
  ]

  pub sort_by-count : (p : A → Bool) (xs : List A) → count p (sort_by xs) ≡ count p xs
  unfolding sort_by
  sort_by-count p [] = refl
  sort_by-count p (x ∷ xs) = omega (arith, place-count p x (sort_by xs), sort_by-count p xs)

abbrev pub Sorted {ℓ} : {A : Type ℓ} → (A → A → Bool) → List A → Type 0
Sorted le [] = Unit {0}
Sorted le (x ∷ xs) = All (λ y. le x y ≡ true) xs × Sorted le xs

-- By a rank: the ranks never fall, and elements of one rank keep their order.
module _ {ℓ} {A : Type ℓ} (rank : A → ℕ) where
  abbrev pub by_rank : A → A → Bool
  by_rank x y = leb (rank x) (rank y)

  abbrev pub Ranked : List A → Type 0
  Ranked [] = Unit {0}
  Ranked (x ∷ xs) = All (λ y. rank x ≤ rank y) xs × Ranked xs

  place-Ranked : (x : A) (ys : List A) → Ranked ys → Ranked (place by_rank x ys)
  unfolding place
  place-Ranked x [] r = (tt, tt)
  place-Ranked x (y ∷ ys) r = elim (Bool-cases (leb (rank x) (rank y))) [
    | inl e ↦ rw e ((ground arith, All-imp _ _ ys (λ z h. ground arith) r.0), r)
    | inr e ↦ rw e (place-All by_rank _ x ys (ground arith) r.0, place-Ranked x ys r.1)
  ]

  pub sort_by-Ranked : (xs : List A) → Ranked (sort_by by_rank xs)
  unfolding sort_by
  sort_by-Ranked [] = tt
  sort_by-Ranked (x ∷ xs) = place-Ranked x (sort_by by_rank xs) (sort_by-Ranked xs)

  place-keep :
      (k : ℕ) (x : A) (ys : List A)
      → keep (λ y. rank y == k) (place by_rank x ys) ≡ keep (λ y. rank y == k) (x ∷ ys)
  unfolding place
  place-keep k x [] = refl
  place-keep k x (y ∷ ys) = elim (Bool-cases (leb (rank x) (rank y))) [
    | inl e ↦ rw e
    | inr e ↦ rw e (ground (arith, place-keep k x ys))
  ]

  pub sort_by-keep :
      (k : ℕ) (xs : List A)
      → keep (λ y. rank y == k) (sort_by by_rank xs) ≡ keep (λ y. rank y == k) xs
  unfolding sort_by
  sort_by-keep k [] = refl
  sort_by-keep k (x ∷ xs) = ground (arith, place-keep k x (sort_by by_rank xs), sort_by-keep k xs)

-- By a total preorder: every element precedes all that follow it.
module _ {ℓ} {A : Type ℓ} (le : A → A → Bool) (total : (x y : A) → le x y ≡ false → le y x ≡ true)
    (trans : (x y z : A) → le x y ≡ true → le y z ≡ true → le x z ≡ true) where
  place-Sorted : (x : A) (ys : List A) → Sorted le ys → Sorted le (place le x ys)
  unfolding place
  place-Sorted x [] r = (tt, tt)
  place-Sorted x (y ∷ ys) r = elim (Bool-cases (le x y)) [
    | inl e ↦ rw e ((e, All-imp _ _ ys (λ z h. trans x y z e h) r.0), r)
    | inr e ↦ rw e (place-All le _ x ys (total x y e) r.0, place-Sorted x ys r.1)
  ]

  pub sort_by-Sorted : (xs : List A) → Sorted le (sort_by le xs)
  unfolding sort_by
  sort_by-Sorted [] = tt
  sort_by-Sorted (x ∷ xs) = place-Sorted x (sort_by le xs) (sort_by-Sorted xs)
