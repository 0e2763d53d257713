-- ===== src/Prelude/Sorting.antt =====
-- What `std::sort` gives: an ordered rearrangement. It is computed here by insertion.
use gr4_control_plane.Prelude.Equality.{Eq, ◌==◌, if◌then◌else◌, Bool-cases}
use gr4_control_plane.Prelude.Lists.{All}
use mathlib.Core.Path.{◌≡◌}
use mathlib.Core.Logic.{inl, inr}
use mathlib.Core.Bool.{Bool, true, false}
use mathlib.Core.List.{List, [], ◌∷◌, ◌++◌, Perm}
use Prim.Native.Nat.{ℕ, suc, ◌+◌}
use native.Mathlib.Omega.{arith}
use mathlib.Core.List.Perm

module _ {ℓ} {A : Type ℓ} (less : A → A → Bool) where
  unfoldable pub insert_sorted : A → List A → List A
  insert_sorted a [] = a ∷ []
  insert_sorted a (x ∷ xs) = if less x a then x ∷ insert_sorted a xs else a ∷ x ∷ xs

  unfoldable pub sort : List A → List A
  unfolding insert_sorted
  sort [] = []
  sort (x ∷ xs) = insert_sorted x (sort xs)

  -- Nothing stands before what is less.
  abbrev pub IsSorted : List A → Type 0
  IsSorted [] = Unit
  IsSorted (x ∷ xs) = All (λ y. less y x ≡ false) xs × IsSorted xs

  insert_sorted-perm : (a : A) (xs : List A) → Perm (insert_sorted a xs) (a ∷ xs)
  unfolding insert_sorted
  insert_sorted-perm a [] = Perm.refl (a ∷ [])
  insert_sorted-perm a (x ∷ xs) = elim (Bool-cases (less x a)) [
    | inl e ↦ rw e (Perm.trans (Perm.cons x (insert_sorted-perm a xs)) (Perm.swap a x xs))
    | inr e ↦ rw e (Perm.refl (a ∷ x ∷ xs))
  ]

  pub sort-perm : (xs : List A) → Perm (sort xs) xs
  unfolding sort
  sort-perm [] = Perm.refl []
  sort-perm (x ∷ xs) = Perm.trans (insert_sorted-perm x (sort xs)) (Perm.cons x (sort-perm xs))

  module _ (asymm : (x y : A) → less x y ≡ true → less y x ≡ false)
      (trans : (x y z : A) → less y x ≡ false → less z y ≡ false → less z x ≡ false) where
    All-insert_sorted :
        (b a : A) (xs : List A)
        → less a b ≡ false
        → All (λ y. less y b ≡ false) xs
        → All (λ y. less y b ≡ false) (insert_sorted a xs)
    unfolding insert_sorted
    All-insert_sorted b a [] h k = (h, tt)
    All-insert_sorted b a (x ∷ xs) h (p, k) = elim (Bool-cases (less x a)) [
      | inl e ↦ rw e (p, All-insert_sorted b a xs h k)
      | inr e ↦ rw e (h, (p, k))
    ]

    All-trans :
        (a x : A) (xs : List A)
        → less x a ≡ false
        → All (λ y. less y x ≡ false) xs
        → All (λ y. less y a ≡ false) xs
    All-trans a x [] h k = tt
    All-trans a x (y ∷ xs) h (p, k) = (trans a x y h p, All-trans a x xs h k)

    insert_sorted-IsSorted : (a : A) (xs : List A) → IsSorted xs → IsSorted (insert_sorted a xs)
    unfolding insert_sorted
    insert_sorted-IsSorted a [] h = (tt, tt)
    insert_sorted-IsSorted a (x ∷ xs) (p, h) = elim (Bool-cases (less x a)) [
      | inl e ↦ rw e (All-insert_sorted x a xs (asymm x a e) p, insert_sorted-IsSorted a xs h)
      | inr e ↦ rw e ((e, All-trans a x xs e p), (p, h))
    ]

    pub sort-IsSorted : (xs : List A) → IsSorted (sort xs)
    unfolding sort
    sort-IsSorted [] = tt
    sort-IsSorted (x ∷ xs) = insert_sorted-IsSorted x (sort xs) (sort-IsSorted xs)

module _ {ℓ} {A : Type ℓ} (p : A → Bool) where
  abbrev pub count_if : List A → ℕ
  count_if [] = 0
  count_if (x ∷ xs) = let rest = count_if xs in if p x then suc rest else rest

  pub count_if-append : (xs ys : List A) → count_if (xs ++ ys) ≡ count_if xs + count_if ys
  count_if-append [] ys = omega arith
  count_if-append (x ∷ xs) ys = ground (arith, count_if-append xs ys)

  module _ (less : A → A → Bool) where
    count_if-insert_sorted :
        (a : A) (xs : List A)
        → count_if (insert_sorted less a xs) ≡ (if p a then suc (count_if xs) else count_if xs)
    unfolding insert_sorted
    count_if-insert_sorted a [] = ground arith
    count_if-insert_sorted a (x ∷ xs) = ground (arith, count_if-insert_sorted a xs)

    pub count_if-sort : (xs : List A) → count_if (sort less xs) ≡ count_if xs
    unfolding sort
    count_if-sort [] = ground arith
    count_if-sort (x ∷ xs) =
        ground (arith, count_if-insert_sorted x (sort less xs), count_if-sort xs)

module _ {ℓ κ} {A : Type ℓ} (P : A → Type κ) (less : A → A → Bool) where
  All-insert : (a : A) (xs : List A) → P a → All P xs → All P (insert_sorted less a xs)
  unfolding insert_sorted
  All-insert a [] p h = (p, tt)
  All-insert a (x ∷ xs) p (q, h) = elim (Bool-cases (less x a)) [
    | inl e ↦ rw e (q, All-insert a xs p h)
    | inr e ↦ rw e (p, (q, h))
  ]

  insert-All : (a : A) (xs : List A) → All P (insert_sorted less a xs) → P a × All P xs
  unfolding insert_sorted
  insert-All a [] h = h
  insert-All a (x ∷ xs) h = past (less x a) a x xs (insert_sorted less a xs) (insert-All a xs) h
    where
      past :
          (b : Bool) (a x : A) (xs ys : List A)
          → (All P ys → P a × All P xs)
          → All P (if b then x ∷ ys else a ∷ x ∷ xs)
          → P a × All P (x ∷ xs)
      past true a x xs ys f (q, h) = let both = f h in (both.0, (q, both.1))
      past false a x xs ys f h = h

  -- What holds of every element holds after the sort, and before it.
  pub All-sort : (xs : List A) → All P xs → All P (sort less xs)
  unfolding sort
  All-sort [] h = tt
  All-sort (x ∷ xs) (p, h) = All-insert x (sort less xs) p (All-sort xs h)

  pub sort-All : (xs : List A) → All P (sort less xs) → All P xs
  unfolding sort
  sort-All [] h = tt
  sort-All (x ∷ xs) h = let both = insert-All x (sort less xs) h in (both.0, sort-All xs both.1)

-- `erase` of what `std::unique` leaves over: of equal neighbours the first stays.
unfoldable pub unique {ℓ} : {A : Type ℓ} ⦃e : Eq A⦄ → List A → List A
unique [] = []
unique (x ∷ []) = x ∷ []
unique (x ∷ y ∷ xs) = let rest = unique (y ∷ xs) in if x == y then rest else x ∷ rest
