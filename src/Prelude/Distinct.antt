-- ===== src/Prelude/Distinct.antt =====
-- Texts that are sorted, and each kept once: `std::sort`, `std::unique` and `erase`.
use gr4_control_plane.Prelude.Equality.{string_eq, ◌==◌, if◌then◌else◌, contains, Bool-cases}
use gr4_control_plane.Prelude.Lists.{All}
use gr4_control_plane.Prelude.Sorting.{sort, insert_sorted, unique, IsSorted, sort-IsSorted}
use gr4_control_plane.Prelude.TextOrder.{str_ltb, str_ltb_asymm, str_ltb_trans, str_ltb_connex}
use native.Mathlib.Omega.{arith}
use mathlib.Core.Path.{◌≡◌, refl, ap, ◌∙◌}
use mathlib.Core.Logic.{◌≢◌, inl, inr}
use mathlib.Core.Bool.{Bool, true, false, ◌||◌}
use mathlib.Core.List.{List, [], ◌∷◌}
use Prim.Native.String.{String}

abbrev pub sort_unique : List String → List String
sort_unique ids = unique (sort str_ltb ids)

-- Each is less than all that follow.
abbrev pub Increasing : List String → Type 0
Increasing [] = Unit {0}
Increasing (x ∷ xs) = All (λ y. str_ltb x y ≡ true) xs × Increasing xs

contains-insert_sorted :
    (a j : String) (xs : List String)
    → contains (insert_sorted str_ltb a xs) j ≡ (j == a || contains xs j)
unfolding insert_sorted
contains-insert_sorted a j [] = refl
contains-insert_sorted a j (x ∷ xs) = ground (arith, contains-insert_sorted a j xs)

contains-sort : (j : String) (xs : List String) → contains (sort str_ltb xs) j ≡ contains xs j
unfolding sort
contains-sort j [] = refl
contains-sort j (x ∷ xs) =
    contains-insert_sorted x j (sort str_ltb xs) ∙ ap (λ b. j == x || b) (contains-sort j xs)

contains-unique : (j : String) (xs : List String) → contains (unique xs) j ≡ contains xs j
unfolding unique
contains-unique j [] = refl
contains-unique j (x ∷ []) = refl
contains-unique j (x ∷ y ∷ xs) = ground (arith, contains-unique j (y ∷ xs))

pub contains-sort_unique :
    (j : String) (xs : List String) → contains (sort_unique xs) j ≡ contains xs j
contains-sort_unique j xs = contains-unique j (sort str_ltb xs) ∙ contains-sort j xs

All-unique : (P : String → Type 0) (xs : List String) → All P xs → All P (unique xs)
unfolding unique
All-unique P [] h = tt
All-unique P (x ∷ []) h = h
All-unique P (x ∷ y ∷ xs) (p, h) = by_test (x == y) (All-unique P (y ∷ xs) h)
  where
    by_test :
        (b : Bool)
        → All P (unique (y ∷ xs))
        → All P (if b then unique (y ∷ xs) else x ∷ unique (y ∷ xs))
    by_test true k = k
    by_test false k = (p, k)

less_of : (x y : String) → str_ltb y x ≡ false → x ≢ y → str_ltb x y ≡ true
less_of x y h n = elim (Bool-cases (str_ltb x y)) [
  | inl e ↦ e
  | inr e ↦ absurd (n (str_ltb_connex x y e h))
]

less_later : (x y z : String) → str_ltb x y ≡ true → str_ltb z y ≡ false → str_ltb x z ≡ true
less_later x y z h k = elim (Bool-cases (str_ltb x z)) [
  | inl e ↦ e
  | inr e ↦ let no_less = str_ltb_trans y z x k e in cc
]

All-later :
    (x y : String) (xs : List String)
    → str_ltb x y ≡ true
    → All (λ z. str_ltb z y ≡ false) xs
    → All (λ z. str_ltb x z ≡ true) xs
All-later x y [] h k = tt
All-later x y (z ∷ xs) h (p, k) = (less_later x y z h p, All-later x y xs h k)

differ_of_test : (x y : String) → (x == y) ≡ false → x ≢ y
differ_of_test x y h = ground arith

unique-Increasing : (xs : List String) → IsSorted str_ltb xs → Increasing (unique xs)
unfolding unique
unique-Increasing [] h = tt
unique-Increasing (x ∷ []) h = (tt, tt)
unique-Increasing (x ∷ y ∷ xs) ((p, ps), (q, h)) =
    by_test (x == y) (unique-Increasing (y ∷ xs) (q, h)) λ differ.
      let less = less_of x y p (differ_of_test x y differ) in
      All-unique (λ z. str_ltb x z ≡ true) (y ∷ xs) (less, All-later x y xs less q)
  where
    by_test :
        (b : Bool)
        → Increasing (unique (y ∷ xs))
        → (b ≡ false → All (λ z. str_ltb x z ≡ true) (unique (y ∷ xs)))
        → Increasing (if b then unique (y ∷ xs) else x ∷ unique (y ∷ xs))
    by_test true k f = k
    by_test false k f = (f refl, k)

pub sort_unique-Increasing : (xs : List String) → Increasing (sort_unique xs)
sort_unique-Increasing xs =
    unique-Increasing (sort str_ltb xs) (sort-IsSorted str_ltb str_ltb_asymm str_ltb_trans xs)
