-- ===== src/Prelude/Decimal.antt =====
-- A number as `std::format` and `std::to_string` write it.
use Prim.Native.Nat.{ℕ, zero, suc, ◌/◌, ◌%◌}
use Prim.Native.String.{String, ◌++◌}
use mathlib.Core.List.{List, [], ◌∷◌}
use gr4_control_plane.Prelude.Equality.{ltb, if◌then◌else◌}

abbrev digit_or : List String → ℕ → String
digit_or [] n = ""
digit_or (d ∷ ds) zero = d
digit_or (d ∷ ds) (suc n) = digit_or ds n

digit : ℕ → String
digit = digit_or ("0" ∷ "1" ∷ "2" ∷ "3" ∷ "4" ∷ "5" ∷ "6" ∷ "7" ∷ "8" ∷ "9" ∷ [])

-- A number has no more digits than it counts, and one.
digits_within : ℕ → ℕ → String
digits_within zero n = ""
digits_within (suc fuel) n =
    let front = digits_within fuel (n / 10) in if ltb n 10 then digit n else front ++ digit (n % 10)

unfoldable pub decimal : ℕ → String
unfolding digits_within digit
decimal n = digits_within (suc n) n
