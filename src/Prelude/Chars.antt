-- ===== src/Prelude/Chars.antt =====
-- ASCII characters, as <cctype> has them in the C locale; every other character is left as it is.
use gr4_control_plane.Prelude.Equality.{ltb, if◌then◌else◌, ◌==◌, nat_eq}
use Prim.Native.Nat.{ℕ, ◌+◌, ◌-◌, Ordering, compare}
use Prim.Native.Char.{Char, char, code, IsScalar}
use mathlib.Core.Path.{◌≡◌, refl}
use mathlib.Core.Bool.{Bool, not, ◌&&◌, ◌||◌}

pub IsScalar-below : (n : ℕ) → compare n 55296 ≡ Ordering.lt → IsScalar n
IsScalar-below n e = rw e tt

unfoldable char_if : (n : ℕ) (o : Ordering) → compare n 55296 ≡ o → Char → Char
char_if n Ordering.lt e c = char n (IsScalar-below n e)
char_if n Ordering.eq e c = c
char_if n Ordering.gt e c = c

-- The character with a code below the surrogates, or the given one.
unfoldable with_code : ℕ → Char → Char
unfolding char_if
with_code n c = char_if n (compare n 55296) refl c

abbrev pub between : ℕ → ℕ → ℕ → Bool
between low high n = not (ltb n low) && not (ltb high n)

unfoldable pub toupper : Char → Char
unfolding with_code
toupper c = if between 97 122 (code c) then with_code (code c - 32) c else c

unfoldable pub tolower : Char → Char
unfolding with_code
tolower c = if between 65 90 (code c) then with_code (code c + 32) c else c

abbrev pub isspace : Char → Bool
isspace c = code c == 32 || between 9 13 (code c)
