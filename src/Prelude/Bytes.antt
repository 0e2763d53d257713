-- ===== src/Prelude/Bytes.antt =====
-- `std::string` as bytes of UTF-8, where the source counts or tests them.
use gr4_control_plane.Prelude.Equality.{ltb, if◌then◌else◌, ◌==◌, nat_eq}
use Prim.Native.Nat.{ℕ, ◌+◌}
use Prim.Native.String.{String}
use Prim.Native.Char.{Char, code}
use mathlib.Core.Bool.{Bool, true, false, not, ◌&&◌}
use mathlib.Core.Option.{Option, none, some}

-- `std::string::size`
unfoldable pub size : String → ℕ
size String.[] = 0
size (String.◌∷◌ c s) =
    let rest = size s in
    if ltb (code c) 128
    then 1 + rest
    else if ltb (code c) 2048
    then 2 + rest
    else if ltb (code c) 65536
    then 3 + rest
    else 4 + rest

-- `starts_with`, with the rest.
unfoldable pub strip_prefix : String → String → Option String
strip_prefix String.[] s = some s
strip_prefix (String.◌∷◌ c p) String.[] = none
strip_prefix (String.◌∷◌ c p) (String.◌∷◌ d s) = if code c == code d then strip_prefix p s else none

abbrev pub starts_with : String → String → Bool
starts_with p s = elim (strip_prefix p s) [ none ↦ false | some _ ↦ true ]

-- What stands before and after the last place of an ASCII character.
unfoldable pub split_last : ℕ → String → Option (String × String)
split_last k String.[] = none
split_last k (String.◌∷◌ c s) = elim (split_last k s) [
  | some (before, after) ↦ some (String.◌∷◌ c before, after)
  | none ↦ if code c == k then some ("", s) else none
]

abbrev pub is_digit : Char → Bool
is_digit c = not (ltb (code c) 48) && ltb (code c) 58
