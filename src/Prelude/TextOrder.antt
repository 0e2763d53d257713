-- ===== src/Prelude/TextOrder.antt =====
-- `operator<` on `std::string`: by the first difference. UTF-8 orders its code points as its bytes.
use gr4_control_plane.Prelude.Equality.{ltb, if◌then◌else◌}
use Prim.Native.Char.{Char, code}
use Prim.Native.String.{String}
use native.Mathlib.Omega.{arith}
use mathlib.Core.Path.{◌≡◌, refl, ap, ◌∙◌}
use text.Mathlib.TextEquality.{Char-path}
use mathlib.Core.Bool.{Bool, true, false}

unfoldable pub str_ltb : String → String → Bool
str_ltb String.[] String.[] = false
str_ltb String.[] (String.◌∷◌ d t) = true
str_ltb (String.◌∷◌ c s) String.[] = false
str_ltb (String.◌∷◌ c s) (String.◌∷◌ d t) =
    if ltb (code c) (code d) then true else if ltb (code d) (code c) then false else str_ltb s t

pub str_ltb_asymm : (s t : String) → str_ltb s t ≡ true → str_ltb t s ≡ false
unfolding str_ltb
str_ltb_asymm String.[] String.[] h = cc
str_ltb_asymm String.[] (String.◌∷◌ d t) h = refl
str_ltb_asymm (String.◌∷◌ c s) String.[] h = cc
str_ltb_asymm (String.◌∷◌ c s) (String.◌∷◌ d t) h = ground (arith, str_ltb_asymm s t)

-- `not less` is transitive, so the order is a strict weak one.
pub str_ltb_trans :
    (s t u : String) → str_ltb t s ≡ false → str_ltb u t ≡ false → str_ltb u s ≡ false
unfolding str_ltb
str_ltb_trans String.[] t String.[] h k = refl
str_ltb_trans String.[] String.[] (String.◌∷◌ e u) h k = refl
str_ltb_trans String.[] (String.◌∷◌ d t) (String.◌∷◌ e u) h k = refl
str_ltb_trans (String.◌∷◌ c s) String.[] u h k = cc
str_ltb_trans (String.◌∷◌ c s) (String.◌∷◌ d t) String.[] h k = cc
str_ltb_trans (String.◌∷◌ c s) (String.◌∷◌ d t) (String.◌∷◌ e u) h k =
    ground (arith, str_ltb_trans s t u)

same_head : (c d : Char) (s t : String) → code c ≡ code d → s ≡ t → String.◌∷◌ c s ≡ String.◌∷◌ d t
same_head c d s t h k = ap (λ e. String.◌∷◌ e s) (Char-path c d h) ∙ ap (String.◌∷◌ d) k

-- Of two texts neither of which is less than the other, there is one.
pub str_ltb_connex : (s t : String) → str_ltb s t ≡ false → str_ltb t s ≡ false → s ≡ t
unfolding str_ltb
str_ltb_connex String.[] String.[] h k = refl
str_ltb_connex String.[] (String.◌∷◌ d t) h k = cc
str_ltb_connex (String.◌∷◌ c s) String.[] h k = cc
str_ltb_connex (String.◌∷◌ c s) (String.◌∷◌ d t) h k =
    let same_code : code c ≡ code d = ground arith in
    same_head c d s t same_code (str_ltb_connex s t (ground arith) (ground arith))
