-- ===== src/Json.antt =====
-- `nlohmann::json`, as far as the control plane uses its values, and what it computes with objects.
use gr4_control_plane.Prelude.{
  String, ◌==◌, string_eq, if◌then◌else◌, Bool, Option, none, some, List, [], ◌∷◌, ◌≡◌, refl, ap,
  arith,
}
use gr4_control_plane.Prelude.Int.{ℤ}
use gr4_control_plane.Prelude.Dict.{Dict, lookup, insert, lookup-insert}

-- `nlohmann::json`. An integer is one whether it is kept with a sign or without; `binary` is every
-- other kind of value.
mutual
  pub data Json (Double : Type 0) : Type 0 where
    null binary : Json Double
    bool : Bool → Json Double
    number : ℤ → Json Double
    float : Double → Json Double
    string : String → Json Double
    object : Members Double → Json Double
    array : Elements Double → Json Double

  pub data Members (Double : Type 0) : Type 0 where
    no_members : Members Double
    member : String → Json Double → Members Double → Members Double

  pub data Elements (Double : Type 0) : Type 0 where
    no_elements : Elements Double
    element : Json Double → Elements Double → Elements Double

abbrev pub to_dict : {D : Type 0} → Members D → Dict String (Json D)
to_dict no_members = []
to_dict (member key item items) = (key, item) ∷ to_dict items

abbrev pub of_dict : {D : Type 0} → Dict String (Json D) → Members D
of_dict [] = no_members
of_dict ((key, item) ∷ items) = member key item (of_dict items)

abbrev pub to_list : {D : Type 0} → Elements D → List (Json D)
to_list no_elements = []
to_list (element item items) = item ∷ to_list items

abbrev pub of_list : {D : Type 0} → List (Json D) → Elements D
of_list [] = no_elements
of_list (item ∷ items) = element item (of_list items)

pub to_dict-of_dict : {D : Type 0} (d : Dict String (Json D)) → to_dict (of_dict d) ≡ d
to_dict-of_dict [] = refl
to_dict-of_dict ((k, v) ∷ d) = ap (λ e. (k, v) ∷ e) (to_dict-of_dict d)

pub of_dict-to_dict : {D : Type 0} (items : Members D) → of_dict (to_dict items) ≡ items
of_dict-to_dict no_members = refl
of_dict-to_dict (member key item items) = ap (λ z. member key item z) (of_dict-to_dict items)

pub to_list-of_list : {D : Type 0} (items : List (Json D)) → to_list (of_list items) ≡ items
to_list-of_list [] = refl
to_list-of_list (x ∷ xs) = ap (λ ys. x ∷ ys) (to_list-of_list xs)

-- `value[key] = *item` if there is an item.
unfoldable pub put :
    {D A : Type 0} → String → (A → Json D) → Option A → Dict String (Json D) → Dict String (Json D)
put key make none value = value
put key make (some item) value = insert key (make item) value

abbrev pub over : {A B : Type 0} → (A → B) → Option A → Option B → Option B
over make none other = other
over make (some item) other = some (make item)

abbrev pub at_key : {A B : Type 0} → String → String → (A → B) → Option A → Option B → Option B
at_key j key make o other = if j == key then over make o other else other

pub lookup-put :
    {D A : Type 0} (j key : String) (make : A → Json D) (o : Option A) (d : Dict String (Json D))
    → lookup j (put key make o d) ≡ at_key j key make o (lookup j d)
unfolding put
lookup-put j key make none d = ground arith
lookup-put j key make (some item) d = lookup-insert j key (make item) d
