-- ===== src/App/SessionService/Listing.antt =====
-- `SessionService::list`, oldest first.
use gr4_control_plane.Prelude.{
  ◌≡◌, ◌==◌, nat_eq, if◌then◌else◌, ltb, Bool, true, false, List, arith,
}
use gr4_control_plane.Prelude.TextOrder.{str_ltb, str_ltb_asymm, str_ltb_trans}
use gr4_control_plane.Prelude.Sorting.{sort, IsSorted, sort-perm, sort-IsSorted}
use mathlib.Core.List.{Perm}
use gr4_control_plane.Domain.Session.{Session}
use gr4_control_plane.Storage
use gr4_control_plane.App.SessionService.{Service}

unfoldable pub is_before : Session → Session → Bool
is_before left right =
    if left.created_at == right.created_at
    then str_ltb left.id right.id
    else ltb left.created_at right.created_at

unfoldable pub list : Service → List Session
list sv = sort is_before (Storage.list sv.repository)

is_before_asymm : (x y : Session) → is_before x y ≡ true → is_before y x ≡ false
unfolding is_before
is_before_asymm x y h = ground (arith, str_ltb_asymm x.id y.id)

is_before_trans :
    (x y z : Session) → is_before y x ≡ false → is_before z y ≡ false → is_before z x ≡ false
unfolding is_before
is_before_trans x y z h k = ground (arith, str_ltb_trans x.id y.id z.id)

-- The answer is the stored sessions, each as often as it is stored, by creation time and then id.
list_lem :
    (sv : Service) → IsSorted is_before (list sv) × Perm (list sv) (Storage.list sv.repository)
unfolding list
list_lem sv = (sort-IsSorted is_before is_before_asymm is_before_trans _, sort-perm is_before _)
