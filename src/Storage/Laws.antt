-- ===== src/Storage/Laws.antt =====
-- The repository refines a finite map from ids to sessions: each method gives the outcome and the
-- effect of the map's operation, whatever the order of the entries.
use gr4_control_plane.Prelude.{
  String, ◌<>◌, ◌≡◌, refl, ◌⊎◌, ◌↔◌, inl, inr, Bool, true, false, Option, none, some, List, [], ◌∷◌,
  ◌==◌, string_eq, if◌then◌else◌, arith,
}
use gr4_control_plane.Prelude.Dict.{
  lookup, insert, erase, values, lookup-insert, lookup-erase, lookup-nil,
}
use gr4_control_plane.Errors.{Result, ok, err, std_exception}
use gr4_control_plane.Domain.Session.{Session}
use gr4_control_plane.Storage.{Repository, create, get, update, remove, list}

-- What `create` leaves under each id.
pub get-create :
    (s : Session) (r : Repository) (j : String)
    → get s.id r ≡ none
    → (get j (create s r).1 ≡ (if j == s.id then some s else get j r)) × ((create s r).0 ≡ ok tt)
unfolding create get
get-create s r j h = ground (arith, lookup-insert j s.id s r)

-- What `update` leaves under each id.
pub get-update :
    (s old : Session) (r : Repository) (j : String)
    → get s.id r ≡ some old
    → (get j (update s r).1 ≡ (if j == s.id then some s else get j r)) × ((update s r).0 ≡ ok tt)
unfolding update get
get-update s old r j h = ground (arith, lookup-insert j s.id s r)

-- What `remove` leaves under each id.
pub get-remove :
    (id : String) (r : Repository) (j : String)
    → get j (remove id r).1 ≡ (if j == id then none else get j r)
unfolding remove get
get-remove id r j = lookup-erase j id r

pub remove-present :
    (id : String) (s : Session) (r : Repository) → get id r ≡ some s → (remove id r).0 ≡ true
unfolding remove get
remove-present id s r h = ground arith

pub get-nil : (id : String) → get id [] ≡ none
unfolding get
get-nil id = lookup-nil id

pub data Request : Type 0 where
  creates updates : Session → Request
  gets removes : String → Request

pub data Reply : Type 0 where
  done : Result (Unit {0}) → Reply
  found : Option Session → Reply
  removed : Bool → Reply

pub serve : Request → Repository → Reply × Repository
serve (creates s) r = let (o, r') = create s r in (done o, r')
serve (updates s) r = let (o, r') = update s r in (done o, r')
serve (gets id) r = (found (get id r), r)
serve (removes id) r = let (o, r') = remove id r in (removed o, r')

-- The abstract view: a map is a function.
abbrev pub Table : Type 0
Table = String → Option Session

abbrev assign : String → Option Session → Table → Table
assign id o t j = if j == id then o else t j

abbrev present : Option Session → Bool
present none = false
present (some _) = true

pub serve_spec : Request → Table → Reply × Table
serve_spec (creates s) t =
    if present (t s.id)
    then (done (err (std_exception ("session already exists: " <> s.id))), t)
    else (done (ok tt), assign s.id (some s) t)
serve_spec (updates s) t =
    if present (t s.id)
    then (done (ok tt), assign s.id (some s) t)
    else (done (err (std_exception ("unknown session: " <> s.id))), t)
serve_spec (gets id) t = (found (t id), t)
serve_spec (removes id) t = (removed (present (t id)), assign id none t)

abbrev pub Refines : Repository → Table → Type 0
Refines r t = (id : String) → get id r ≡ t id

serve-reply :
    (q : Request) (r : Repository) (t : Table) → Refines r t → (serve q r).0 ≡ (serve_spec q t).0
unfolding serve serve_spec create update remove get
serve-reply (creates s) r t h = ground (arith, h s.id)
serve-reply (updates s) r t h = ground (arith, h s.id)
serve-reply (gets id) r t h = ground (arith, h id)
serve-reply (removes id) r t h = ground (arith, h id)

serve-Refines :
    (q : Request) (r : Repository) (t : Table)
    → Refines r t
    → Refines (serve q r).1 (serve_spec q t).1
unfolding serve serve_spec create update remove get
serve-Refines (creates s) r t h j = ground (arith, h s.id, h j, lookup-insert j s.id s r)
serve-Refines (updates s) r t h j = ground (arith, h s.id, h j, lookup-insert j s.id s r)
serve-Refines (gets id) r t h j = h j
serve-Refines (removes id) r t h j = ground (arith, h id, h j, lookup-erase j id r)

pub serve_all : List Request → Repository → List Reply
serve_all [] r = []
serve_all (q ∷ qs) r = (serve q r).0 ∷ serve_all qs (serve q r).1

pub serve_all_spec : List Request → Table → List Reply
serve_all_spec [] t = []
serve_all_spec (q ∷ qs) t = (serve_spec q t).0 ∷ serve_all_spec qs (serve_spec q t).1

-- Every sequence of `create`, `get`, `update` and `remove` is answered as by the map that the
-- repository stands for, errors included.
pub serve_all-serve_all_spec :
    (qs : List Request) (r : Repository) (t : Table)
    → Refines r t
    → serve_all qs r ≡ serve_all_spec qs t
unfolding serve_all serve_all_spec
serve_all-serve_all_spec [] r t h = refl
serve_all-serve_all_spec (q ∷ qs) r t h = cc (
  serve-reply q r t h,
  serve_all-serve_all_spec qs (serve q r).1 (serve_spec q t).1 (serve-Refines q r t h),
)

-- Each entry stands once, and under its session's id.
abbrev pub IsKeyed : Repository → Type 0
IsKeyed [] = Unit {0}
IsKeyed ((k, s) ∷ r) = (s.id ≡ k) × (lookup k r ≡ none) × IsKeyed r

abbrev pub Listed : Session → List Session → Type 0
Listed s [] = ⊥
Listed s (x ∷ xs) = (s ≡ x) ⊎ Listed s xs

insert-IsKeyed : (s : Session) (r : Repository) → IsKeyed r → IsKeyed (insert s.id s r)
unfolding insert
insert-IsKeyed s [] h = (refl, lookup-nil s.id, tt)
insert-IsKeyed s ((k, _) ∷ r) h = ground (arith, insert-IsKeyed s r h.2, lookup-insert k s.id s r)

erase-IsKeyed : (id : String) (r : Repository) → IsKeyed r → IsKeyed (erase id r)
unfolding erase
erase-IsKeyed id [] h = tt
erase-IsKeyed id ((k, _) ∷ r) h = ground (arith, erase-IsKeyed id r h.2, lookup-erase k id r)

-- Every method keeps the repository keyed: each session once, under its own id.
serve-IsKeyed : (q : Request) (r : Repository) → IsKeyed r → IsKeyed (serve q r).1
unfolding serve create update remove
serve-IsKeyed (creates s) r h = ground (arith, insert-IsKeyed s r h)
serve-IsKeyed (updates s) r h = ground (arith, insert-IsKeyed s r h)
serve-IsKeyed (gets id) r h = h
serve-IsKeyed (removes id) r h = erase-IsKeyed id r h

pub Listed-get :
    (s : Session) (r : Repository) → IsKeyed r → Listed s (list r) → get s.id r ≡ some s
unfolding list get values lookup
Listed-get s [] h m = absurd m
Listed-get s ((k, x) ∷ r) h (inl e) = ground arith
Listed-get s ((k, x) ∷ r) h (inr m) = ground (arith, Listed-get s r h.2 m)

pub get-Listed :
    (s : Session) (id : String) (r : Repository) → get id r ≡ some s → Listed s (list r)
unfolding list get values lookup
get-Listed s id [] h = cc
get-Listed s id ((k, x) ∷ r) h = elim (string_eq.dec id k) [
  | yes e ↦ inl (ground arith)
  | no n ↦ inr (get-Listed s id r (ground arith))
]

-- On a keyed repository, `list` holds a session exactly if `get` finds it under its own id.
list-iff-get :
    (s : Session) (r : Repository) → IsKeyed r → Listed s (list r) ↔ (get s.id r ≡ some s)
list-iff-get s r h = (Listed-get s r h, get-Listed s s.id r)
