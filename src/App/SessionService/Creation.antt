-- ===== src/App/SessionService/Creation.antt =====
-- `SessionService::create`.
use gr4_control_plane.Prelude.{
  ℕ, suc, ◌<◌, String, ◌≡◌, ◌≢◌, refl, string_eq, contains, false, Option, none, some, List, [],
  ◌∷◌, length, arith, Option-cases, inl, inr,
}
use gr4_control_plane.Prelude.Dict
use gr4_control_plane.Prelude.Dict.{Dict, lookup-insert, lookup-erase, lookup, erase}
use gr4_control_plane.Errors.{ok, err, validation_error}
use gr4_control_plane.Domain.Session.{Session}
use gr4_control_plane.Storage
use gr4_control_plane.Storage.{Repository}
use gr4_control_plane.Storage.Laws.{get-create}
use gr4_control_plane.App.SessionService.{Service, idle}
use gr4_control_plane.App.SessionService.Sections.{create, fresh_id, new_session}
use gr4_control_plane.App.SessionService.Stores.{Puts}
use gr4_control_plane.App.SessionService.Invariant.{fresh_id-absent}

abbrev pub Distinct : List String → Type 0
Distinct [] = Unit
Distinct (d ∷ ds) = (contains ds d ≡ false) × Distinct ds

length-erase-le : (k : String) (r : Repository) → length (erase k r) < suc (length r)
unfolding erase
length-erase-le k [] = omega arith
length-erase-le k ((j, s) ∷ r) = ground (arith, length-erase-le k r)

length-erase :
    (k : String) (s : Session) (r : Repository)
    → lookup k r ≡ some s
    → length (erase k r) < length r
unfolding erase lookup
length-erase k s [] h = cc
length-erase k s ((j, x) ∷ r) h = ground (arith, length-erase-le k r, length-erase k s r)

fresh_id-erase :
    (d : String) (ds : List String) (r : Repository)
    → contains ds d ≡ false
    → fresh_id ds (erase d r) ≡ fresh_id ds r
unfolding fresh_id Storage.get
fresh_id-erase d [] r h = refl
fresh_id-erase d (x ∷ ds) r h = ground (arith, fresh_id-erase d ds r, lookup-erase x d r)

-- Among more distinct draws than there are sessions, one is free.
pub fresh_id-total :
    (draws : List String) (r : Repository)
    → Distinct draws
    → length r < length draws
    → (id : String) × (fresh_id draws r ≡ some id)
unfolding fresh_id Storage.get
fresh_id-total [] r h lt = absurd (omega arith)
fresh_id-total (d ∷ ds) r (fresh, h) lt = elim (Option-cases (lookup d r)) [
  | inl e ↦ (d, ground arith)
  | inr (s, e) ↦
      let (id, q) = fresh_id-total ds (erase d r) h (omega (arith, length-erase d s r e)) in
      (id, ground (arith, fresh_id-erase d ds r fresh))
]

module _ (name grc : String) (scheduler_alias : Option String) (draws : List String) (now : ℕ)
    (sv : Service) where
  -- A graph without content is refused, and nothing is stored.
  pub create_empty :
      grc ≡ ""
      → create name grc scheduler_alias draws now sv
        ≡ some (err (validation_error "grc_content must not be empty"), sv)
  unfolding create
  create_empty e = ground arith

  create-fresh :
      (id : String)
      → grc ≢ ""
      → fresh_id draws sv.repository ≡ some id
      → let s : Session = new_session id name grc scheduler_alias now in
        (later : Service) × (create name grc scheduler_alias draws now sv ≡ some (ok s, later))
        × Puts id s idle sv later
  unfolding create
  create-fresh id e f = (
    record {
      repository = (Storage.create s sv.repository).1;
      phases = Dict.insert id idle sv.phases;
    },
    ground (arith, get-create s sv.repository id, fresh_id-absent draws sv.repository id f),
    record {
      session_at = λ j.
          ground (arith, get-create s sv.repository j, fresh_id-absent draws sv.repository id f);
      phase_at = λ j. lookup-insert j id idle sv.phases;
    },
  )
    where
      s : Session
      s = new_session id name grc scheduler_alias now

  -- Given content and more distinct draws than there are sessions, the loop ends, and the new session
  -- stands, stopped and idle, under an id that was free; every other session stays as it was.
  pub create_lem :
      grc ≢ ""
      → Distinct draws
      → length sv.repository < length draws
      → (id : String) × (later : Service) × (Storage.get id sv.repository ≡ none)
        × (create name grc scheduler_alias draws now sv
            ≡ some (ok (new_session id name grc scheduler_alias now), later))
        × Puts id (new_session id name grc scheduler_alias now) idle sv later
  create_lem e h lt =
      let (id, f) = fresh_id-total draws sv.repository h lt in
      let (later, result, put) = create-fresh id e f in
      (id, later, fresh_id-absent draws sv.repository id f, result, put)
