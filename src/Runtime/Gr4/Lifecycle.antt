-- ===== src/Runtime/Gr4/Lifecycle.antt =====
-- `prepare`, `start`, `stop`, `destroy` and the destructor of `Gr4RuntimeManager`
-- (src/runtime/gr4_runtime_manager.cpp).
use gr4_control_plane.Prelude.{ℕ, String, string_eq, none, List, [], ◌∷◌}
use gr4_control_plane.Prelude.Dict
use gr4_control_plane.Prelude.Dict.{Dict}
use gr4_control_plane.Errors.{Result, ok, err, M, ◌>>◌}
use gr4_control_plane.Pmt.{Pmt, PmtWriter}
use gr4_control_plane.Domain.Session.{Session, SessionState}
use gr4_control_plane.Runtime.Allocator.{SocketAnswer}
use gr4_control_plane.Runtime.Gr4.{
  GnuRadio, SessionRuntimeResources, Shared, Gr4RuntimeManager, Locked,
}
use gr4_control_plane.Runtime.Gr4.Steps.{on_created, on_found}
use gr4_control_plane.Runtime.Gr4.Preparation.{prepare_locked}
use gr4_control_plane.Runtime.Gr4.Running.{start_locked, stop_locked, destroy_locked}

module _ {p : Pmt} (w : PmtWriter p) (g : GnuRadio p) (os : ℕ → SocketAnswer)
    (plugin_directories : List String) where
  abbrev pub forget : {A : Type 0} → Result A × Locked g → Result (Unit {0}) × Locked g
  forget (ok _, st) = (ok tt, st)
  forget (err e, st) = (err e, st)

  unfoldable pub prepare : Session → M (Gr4RuntimeManager g) (Unit {0})
  unfolding on_created
  prepare session =
      on_created g session.id (λ st. forget (prepare_locked w g os plugin_directories session st))

  unfoldable pub start : Session → M (Gr4RuntimeManager g) (Unit {0})
  unfolding on_created
  start session = on_created g session.id (start_locked w g os plugin_directories session)

module _ {p : Pmt} (g : GnuRadio p) where
  unfoldable pub stop : Session → M (Gr4RuntimeManager g) (Unit {0})
  unfolding on_found
  stop session = on_found g session.id (stop_locked g session)

  unfoldable pub destroy : Session → M (Gr4RuntimeManager g) (Unit {0})
  unfolding on_found
  destroy session = do
    on_found g session.id (destroy_locked g session)
    λ rm. (ok tt, record rm { resources = Dict.erase session.id rm.resources })

  abbrev session_of : String → Session
  session_of id = record {
    id = id;
    name = "";
    grc_content = "";
    scheduler_alias = none;
    state = SessionState.stopped;
    last_error = none;
    created_at = 0;
    updated_at = 0;
  }

  -- The loop of the destructor, which ignores what `stop_locked` throws.
  unfoldable pub stop_each : List (String × SessionRuntimeResources g) → Shared g → Shared g
  stop_each [] shared = shared
  stop_each ((_, r) ∷ rest) shared =
      stop_each rest
        (stop_locked g (session_of r.session_id) (record { mine = r; shared = shared })).1.shared

  -- The destructor.
  unfoldable pub shut_down : Gr4RuntimeManager g → Gr4RuntimeManager g
  unfolding stop_each
  shut_down rm = record { shared = stop_each rm.resources rm.shared; resources = [] }
