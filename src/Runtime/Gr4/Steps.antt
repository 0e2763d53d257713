-- ===== src/Runtime/Gr4/Steps.antt =====
-- The steps of a section that holds the mutex of a session's resources.
use gr4_control_plane.Prelude.Dict
use gr4_control_plane.Prelude.{Option, none, some, String, ◌<>◌, string_eq, []}
use gr4_control_plane.Errors.{Result, Exception, std_exception, ok, M}
use gr4_control_plane.Pmt.{Pmt}
use gr4_control_plane.Domain.Session.{Session}
use gr4_control_plane.Runtime.Stub.{release_all}
use gr4_control_plane.Runtime.Gr4.{
  Gr4RuntimeManager, new_resources, GnuRadio, SessionRuntimeResources, Locked,
}

-- `runtime_error(session, phase, detail)`
unfoldable pub runtime_failure : Session → String → String → Exception
runtime_failure session phase detail =
    std_exception ("session " <> session.id <> " " <> phase <> " failed: " <> detail)

module _ {p : Pmt} (g : GnuRadio p) where
  -- A call of GNU Radio, and a change of the session's resources.
  abbrev pub call : {A : Type 0} → M g.State A → M (Locked g) A
  call m st =
      let (r, gnuradio) = m st.shared.gnuradio in
      (r, record st { shared = record st.shared { gnuradio = gnuradio } })

  abbrev pub modify :
      (SessionRuntimeResources g → SessionRuntimeResources g) → M (Locked g) (Unit {0})
  modify f st = (ok tt, record st { mine = f st.mine })

  unfoldable pub release_stream_bindings_locked : M (Locked g) (Unit {0})
  release_stream_bindings_locked st = (
    ok tt,
    record {
      mine = record st.mine { stream_bindings = [] };
      shared = record st.shared {
        stream_allocator = release_all st.mine.stream_bindings st.shared.stream_allocator;
      };
    },
  )

  -- A locked section on resources of the map.
  abbrev pub left : {A : Type 0} → String → Result A × Locked g → M (Gr4RuntimeManager g) A
  left id (r, st) rm =
      (r, record { shared = st.shared; resources = Dict.insert id st.mine rm.resources })

  abbrev pub on :
      {A : Type 0} → String → SessionRuntimeResources g → M (Locked g) A → M (Gr4RuntimeManager g) A
  on id r m rm = left id (m (record { mine = r; shared = rm.shared })) rm

  abbrev pub or_new : String → Option (SessionRuntimeResources g) → SessionRuntimeResources g
  or_new id none = new_resources g id
  or_new id (some r) = r

  -- `get_or_create_resources`, and the section.
  unfoldable pub on_created : {A : Type 0} → String → M (Locked g) A → M (Gr4RuntimeManager g) A
  on_created id m rm = on id (or_new id (Dict.lookup id rm.resources)) m rm

  -- `find_resources`, and the section if they are found.
  unfoldable pub on_found : String → M (Locked g) (Unit {0}) → M (Gr4RuntimeManager g) (Unit {0})
  on_found id m rm = elim (Dict.lookup id rm.resources) [
    | none ↦ (ok tt, rm)
    | some r ↦ on id r m rm
  ]
