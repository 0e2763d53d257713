-- ===== src/Runtime/Gr4/Ports.antt =====
-- The ports that `Gr4RuntimeManager` holds for its sessions are allocated, and no two streams share one.
-- An allocated port may be held by no session: a failed preparation can leave some.
use gr4_control_plane.Prelude.{
  ℕ, ◌≤◌, String, ◌≡◌, string_eq, nat_eq, Option, none, some, List, arith, Option-cases, Bool-cases,
  inl, inr,
}
use gr4_control_plane.Prelude.Dict
use gr4_control_plane.Prelude.Dict.{Dict, NodupKeys, insert-NodupKeys, erase-NodupKeys}
use gr4_control_plane.Errors.{Result, ok, err, M, continue, continue_post}
use gr4_control_plane.Pmt.{Pmt, PmtWriter}
use gr4_control_plane.Domain.Session.{Session}
use gr4_control_plane.Domain.Stream.{RuntimeStreamBinding}
use gr4_control_plane.Runtime.Allocator.{SocketAnswer}
use gr4_control_plane.Runtime.Allocator.Ports.{count}
use gr4_control_plane.Runtime.Held.{held, held-erase, held-erase_absent, held-insert, held-erase-le}
use gr4_control_plane.Runtime.Gr4.{
  GnuRadio, Execution, SessionRuntimeResources, Gr4RuntimeManager, Locked, new_resources,
  is_stopping,
}
use gr4_control_plane.Runtime.Gr4.Steps.{release_stream_bindings_locked}
use gr4_control_plane.Runtime.Gr4.Preparation.{prepare_locked}
use gr4_control_plane.Runtime.Gr4.Running.{
  run_execution, run_prepared, start_locked, stop_failed, halt, finish_stop, stop_execution,
  stop_found, stop_locked, clear_execution, destroy_locked,
}
use gr4_control_plane.Runtime.Gr4.Bound.{Within, Left, release-Within}
use gr4_control_plane.Runtime.Gr4.Steps.{on, on_created, on_found}
use gr4_control_plane.Runtime.Gr4.Lifecycle.{prepare, start, stop, destroy, forget}
use gr4_control_plane.Runtime.Gr4.Preparing.{prepare_locked-Left}

module _ {p : Pmt} (g : GnuRadio p) where
  module _ (w : PmtWriter p) (os : ℕ → SocketAnswer) (plugin_directories : List String) where
    run_prepared-keeps :
        (session : Session) (execution : Execution g) (st : Locked g)
        → ((run_prepared w g os plugin_directories session execution st).1.mine.stream_bindings
            ≡ st.mine.stream_bindings)
          × ((run_prepared w g os plugin_directories session execution st).1.shared.stream_allocator
              ≡ st.shared.stream_allocator)
    unfolding run_prepared run_execution
    run_prepared-keeps session execution st = ground arith

    pub start_locked-Left :
        (others : ℕ → ℕ) (session : Session) (st : Locked g)
        → Within others st
        → Left others (start_locked w g os plugin_directories session st)
    unfolding start_locked
    start_locked-Left others session st h =
        continue_post (Left others) (Left others)
          (prepare_locked w g os plugin_directories session st)
          (run_prepared w g os plugin_directories session)
          (prepare_locked-Left g w os plugin_directories others session st h)
          (λ execution s k.
            rw
              (
                (run_prepared-keeps session execution s).0,
                (run_prepared-keeps session execution s).1,
              )
              k)
          (λ e s k. k)

  halt-keeps :
      (session : Session) (execution : Execution g) (st : Locked g)
      → ((halt g session execution st).1.mine.stream_bindings ≡ st.mine.stream_bindings)
        × ((halt g session execution st).1.shared.stream_allocator ≡ st.shared.stream_allocator)
  unfolding halt stop_failed
  halt-keeps session execution st = ground arith

  finish_stop-keeps :
      (session : Session) (st : Locked g)
      → ((finish_stop g session st).1.mine.stream_bindings ≡ st.mine.stream_bindings)
        × ((finish_stop g session st).1.shared.stream_allocator ≡ st.shared.stream_allocator)
  unfolding finish_stop
  finish_stop-keeps session st = ground arith

  stop_execution-Left :
      (others : ℕ → ℕ) (session : Session) (execution : Execution g) (st : Locked g)
      → Within others st
      → Left others (stop_execution g session execution st)
  unfolding stop_execution
  stop_execution-Left others session execution st h =
      continue_post (Left others) (Left others) (halt g session execution st)
        (λ _ s. continue (release_stream_bindings_locked g s) (λ _. finish_stop g session))
        (rw ((halt-keeps session execution st).0, (halt-keeps session execution st).1) h)
        (λ _ s k.
          continue_post (Left others) (Left others) (release_stream_bindings_locked g s)
            (λ _. finish_stop g session) (release-Within others s k)
            (λ _ s' k'. rw ((finish_stop-keeps session s').0, (finish_stop-keeps session s').1) k')
            (λ e s' k'. k'))
        (λ e s k. k)

  stop_found-Left :
      (others : ℕ → ℕ) (session : Session) (o : Option (Execution g)) (st : Locked g)
      → Within others st
      → Left others (stop_found g session o st)
  unfolding release_stream_bindings_locked
  stop_found-Left others session none st h = release-Within others st h
  stop_found-Left others session (some execution) st h =
      elim (Bool-cases (is_stopping st.mine.lifecycle_phase)) [
        | inl e ↦ rw e h
        | inr e ↦ rw e (stop_execution-Left others session execution st h)
      ]

  pub stop_locked-Left :
      (others : ℕ → ℕ) (session : Session) (st : Locked g)
      → Within others st
      → Left others (stop_locked g session st)
  unfolding stop_locked
  stop_locked-Left others session st h = stop_found-Left others session st.mine.execution st h

  pub destroy_locked-Left :
      (others : ℕ → ℕ) (session : Session) (st : Locked g)
      → Within others st
      → Left others (destroy_locked g session st)
  unfolding destroy_locked clear_execution release_stream_bindings_locked
  destroy_locked-Left others session st h =
      continue_post (Left others) (Left others) (stop_locked g session st) (λ _. clear_execution g)
        (stop_locked-Left others session st h) (λ _ s k. release-Within others s k) (λ e s k. k)

  abbrev pub bindings_of : SessionRuntimeResources g → List RuntimeStreamBinding
  bindings_of r = r.stream_bindings

  pub record Inv (rm : Gr4RuntimeManager g) : Type 0 where
    pub keyed : NodupKeys rm.resources
    pub within :
        (q : ℕ)
        → held bindings_of q rm.resources ≤ count q rm.shared.stream_allocator.allocated_ports
    pub unshared : (q : ℕ) → count q rm.shared.stream_allocator.allocated_ports ≤ 1

  abbrev others_of : String → Gr4RuntimeManager g → ℕ → ℕ
  others_of id rm q = held bindings_of q (Dict.erase id rm.resources)

  found-Within :
      (id : String) (r : SessionRuntimeResources g) (rm : Gr4RuntimeManager g)
      → Inv rm
      → Dict.lookup id rm.resources ≡ some r
      → Within (others_of id rm) (record { mine = r; shared = rm.shared })
  found-Within id r rm h e = record {
    within = λ q. omega (arith, h.within q, held-erase bindings_of q id r rm.resources h.keyed e);
    unshared = h.unshared;
  }

  -- A section that keeps the bound, on the session's own resources or on new ones.
  on-Inv :
      {A : Type 0} (id : String) (r : SessionRuntimeResources g) (m : M (Locked g) A)
      (rm : Gr4RuntimeManager g)
      → Inv rm
      → Within (others_of id rm) (record { mine = r; shared = rm.shared })
      → ((st : Locked g) → Within (others_of id rm) st → Left (others_of id rm) (m st))
      → Inv (on g id r m rm).1
  on-Inv id r m rm h start keep =
      let st' : Locked g = (m (record { mine = r; shared = rm.shared })).1 in
      let kept : Within (others_of id rm) st' = keep _ start in
      record {
        keyed = insert-NodupKeys id _ rm.resources h.keyed;
        within = λ q.
            omega
              (arith, kept.within q, held-insert bindings_of q id st'.mine rm.resources h.keyed);
        unshared = kept.unshared;
      }

  on_created-Inv :
      {A : Type 0} (id : String) (m : M (Locked g) A) (rm : Gr4RuntimeManager g)
      → Inv rm
      → ((st : Locked g) → Within (others_of id rm) st → Left (others_of id rm) (m st))
      → Inv (on_created g id m rm).1
  unfolding on_created new_resources
  on_created-Inv id m rm h keep = elim (Option-cases (Dict.lookup id rm.resources)) [
    | inl e ↦
        rw (e, on_created)
          (on-Inv id (new_resources g id) m rm h
            (record {
              within =
                  λ q. omega (arith, h.within q, held-erase_absent bindings_of q id rm.resources e);
              unshared = h.unshared;
            })
            keep)
    | inr (r, e) ↦ rw (e, on_created) (on-Inv id r m rm h (found-Within id r rm h e) keep)
  ]

  on_found-Inv :
      (id : String) (m : M (Locked g) (Unit {0})) (rm : Gr4RuntimeManager g)
      → Inv rm
      → ((st : Locked g) → Within (others_of id rm) st → Left (others_of id rm) (m st))
      → Inv (on_found g id m rm).1
  unfolding on_found
  on_found-Inv id m rm h keep = elim (Option-cases (Dict.lookup id rm.resources)) [
    | inl e ↦ rw (e, on_found) h
    | inr (r, e) ↦ rw (e, on_found) (on-Inv id r m rm h (found-Within id r rm h e) keep)
  ]

  forget-Left :
      (w : PmtWriter p) (os : ℕ → SocketAnswer) (plugin_directories : List String) {A : Type 0}
      (others : ℕ → ℕ) (r : Result A × Locked g)
      → Left others r
      → Left others (forget w g os plugin_directories r)
  forget-Left w os plugin_directories others (ok a, st) h = h
  forget-Left w os plugin_directories others (err e, st) h = h

  erase-Inv :
      (id : String) (rm : Gr4RuntimeManager g)
      → Inv rm
      → Inv (record rm { resources = Dict.erase id rm.resources })
  erase-Inv id rm h = record {
    keyed = erase-NodupKeys id rm.resources h.keyed;
    within = λ q. omega (arith, h.within q, held-erase-le bindings_of q id rm.resources h.keyed);
    unshared = h.unshared;
  }

  -- Whatever GNU Radio and the socket calls answer, `prepare`, `start`, `stop` and `destroy`, whether they
  -- return or throw, keep the ports of all streams held allocated, and no port allocated twice.
  pub gr4-Inv :
      (w : PmtWriter p) (os : ℕ → SocketAnswer) (plugin_directories : List String)
      (session : Session) (rm : Gr4RuntimeManager g)
      → Inv rm
      → Inv (prepare w g os plugin_directories session rm).1
        × Inv (start w g os plugin_directories session rm).1
        × Inv (stop g session rm).1
        × Inv (destroy g session rm).1
  unfolding prepare start stop destroy
  gr4-Inv w os plugin_directories session rm h = (
    on_created-Inv {A = Unit {0}} session.id
        (λ st.
          forget w g os plugin_directories (prepare_locked w g os plugin_directories session st))
        rm h
        (λ st k.
          forget-Left w os plugin_directories {A = Execution g} (others_of session.id rm)
            (prepare_locked w g os plugin_directories session st)
            (prepare_locked-Left g w os plugin_directories (others_of session.id rm) session st k)),
    on_created-Inv session.id (start_locked w g os plugin_directories session) rm h
        (λ st k. start_locked-Left w os plugin_directories _ session st k),
    on_found-Inv session.id (stop_locked g session) rm h (λ st k. stop_locked-Left _ session st k),
    continue_post (λ r. Inv r.1) (λ r. Inv r.1)
        (on_found g session.id (destroy_locked g session) rm)
        (λ _ rm'. (ok tt, record rm' { resources = Dict.erase session.id rm'.resources }))
        (on_found-Inv session.id (destroy_locked g session) rm h
          (λ st k. destroy_locked-Left _ session st k))
        (λ _ rm' k. erase-Inv session.id rm' k) (λ e rm' k. k),
  )
