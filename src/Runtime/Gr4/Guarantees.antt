-- ===== src/Runtime/Gr4/Guarantees.antt =====
-- What the methods of `Gr4RuntimeManager` promise to the session service.
use gr4_control_plane.Prelude.{
  ℕ, String, ◌≡◌, ◌≢◌, refl, sym, ap, ◌∙◌, subst, ◌==◌, string_eq, if◌then◌else◌, true, none, some,
  List, [], ◌∷◌, map, arith, All, Option-cases, inl, inr,
}
use gr4_control_plane.Prelude.Dict
use gr4_control_plane.Prelude.Dict.{lookup-insert, lookup-erase}
use gr4_control_plane.Errors.{Result, ok, err, M, continue}
use gr4_control_plane.Pmt.{Pmt, PmtWriter}
use gr4_control_plane.Domain.Session.{Session}
use gr4_control_plane.Domain.Stream.{
  RuntimeStreamBindingPlan, StreamRuntimePlan, RuntimeStreamBinding,
}
use gr4_control_plane.Domain.Stream.Contract.{derive_stream_runtime_plan}
use gr4_control_plane.Domain.Stream.Plans.{IsWellFormed, derive_stream_runtime_plan-valid}
use gr4_control_plane.Runtime.Allocator.{SocketAnswer}
use gr4_control_plane.Runtime.Stub.{ready_plan}
use gr4_control_plane.Runtime.Gr4.{
  GnuRadio, SessionRuntimeResources, Locked, Gr4RuntimeManager, new_resources,
}
use gr4_control_plane.Runtime.Gr4.Steps.{on, on_created, on_found}
use gr4_control_plane.Runtime.Gr4.Preparation.{derived_streams, streams_of}
use gr4_control_plane.Runtime.Gr4.Running.{start_locked, destroy_locked}
use gr4_control_plane.Runtime.Gr4.Lifecycle.{start, destroy}
use gr4_control_plane.Runtime.Gr4.Streams.{
  is_active, active_resources, active_stream_plan, plan_of_bindings,
}
use gr4_control_plane.Runtime.Gr4.Started.{Runs, start_locked-Runs}

module _ {p : Pmt} {g : GnuRadio p} where
  after_on :
      (id j : String) (r : SessionRuntimeResources g) (m : M (Locked g) (Unit {0}))
      (rm : Gr4RuntimeManager g)
      → Dict.lookup j (on g id r m rm).1.resources ≡ (
          if j == id
          then some (m (record { mine = r; shared = rm.shared })).1.mine
          else Dict.lookup j rm.resources)
  after_on id j r m rm = lookup-insert j id _ rm.resources

  forgets_found :
      (id j : String) (r : SessionRuntimeResources g) (m : M (Locked g) (Unit {0}))
      (rm : Gr4RuntimeManager g)
      → (continue
          (on g id r m rm)
          (λ _ s. (ok tt, record s { resources = Dict.erase id s.resources }))).0
        ≡ ok tt
      → Dict.lookup j
          (continue
            (on g id r m rm)
            (λ _ s. (ok tt, record s { resources = Dict.erase id s.resources }))).1.resources
        ≡ (if j == id then none else Dict.lookup j rm.resources)
  forgets_found id j r m rm h =
      let st = m (record { mine = r; shared = rm.shared }) in
      ground (
        arith,
        h,
        lookup-erase j id (Dict.insert id st.1.mine rm.resources),
        lookup-insert j id st.1.mine rm.resources,
      )

  -- A `destroy` that returns leaves nothing of the session, and every other session's resources as they
  -- were.
  pub destroy-forgets :
      (session : Session) (rm : Gr4RuntimeManager g) (id : String)
      → (destroy g session rm).0 ≡ ok tt
      → Dict.lookup id (destroy g session rm).1.resources
        ≡ (if id == session.id then none else Dict.lookup id rm.resources)
  unfolding destroy on_found
  destroy-forgets session rm id h = elim (Option-cases (Dict.lookup session.id rm.resources)) [
    | inl e ↦ rw (e, on_found) (lookup-erase id session.id rm.resources)
    | inr (r, e) ↦
        let found : destroy g session rm
            ≡ continue (on g session.id r (destroy_locked g session) rm)
                (λ _ s. (ok tt, record s { resources = Dict.erase session.id s.resources })) =
          rw (e, on_found) refl in
        subst
          (λ x.
            Dict.lookup id x.1.resources
            ≡ (if id == session.id then none else Dict.lookup id rm.resources))
          (sym found)
          (forgets_found session.id id r (destroy_locked g session) rm
            (sym (ap (λ x. x.0) found) ∙ h))
  ]

ready_plan-ready : (plan : RuntimeStreamBindingPlan) → plan.ready ≡ true → ready_plan plan ≡ plan
ready_plan-ready plan h = ground arith

map-ready :
    (id : String) (plans : List RuntimeStreamBindingPlan)
    → All (IsWellFormed id) plans
    → map ready_plan plans ≡ plans
map-ready id [] h = refl
map-ready id (plan ∷ plans) (h, hs) =
    rw (map-ready id plans hs, ready_plan-ready plan h.is_ready) refl

derive-nonempty :
    (p : Pmt) (session : Session) (plan : StreamRuntimePlan)
    → derive_stream_runtime_plan p session ≡ some plan
    → plan.streams ≢ []
unfolding derive_stream_runtime_plan
derive-nonempty p session plan h e = ground arith

plan_of_bindings-map :
    (bs : List RuntimeStreamBinding) (plans : List RuntimeStreamBindingPlan)
    → map (λ b. b.plan) bs ≡ plans
    → plans ≢ []
    → plan_of_bindings bs ≡ some (record { streams = plans })
plan_of_bindings-map [] plans h k = absurd (k (sym h))
plan_of_bindings-map (b ∷ bs) plans h k = ap (λ xs. some (record { streams = xs })) h

plan_of_none :
    (bs : List RuntimeStreamBinding) → map (λ b. b.plan) bs ≡ [] → plan_of_bindings bs ≡ none
plan_of_none [] h = refl
plan_of_none (b ∷ bs) h = cc

module _ {p : Pmt} (g : GnuRadio p) (w : PmtWriter p) (os : ℕ → SocketAnswer)
    (plugin_directories : List String) (session : Session) where
  abbrev plans : List RuntimeStreamBindingPlan
  plans = map ready_plan (derived_streams w g os plugin_directories session)

  planned :
      (bs : List RuntimeStreamBinding)
      → map (λ b. b.plan) bs ≡ plans
      → plan_of_bindings bs ≡ derive_stream_runtime_plan p session
  planned bs h = elim (Option-cases (derive_stream_runtime_plan p session)) [
    | inl e ↦
        plan_of_none bs (
          subst
            (λ o. map (λ b. b.plan) bs ≡ map ready_plan (streams_of w g os plugin_directories o)) e
            h)
        ∙ sym e
    | inr (plan, e) ↦
        plan_of_bindings-map bs plan.streams
          (subst
              (λ o. map (λ b. b.plan) bs ≡ map ready_plan (streams_of w g os plugin_directories o))
              e h
            ∙ map-ready session.id plan.streams
                (derive_stream_runtime_plan-valid p session plan e).0)
          (derive-nonempty p session plan e)
        ∙ sym e
  ]

  Runs-ok :
      (ps : List RuntimeStreamBindingPlan) (c : Result (Unit {0}) × Locked g)
      → c.0 ≡ ok tt
      → Runs w os plugin_directories ps c
      → (is_active g c.1.mine ≡ true) × (map (λ b. b.plan) c.1.mine.stream_bindings ≡ ps)
  Runs-ok ps (ok _, st) e h = h
  Runs-ok ps (err x, st) e h = cc

  shown :
      (rm : Gr4RuntimeManager g) (r : SessionRuntimeResources g)
      → Dict.lookup session.id rm.resources ≡ some r
      → is_active g r ≡ true
      → plan_of_bindings r.stream_bindings ≡ derive_stream_runtime_plan p session
      → active_stream_plan g session rm ≡ (ok (derive_stream_runtime_plan p session), rm)
  unfolding active_stream_plan active_resources
  shown rm r e a h = ground (arith, e, a, h)

  -- Once `start` has returned for a session of which nothing was left, the manager shows for it the plan
  -- that is derived from its graph.
  pub start-active_stream_plan :
      (rm : Gr4RuntimeManager g)
      → Dict.lookup session.id rm.resources ≡ none
      → (start w g os plugin_directories session rm).0 ≡ ok tt
      → active_stream_plan g session (start w g os plugin_directories session rm).1 ≡ (
        ok (derive_stream_runtime_plan p session),
        (start w g os plugin_directories session rm).1,
      )
  unfolding start on_created new_resources
  start-active_stream_plan rm e h =
      let st : Locked g = record { mine = new_resources g session.id; shared = rm.shared } in
      let c : Result (Unit {0}) × Locked g = start_locked w g os plugin_directories session st in
      let started : start w g os plugin_directories session rm
          ≡ on g session.id st.mine (start_locked w g os plugin_directories session) rm =
        rw (e, on_created) refl in
      let returned : c.0 ≡ ok tt = sym (ap (λ x. x.0) started) ∙ h in
      let runs =
        Runs-ok plans c returned (start_locked-Runs w os plugin_directories session st refl) in
      subst
        (λ x. active_stream_plan g session x.1 ≡ (ok (derive_stream_runtime_plan p session), x.1))
        (sym started)
        (shown (on g session.id st.mine (start_locked w g os plugin_directories session) rm).1
          c.1.mine (ground (arith, lookup-insert session.id session.id c.1.mine rm.resources))
          runs.0 (planned c.1.mine.stream_bindings runs.1))
