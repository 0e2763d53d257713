-- ===== src/Runtime/Gr4/Started.antt =====
-- What a preparation and a start leave in a session's resources.
use gr4_control_plane.Prelude.{
  ℕ, String, ◌≡◌, refl, sym, ap, ◌∙◌, subst, true, false, Option, none, some, List, [], ◌∷◌, map,
  arith, Option-cases, Bool-cases, inl, inr,
}
use gr4_control_plane.Errors.{
  Exception, what, Result, ok, err, M, continue, recover, continue_post, recover_post,
}
use gr4_control_plane.Pmt.{Pmt, PmtWriter}
use gr4_control_plane.Domain.Session.{Session}
use gr4_control_plane.Domain.Stream.{
  RuntimeStreamBindingPlan, InternalStreamBinding, RuntimeStreamBinding,
}
use gr4_control_plane.Runtime.Allocator.{SocketAnswer}
use gr4_control_plane.Runtime.Stub.{binding_of, allocate_for, ready_plan}
use gr4_control_plane.Runtime.Gr4.{GnuRadio, Execution, Locked, idle, is_stopping}
use gr4_control_plane.Runtime.Gr4.Steps.{call}
use gr4_control_plane.Runtime.Gr4.Preparation.{
  allocate_streams, build_execution, give_back, prepared, commit, derived_streams, place_streams,
  clear, prepare_new, existing_or, prepare_locked,
}
use gr4_control_plane.Runtime.Gr4.Running.{
  run_prepared, run_execution, start_locked, mark_starting, mark_running,
}
use gr4_control_plane.Runtime.Gr4.Streams.{is_active}

module _ {p : Pmt} {g : GnuRadio p} (w : PmtWriter p) (os : ℕ → SocketAnswer)
    (plugin_directories : List String) where
  build_execution-stopped :
      (session : Session) (bs : List RuntimeStreamBinding) (n n' : g.State) (e : Execution g)
      → build_execution w g os plugin_directories session bs n ≡ (ok e, n')
      → e.running ≡ false
  unfolding build_execution
  build_execution-stopped session bs n n' e h = ground arith

  -- A new execution stands in the resources, stopped, with the bindings of the plans.
  abbrev pub New : List RuntimeStreamBindingPlan → Result (Execution g) × Locked g → Type 0
  New plans (ok e, st) =
      (st.mine.execution ≡ some e)
      × (e.running ≡ false)
      × (st.mine.lifecycle_phase ≡ idle)
      × (map (λ b. b.plan) st.mine.stream_bindings ≡ plans)
  New plans (err e, st) = Unit

  abbrev Stopped : {S : Type 0} → Result (Execution g) × S → Type 0
  Stopped (ok e, s) = e.running ≡ false
  Stopped (err e, s) = Unit

  build_execution-Stopped :
      (session : Session) (bs : List RuntimeStreamBinding) (n : g.State)
      (r : Result (Execution g) × g.State)
      → build_execution w g os plugin_directories session bs n ≡ r
      → Stopped r
  build_execution-Stopped session bs n (ok e, n') h = build_execution-stopped session bs n n' e h
  build_execution-Stopped session bs n (err e, n') h = tt

  give_back-Stopped :
      (session : Session) (bs : List RuntimeStreamBinding) (e : Exception) (st : Locked g)
      → Stopped (give_back w g os plugin_directories session bs e st)
  unfolding give_back
  give_back-Stopped session bs e st = elim (Option-cases (what e)) [
    | inl n ↦ rw (n, give_back) tt
    | inr (detail, n) ↦ rw (n, give_back) tt
  ]

  pair-Stopped :
      {S T : Type 0} (r : Result (Execution g) × S) (s : T) → Stopped r → Stopped (r.0, s)
  pair-Stopped (ok e, _) s h = h
  pair-Stopped (err e, _) s h = tt

  commit-New :
      (session : Session) (bs : List RuntimeStreamBinding) (st : Locked g)
      → New (map (λ b. b.plan) bs) (commit w g os plugin_directories session bs st)
  unfolding commit
  commit-New session bs st =
      continue_post Stopped (New (map (λ b. b.plan) bs))
        (recover (call g (build_execution w g os plugin_directories session bs) st)
          (give_back w g os plugin_directories session bs))
        (λ execution s. (
          ok execution,
          record s { mine = prepared w g os plugin_directories execution bs s.mine },
        ))
        (recover_post Stopped Stopped
          (call g (build_execution w g os plugin_directories session bs) st)
          (give_back w g os plugin_directories session bs)
          (pair-Stopped (build_execution w g os plugin_directories session bs st.shared.gnuradio) _
            (build_execution-Stopped session bs st.shared.gnuradio _ refl))
          (λ execution s k. k) (λ e s k. give_back-Stopped session bs e s))
        (λ execution s k. (refl, k, refl, refl)) (λ e s k. tt)

  -- The bindings made are those of the plans, in their order.
  abbrev Planned :
      List RuntimeStreamBindingPlan → Result (List RuntimeStreamBinding) × Locked g → Type 0
  Planned plans (ok bs, st) = map (λ b. b.plan) bs ≡ map ready_plan plans
  Planned plans (err e, st) = Unit

  plan_one :
      (plan : RuntimeStreamBindingPlan) (plans : List RuntimeStreamBindingPlan)
      (r : Result InternalStreamBinding) (st : Locked g)
      (rest : M (Locked g) (List RuntimeStreamBinding))
      → ((s : Locked g) → Planned plans (rest s))
      → Planned (plan ∷ plans) (
          continue
            (r, st)
            (λ internal s. continue (rest s) (λ bs s'. (ok (binding_of plan internal ∷ bs), s'))))
  plan_one plan plans (ok internal) st rest h =
      continue_post (Planned plans) (Planned (plan ∷ plans)) (rest st)
        (λ bs s'. (ok (binding_of plan internal ∷ bs), s')) (h st)
        (λ bs s k. ap (λ xs. ready_plan plan ∷ xs) k) (λ e s k. tt)
  plan_one plan plans (err e) st rest h = tt

  allocate_streams-Planned :
      (plans : List RuntimeStreamBindingPlan) (st : Locked g)
      → Planned plans (allocate_streams w g os plugin_directories plans st)
  unfolding allocate_streams
  allocate_streams-Planned [] st = refl
  allocate_streams-Planned (plan ∷ plans) st =
      plan_one plan plans (allocate_for os plan st.shared.stream_allocator).0 _
        (allocate_streams w g os plugin_directories plans) (λ s. allocate_streams-Planned plans s)

  place_streams-New :
      (session : Session) (st : Locked g)
      → New
          (map ready_plan (derived_streams w g os plugin_directories session))
          (place_streams w g os plugin_directories session st)
  unfolding place_streams
  place_streams-New session st =
      let plans = derived_streams w g os plugin_directories session in
      continue_post (Planned plans) (New (map ready_plan plans))
        (allocate_streams w g os plugin_directories plans st)
        (commit w g os plugin_directories session) (allocate_streams-Planned plans st)
        (λ bs s k.
          subst (λ x. New x (commit w g os plugin_directories session bs s)) k
            (commit-New session bs s))
        (λ e s k. tt)

  prepare_new-New :
      (session : Session) (st : Locked g)
      → New
          (map ready_plan (derived_streams w g os plugin_directories session))
          (prepare_new w g os plugin_directories session st)
  unfolding prepare_new
  prepare_new-New session st =
      continue_post (λ _. Unit)
        (New (map ready_plan (derived_streams w g os plugin_directories session)))
        (clear w g os plugin_directories session st)
        (λ _. place_streams w g os plugin_directories session) tt
        (λ _ s k. place_streams-New session s) (λ e s k. tt)

  -- What a start that returns leaves on a session that had no execution: it runs, with the plans.
  abbrev pub Runs : List RuntimeStreamBindingPlan → Result (Unit {0}) × Locked g → Type 0
  Runs plans (ok _, st) =
      (is_active g st.mine ≡ true) × (map (λ b. b.plan) st.mine.stream_bindings ≡ plans)
  Runs plans (err e, st) = Unit

  run_prepared-new :
      (session : Session) (e : Execution g) (st : Locked g)
      → e.running ≡ false
      → st.mine.lifecycle_phase ≡ idle
      → run_prepared w g os plugin_directories session e st
        ≡ run_execution w g os plugin_directories e st
  unfolding run_prepared
  run_prepared-new session e st h k = ground arith

  run_execution-Runs :
      (plans : List RuntimeStreamBindingPlan) (e : Execution g) (st : Locked g)
      → map (λ b. b.plan) st.mine.stream_bindings ≡ plans
      → Runs plans (run_execution w g os plugin_directories e st)
  unfolding run_execution is_active
  run_execution-Runs plans e st h =
      continue_post (λ r. r.1.mine.stream_bindings ≡ st.mine.stream_bindings) (Runs plans)
        (call g (g.start e.scheduler)
          (record st { mine = mark_starting w g os plugin_directories st.mine }))
        (λ _ s. (ok tt, record s { mine = mark_running w g os plugin_directories e s.mine })) refl
        (λ _ s k. (refl, ap (map (λ b. b.plan)) k ∙ h)) (λ e s k. tt)

  run_prepared-Runs :
      (plans : List RuntimeStreamBindingPlan) (session : Session) (e : Execution g) (st : Locked g)
      → New plans (ok e, st)
      → Runs plans (run_prepared w g os plugin_directories session e st)
  run_prepared-Runs plans session e st h =
      subst (Runs plans) (sym (run_prepared-new session e st h.1 h.2))
        (run_execution-Runs plans e st h.3)

  existing-New :
      (session : Session) (o : Option (Execution g)) (st : Locked g)
      → o ≡ none
      → New (map ready_plan (derived_streams w g os plugin_directories session)) (
          existing_or w g os plugin_directories o
            (prepare_new w g os plugin_directories session)
            st)
  existing-New session none st h = prepare_new-New session st
  existing-New session (some e) st h = cc

  prepare_locked-New :
      (session : Session) (st : Locked g)
      → st.mine.execution ≡ none
      → New
          (map ready_plan (derived_streams w g os plugin_directories session))
          (prepare_locked w g os plugin_directories session st)
  unfolding prepare_locked
  prepare_locked-New session st h = elim (Bool-cases (is_stopping st.mine.lifecycle_phase)) [
    | inl e ↦ rw (e, prepare_locked) tt
    | inr e ↦ rw (e, prepare_locked) (existing-New session st.mine.execution st h)
  ]

  pub start_locked-Runs :
      (session : Session) (st : Locked g)
      → st.mine.execution ≡ none
      → Runs
          (map ready_plan (derived_streams w g os plugin_directories session))
          (start_locked w g os plugin_directories session st)
  unfolding start_locked
  start_locked-Runs session st none_yet =
      let plans = map ready_plan (derived_streams w g os plugin_directories session) in
      continue_post (New plans) (Runs plans) (prepare_locked w g os plugin_directories session st)
        (run_prepared w g os plugin_directories session) (prepare_locked-New session st none_yet)
        (λ e s k. run_prepared-Runs plans session e s k) (λ e s k. tt)
