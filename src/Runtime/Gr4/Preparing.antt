-- ===== src/Runtime/Gr4/Preparing.antt =====
-- The ports that `prepare_locked` takes and gives back.
use gr4_control_plane.Prelude.{
  ℕ, ◌+◌, String, ◌≡◌, string_eq, nat_eq, Option, none, some, List, [], ◌∷◌, arith, Option-cases,
  Bool-cases, inl, inr,
}
use gr4_control_plane.Errors.{
  Exception, what, Result, ok, err, M, continue, recover, continue_post, recover_post,
}
use gr4_control_plane.Pmt.{Pmt, PmtWriter}
use gr4_control_plane.Domain.Session.{Session}
use gr4_control_plane.Domain.Stream.{
  RuntimeStreamBindingPlan, InternalStreamBinding, RuntimeStreamBinding,
}
use gr4_control_plane.Domain.Stream.Contract.{validate_stream_runtime_contract}
use gr4_control_plane.Runtime.Allocator.{SocketAnswer, Allocator}
use gr4_control_plane.Runtime.Allocator.Ports.{Takes}
use gr4_control_plane.Runtime.Stub.{binding_of, allocate_for}
use gr4_control_plane.Runtime.Held.{ports, allocate_for-Takes}
use gr4_control_plane.Runtime.Gr4.{GnuRadio, Execution, Locked, is_stopping}
use gr4_control_plane.Runtime.Gr4.Steps.{call, release_stream_bindings_locked}
use gr4_control_plane.Runtime.Gr4.Preparation.{
  ensure_runtime_environment, allocate_streams, give_back, prepare_new, prepare_locked,
  build_execution, prepared, throw_contract, derived_streams, clear, commit, place_streams,
  existing_or,
}
use gr4_control_plane.Runtime.Gr4.Bound.{
  release_all-Bound, with_hand, without_hand, empty_hand, drop_hand, Takes-Bound, Within, Left,
  release-Within,
}

module _ {p : Pmt} (g : GnuRadio p) where
  module _ (w : PmtWriter p) (os : ℕ → SocketAnswer) (plugin_directories : List String) where
    ensure-keeps :
        (st : Locked g)
        → ((ensure_runtime_environment w g os plugin_directories st).1.mine ≡ st.mine)
          × ((ensure_runtime_environment w g os plugin_directories st).1.shared.stream_allocator
              ≡ st.shared.stream_allocator)
    unfolding ensure_runtime_environment
    ensure-keeps st = ground arith

    ensure-Within :
        (others : ℕ → ℕ) (st : Locked g)
        → Within others st
        → Within others (ensure_runtime_environment w g os plugin_directories st).1
    ensure-Within others st h = rw ((ensure-keeps st).0, (ensure-keeps st).1) h

    -- The bindings made, in hand, or the ports of those that a throw leaves behind.
    abbrev Made : (ℕ → ℕ) → Result (List RuntimeStreamBinding) × Locked g → Type 0
    Made others (ok bs, st) = Within (λ q. others q + ports q bs) st
    Made others (err e, st) = Within others st

    cons-Made :
        (others : ℕ → ℕ) (b : RuntimeStreamBinding)
        (c : Result (List RuntimeStreamBinding) × Locked g)
        → Made (λ q. others q + ports q (b ∷ [])) c
        → Made others (continue c (λ bs s. (ok (b ∷ bs), s)))
    cons-Made others b (ok bs, s) h = record {
      within = λ q. ground (arith, h.within q);
      unshared = h.unshared;
    }
    cons-Made others b (err e, s) h = drop_hand others (b ∷ []) _ _ h

    allocate_one :
        (others : ℕ → ℕ) (plan : RuntimeStreamBindingPlan) (st : Locked g)
        (r : Result InternalStreamBinding × Allocator)
        (rest : M (Locked g) (List RuntimeStreamBinding))
        → Takes st.shared.stream_allocator r
        → Within others st
        → ((more : ℕ → ℕ) (s : Locked g) → Within more s → Made more (rest s))
        → Made others (
            continue
              (r.0, record st { shared = record st.shared { stream_allocator = r.1 } })
              (λ internal s. continue (rest s) (λ bs s. (ok (binding_of plan internal ∷ bs), s))))
    allocate_one others plan st (ok internal, a) rest t h more =
        cons-Made others (binding_of plan internal) _
          (more _ _ (Takes-Bound others _ plan st.shared.stream_allocator a internal t h))
    allocate_one others plan st (err e, a) rest t h more = record {
      within = λ q. ground (arith, h.within q, t);
      unshared = λ q. ground (arith, h.unshared q, t);
    }

    allocate_streams-Made :
        (others : ℕ → ℕ) (plans : List RuntimeStreamBindingPlan) (st : Locked g)
        → Within others st
        → Made others (allocate_streams w g os plugin_directories plans st)
    unfolding allocate_streams
    allocate_streams-Made others [] st h = record {
      within = λ q. omega (arith, h.within q);
      unshared = h.unshared;
    }
    allocate_streams-Made others (plan ∷ plans) st h =
        allocate_one others plan st (allocate_for os plan st.shared.stream_allocator)
          (allocate_streams w g os plugin_directories plans)
          (allocate_for-Takes os plan st.shared.stream_allocator) h
          (λ more s k. allocate_streams-Made more plans s k)

    -- The `try` block with its handler: the bindings are in hand, or given back.
    abbrev Placed :
        {A : Type 0} → (ℕ → ℕ) → List RuntimeStreamBinding → Result A × Locked g → Type 0
    Placed others bs (ok _, st) = Within (λ q. others q + ports q bs) st
    Placed others bs (err e, st) = Within others st

    give_back-Placed :
        (others : ℕ → ℕ) (session : Session) (bs : List RuntimeStreamBinding) (e : Exception)
        (st : Locked g)
        → Within (λ q. others q + ports q bs) st
        → Placed others bs (give_back w g os plugin_directories session bs e st)
    unfolding give_back
    give_back-Placed others session bs e st h = elim (Option-cases (what e)) [
      | inl n ↦ rw (n, give_back) (drop_hand others bs _ _ h)
      | inr (detail, n) ↦
          rw (n, give_back)
            (empty_hand others _ _
              (release_all-Bound _ bs _ (with_hand others bs st.mine.stream_bindings _ h)))
    ]

    commit-Left :
        (others : ℕ → ℕ) (session : Session) (bs : List RuntimeStreamBinding) (st : Locked g)
        → Within (λ q. others q + ports q bs) st
        → Left others (commit w g os plugin_directories session bs st)
    unfolding commit
    commit-Left others session bs st h =
        continue_post (Placed others bs) (Left others)
          (recover (call g (build_execution w g os plugin_directories session bs) st)
            (give_back w g os plugin_directories session bs))
          (λ execution s. (
            ok execution,
            record s { mine = prepared w g os plugin_directories execution bs s.mine },
          ))
          (recover_post (λ r. Within (λ q. others q + ports q bs) r.1) (Placed others bs)
            (call g (build_execution w g os plugin_directories session bs) st)
            (give_back w g os plugin_directories session bs) h (λ execution s k. k)
            (λ e s k. give_back-Placed others session bs e s k))
          (λ execution s k. without_hand others bs s.mine.stream_bindings _ k) (λ e s k. k)

    place_streams-Left :
        (others : ℕ → ℕ) (session : Session) (st : Locked g)
        → Within others st
        → Left others (place_streams w g os plugin_directories session st)
    unfolding place_streams
    place_streams-Left others session st h =
        let plans = derived_streams w g os plugin_directories session in
        continue_post (Made others) (Left others)
          (allocate_streams w g os plugin_directories plans st)
          (commit w g os plugin_directories session) (allocate_streams-Made others plans st h)
          (λ bs s k. commit-Left others session bs s k) (λ e s k. k)

    contract-Within :
        (others : ℕ → ℕ) (session : Session) (o : Option String) (st : Locked g)
        → Within others st
        → Left others (throw_contract w g os plugin_directories session o st)
    contract-Within others session none st h = h
    contract-Within others session (some e) st h = h

    clear-Left :
        (others : ℕ → ℕ) (session : Session) (st : Locked g)
        → Within others st
        → Left others (clear w g os plugin_directories session st)
    unfolding clear
    clear-Left others session st h =
        let ensure = ensure_runtime_environment w g os plugin_directories in
        let contract =
          throw_contract w g os plugin_directories session
            (validate_stream_runtime_contract p session) in
        continue_post (Left others) (Left others) (contract st)
          (λ _ s. continue (ensure s) (λ _. release_stream_bindings_locked g))
          (contract-Within others session _ st h)
          (λ _ s k.
            continue_post (Left others) (Left others) (ensure s)
              (λ _. release_stream_bindings_locked g) (ensure-Within others s k)
              (λ _ s' k'. release-Within others s' k') (λ e s' k'. k'))
          (λ e s k. k)

    prepare_new-Left :
        (others : ℕ → ℕ) (session : Session) (st : Locked g)
        → Within others st
        → Left others (prepare_new w g os plugin_directories session st)
    unfolding prepare_new
    prepare_new-Left others session st h =
        continue_post (Left others) (Left others) (clear w g os plugin_directories session st)
          (λ _. place_streams w g os plugin_directories session) (clear-Left others session st h)
          (λ _ s k. place_streams-Left others session s k) (λ e s k. k)

    existing-Left :
        (others : ℕ → ℕ) (session : Session) (o : Option (Execution g)) (st : Locked g)
        → Within others st
        → Left others (
            existing_or w g os plugin_directories o
              (prepare_new w g os plugin_directories session)
              st)
    existing-Left others session none st h = prepare_new-Left others session st h
    existing-Left others session (some execution) st h = h

    pub prepare_locked-Left :
        (others : ℕ → ℕ) (session : Session) (st : Locked g)
        → Within others st
        → Left others (prepare_locked w g os plugin_directories session st)
    unfolding prepare_locked
    prepare_locked-Left others session st h =
        elim (Bool-cases (is_stopping st.mine.lifecycle_phase)) [
          | inl e ↦ rw (e, prepare_locked) h
          | inr e ↦ rw (e, prepare_locked) (existing-Left others session st.mine.execution st h)
        ]
