-- ===== src/Runtime/Stub/Leases.antt =====
-- The stub's allocated ports are those of the streams that it holds: none leaks, and none is shared.
use gr4_control_plane.Prelude.{
  ℕ, ◌+◌, ◌≤◌, String, ◌≡◌, sym, ap, ◌∙◌, string_eq, nat_eq, if◌then◌else◌, contains, Option, none,
  some, List, [], ◌∷◌, ◌++◌, arith, Option-cases, inl, inr, subst, map,
}
use gr4_control_plane.Prelude.Dict.{
  Dict, lookup, insert, erase, NodupKeys, insert-NodupKeys, erase-NodupKeys,
}
use gr4_control_plane.Errors.{M, Result, ok, err, continue}
use gr4_control_plane.Pmt.{Pmt}
use gr4_control_plane.Domain.Session.{Session}
use gr4_control_plane.Domain.Stream.{
  RuntimeStreamBindingPlan, InternalStreamBinding, RuntimeStreamBinding,
}
use gr4_control_plane.Domain.Stream.Contract.{
  validate_stream_runtime_contract, derive_stream_runtime_plan,
}
use gr4_control_plane.Runtime.Allocator.{SocketAnswer, Allocator}
use gr4_control_plane.Runtime.Allocator.Ports.{count, contains-count, Takes}
use gr4_control_plane.Runtime.Held.{
  allocate_for-Takes, ports, ports-append, ports-contains, ports-not_contains, count-release_all,
  held, held-erase, held-erase_absent, held-insert,
}
use gr4_control_plane.Runtime.Stub.{
  Stub, binding_of, allocate_for, release_streams, bind_allocated, bind_streams, or_empty,
  prepare_unless, bind_plan, prepare, stop, destroy,
}

-- The stub keeps the bindings alone.
abbrev pub all_of : List RuntimeStreamBinding → List RuntimeStreamBinding
all_of bs = bs

module _ (os : ℕ → SocketAnswer) (p : Pmt) where
  pub record Inv (st : Stub os p) : Type 0 where
    pub keyed : NodupKeys st.stream_bindings
    pub balanced :
        (q : ℕ) → count q st.stream_allocator.allocated_ports ≡ held all_of q st.stream_bindings
    pub unshared : (q : ℕ) → count q st.stream_allocator.allocated_ports ≤ 1

  release_streams-Inv : (id : String) (st : Stub os p) → Inv st → Inv (release_streams os p id st)
  unfolding release_streams
  release_streams-Inv id st h = elim (Option-cases (lookup id st.stream_bindings)) [
    | inl e ↦ rw (e, release_streams) h
    | inr (bs, e) ↦
        let within : (x : ℕ) → ports x bs ≤ count x st.stream_allocator.allocated_ports = λ x.
          omega (arith, h.balanced x, held-erase all_of x id bs st.stream_bindings h.keyed e) in
        rw (e, release_streams)
          (record {
            keyed = erase-NodupKeys id st.stream_bindings h.keyed;
            balanced = λ q. omega (
              arith,
              count-release_all q bs st.stream_allocator h.unshared within,
              h.balanced q,
              held-erase all_of q id bs st.stream_bindings h.keyed e,
            );
            unshared = λ q.
                omega (
                  arith,
                  count-release_all q bs st.stream_allocator h.unshared within,
                  h.unshared q,
                );
          })
  ]

  held_split :
      (q : ℕ) (id : String) (d : Dict String (List RuntimeStreamBinding))
      → NodupKeys d
      → held all_of q d ≡ ports q (or_empty os p (lookup id d)) + held all_of q (erase id d)
  held_split q id d u = elim (Option-cases (lookup id d)) [
    | inl e ↦ rw e (omega (arith, held-erase_absent all_of q id d e))
    | inr (bs, e) ↦ rw e (held-erase all_of q id bs d u e)
  ]

  bind_allocated-Inv :
      (id : String) (plan : RuntimeStreamBindingPlan) (r : Result InternalStreamBinding × Allocator)
      (st : Stub os p)
      → Takes st.stream_allocator r
      → Inv st
      → Inv (bind_allocated os p id plan r st).1
  bind_allocated-Inv id plan (err e, a) st t h = record {
    keyed = h.keyed;
    balanced = λ q. ap (count q) t ∙ h.balanced q;
    unshared = λ q. subst (λ xs. count q xs ≤ 1) (sym t) (h.unshared q);
  }
  bind_allocated-Inv id plan (ok internal, a) st (free, grown) h = record {
    keyed = insert-NodupKeys id _ st.stream_bindings h.keyed;
    balanced = λ q. ground (
      arith,
      grown,
      h.balanced q,
      held-insert all_of q id (old ++ (binding_of plan internal ∷ [])) st.stream_bindings h.keyed,
      ports-append q old (binding_of plan internal ∷ []),
      held_split q id st.stream_bindings h.keyed,
    );
    unshared = λ q. ground (
      arith,
      grown,
      h.unshared q,
      contains-count internal.port st.stream_allocator.allocated_ports free,
    );
  }
    where
      old : List RuntimeStreamBinding
      old = or_empty os p (lookup id st.stream_bindings)

  continue-Inv :
      (c : Result (Unit {0}) × Stub os p) (f : Unit {0} → M (Stub os p) (Unit {0}))
      → Inv c.1
      → ((st : Stub os p) → Inv st → Inv (f tt st).1)
      → Inv (continue c f).1
  continue-Inv (ok _, st) f h next = next st h
  continue-Inv (err e, st) f h next = h

  bind_streams-Inv :
      (id : String) (plans : List RuntimeStreamBindingPlan) (st : Stub os p)
      → Inv st
      → Inv (bind_streams os p id plans st).1
  unfolding bind_streams
  bind_streams-Inv id [] st h = h
  bind_streams-Inv id (plan ∷ plans) st h =
      continue-Inv (bind_allocated os p id plan (allocate_for os plan st.stream_allocator) st)
        (λ _. bind_streams os p id plans)
        (bind_allocated-Inv id plan _ st (allocate_for-Takes os plan st.stream_allocator) h)
        (λ st' h'. bind_streams-Inv id plans st' h')

  -- The session's vector is made, empty, before the loop.
  fresh_entry-Inv :
      (id : String) (st : Stub os p)
      → Inv st
      → Inv (record st {
        stream_bindings =
            insert id (or_empty os p (lookup id st.stream_bindings)) st.stream_bindings;
      })
  fresh_entry-Inv id st h = record {
    keyed = insert-NodupKeys id _ st.stream_bindings h.keyed;
    balanced = λ q. omega (
      arith,
      h.balanced q,
      held-insert all_of q id (or_empty os p (lookup id st.stream_bindings)) st.stream_bindings
          h.keyed,
      held_split q id st.stream_bindings h.keyed,
    );
    unshared = h.unshared;
  }

  prepare_unless-Inv :
      (session : Session) (o : Option String) (st : Stub os p)
      → Inv st
      → Inv (prepare_unless os p o session st).1
  unfolding prepare_unless
  prepare_unless-Inv session (some message) st h = h
  prepare_unless-Inv session none st h =
      elim (Option-cases (derive_stream_runtime_plan p session)) [
        | inl e ↦ rw (e, prepare_unless, bind_plan) h
        | inr (plan, e) ↦
            rw (e, prepare_unless, bind_plan)
              (bind_streams-Inv session.id plan.streams _ (fresh_entry-Inv session.id st h))
      ]

  -- Every call of the lifecycle, whether it returns or throws, keeps the allocated ports those of the
  -- streams held, each held once.
  pub lifecycle-Inv :
      (session : Session) (st : Stub os p)
      → Inv st
      → Inv (prepare os p session st).1
        × Inv (stop os p session st).1
        × Inv (destroy os p session st).1
  unfolding prepare stop destroy
  lifecycle-Inv session st h =
      let h' = release_streams-Inv session.id st h in
      (
        prepare_unless-Inv session (validate_stream_runtime_contract p session) _ h',
        h',
        record { keyed = h'.keyed; balanced = h'.balanced; unshared = h'.unshared },
      )

  -- Given the invariant, after `stop` of a session that has streams no port of its streams is
  -- allocated, and every other port is as it was.
  stop-frees :
      (session : Session) (st : Stub os p) (bs : List RuntimeStreamBinding) (q : ℕ)
      → Inv st
      → lookup session.id st.stream_bindings ≡ some bs
      → count q (stop os p session st).1.stream_allocator.allocated_ports ≡ (
          if contains (map (λ b. b.internal.port) bs) q
          then 0
          else count q st.stream_allocator.allocated_ports)
  unfolding stop release_streams
  stop-frees session st bs q h e =
      let within : (x : ℕ) → ports x bs ≤ count x st.stream_allocator.allocated_ports = λ x.
        omega
          (arith, h.balanced x, held-erase all_of x session.id bs st.stream_bindings h.keyed e) in
      rw (e, release_streams)
        (ground (
          arith,
          count-release_all q bs st.stream_allocator h.unshared within,
          h.unshared q,
          within q,
          ports-contains q bs,
          ports-not_contains q bs,
        ))
