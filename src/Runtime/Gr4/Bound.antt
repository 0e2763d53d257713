-- ===== src/Runtime/Gr4/Bound.antt =====
-- That the ports of bindings are allocated, and none twice, and what keeps it.
use gr4_control_plane.Prelude.{ℕ, ◌+◌, ◌≤◌, string_eq, nat_eq, List, [], ◌∷◌, arith}
use gr4_control_plane.Errors.{Result, ok}
use gr4_control_plane.Pmt.{Pmt}
use gr4_control_plane.Domain.Stream.{
  RuntimeStreamBindingPlan, InternalStreamBinding, RuntimeStreamBinding,
}
use gr4_control_plane.Runtime.Allocator.{Allocator}
use gr4_control_plane.Runtime.Allocator.Ports.{count, contains-count, Takes}
use gr4_control_plane.Runtime.Stub.{release_all, binding_of}
use gr4_control_plane.Runtime.Held.{ports, count-release_all}
use gr4_control_plane.Runtime.Gr4.{GnuRadio, Locked}
use gr4_control_plane.Runtime.Gr4.Steps.{release_stream_bindings_locked}

-- The ports of others and of some bindings are all allocated, and none is allocated twice.
pub record Bound (others : ℕ → ℕ) (bs : List RuntimeStreamBinding) (a : Allocator) : Type 0 where
  pub within : (q : ℕ) → others q + ports q bs ≤ count q a.allocated_ports
  pub unshared : (q : ℕ) → count q a.allocated_ports ≤ 1

pub release_all-Bound :
    (others : ℕ → ℕ) (bs : List RuntimeStreamBinding) (a : Allocator)
    → Bound others bs a
    → Bound others [] (release_all bs a)
release_all-Bound others bs a h =
    let within : (x : ℕ) → ports x bs ≤ count x a.allocated_ports =
      λ x. omega (arith, h.within x) in
    record {
      within = λ q. omega (arith, h.within q, count-release_all q bs a h.unshared within);
      unshared = λ q. omega (arith, h.unshared q, count-release_all q bs a h.unshared within);
    }

-- Bindings in hand change places with a session's own.
pub with_hand :
    (others : ℕ → ℕ) (bs cs : List RuntimeStreamBinding) (a : Allocator)
    → Bound (λ q. others q + ports q bs) cs a
    → Bound (λ q. others q + ports q cs) bs a
with_hand others bs cs a h = record {
  within = λ q. omega (arith, h.within q);
  unshared = h.unshared;
}

pub without_hand :
    (others : ℕ → ℕ) (bs cs : List RuntimeStreamBinding) (a : Allocator)
    → Bound (λ q. others q + ports q bs) cs a
    → Bound others bs a
without_hand others bs cs a h = record {
  within = λ q. omega (arith, h.within q);
  unshared = h.unshared;
}

pub empty_hand :
    (others : ℕ → ℕ) (cs : List RuntimeStreamBinding) (a : Allocator)
    → Bound (λ q. others q + ports q cs) [] a
    → Bound others cs a
empty_hand others cs a h = record { within = λ q. omega (arith, h.within q); unshared = h.unshared }

pub drop_hand :
    (others : ℕ → ℕ) (bs cs : List RuntimeStreamBinding) (a : Allocator)
    → Bound (λ q. others q + ports q bs) cs a
    → Bound others cs a
drop_hand others bs cs a h = record {
  within = λ q. omega (arith, h.within q);
  unshared = h.unshared;
}

-- What an allocation may do.
pub Takes-Bound :
    (others : ℕ → ℕ) (bs : List RuntimeStreamBinding) (plan : RuntimeStreamBindingPlan)
    (a a' : Allocator) (internal : InternalStreamBinding)
    → Takes a (ok internal, a')
    → Bound others bs a
    → Bound (λ q. others q + ports q (binding_of plan internal ∷ [])) bs a'
Takes-Bound others bs plan a a' internal (free, grown) h = record {
  within = λ q. ground (arith, grown, h.within q);
  unshared =
      λ q. ground (arith, grown, h.unshared q, contains-count internal.port a.allocated_ports free);
}

module _ {p : Pmt} {g : GnuRadio p} where
  abbrev pub Within : (ℕ → ℕ) → Locked g → Type 0
  Within others st = Bound others st.mine.stream_bindings st.shared.stream_allocator

  abbrev pub Left : {A : Type 0} → (ℕ → ℕ) → Result A × Locked g → Type 0
  Left others r = Within others r.1

  pub release-Within :
      (others : ℕ → ℕ) (st : Locked g)
      → Within others st
      → Within others (release_stream_bindings_locked g st).1
  unfolding release_stream_bindings_locked
  release-Within others st h =
      release_all-Bound others st.mine.stream_bindings st.shared.stream_allocator h
