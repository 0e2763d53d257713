-- ===== src/Runtime/Held.antt =====
-- The ports of the streams that a runtime manager holds.
use gr4_control_plane.Prelude.{
  ℕ, suc, ◌+◌, ◌-◌, ◌≤◌, String, ◌≡◌, refl, ◌∙◌, ◌==◌, string_eq, nat_eq, if◌then◌else◌, contains,
  true, false, none, some, List, [], ◌∷◌, ◌++◌, arith, Option-cases, Bool-cases, inl, inr, map,
}
use gr4_control_plane.Prelude.Dict.{Dict, lookup, insert, erase, NodupKeys}
use gr4_control_plane.Domain.Stream.{RuntimeStreamBindingPlan, RuntimeStreamBinding}
use gr4_control_plane.Runtime.Allocator.{
  SocketAnswer, Allocator, release, allocate_http, allocate_websocket, http_binding,
  websocket_binding, max_attempts,
}
use gr4_control_plane.Runtime.Allocator.Ports.{count, count-erase_port, Takes, allocate-Takes}
use gr4_control_plane.Runtime.Stub.{release_all, allocate_for, is_websocket}

-- How many of the bindings have the port.
abbrev pub ports : ℕ → List RuntimeStreamBinding → ℕ
ports q [] = 0
ports q (b ∷ bs) = if q == b.internal.port then suc (ports q bs) else ports q bs

pub ports-append :
    (q : ℕ) (bs cs : List RuntimeStreamBinding) → ports q (bs ++ cs) ≡ ports q bs + ports q cs
ports-append q [] cs = omega arith
ports-append q (b ∷ bs) cs = ground (arith, ports-append q bs cs)

pub ports-contains :
    (q : ℕ) (bs : List RuntimeStreamBinding)
    → contains (map (λ b. b.internal.port) bs) q ≡ true
    → 1 ≤ ports q bs
ports-contains q [] h = cc
ports-contains q (b ∷ bs) h = ground (arith, ports-contains q bs)

pub ports-not_contains :
    (q : ℕ) (bs : List RuntimeStreamBinding)
    → contains (map (λ b. b.internal.port) bs) q ≡ false
    → ports q bs ≡ 0
ports-not_contains q [] h = refl
ports-not_contains q (b ∷ bs) h = ground (arith, ports-not_contains q bs)

-- What is released goes, and nothing else.
pub count-release_all :
    (q : ℕ) (bs : List RuntimeStreamBinding) (a : Allocator)
    → ((x : ℕ) → count x a.allocated_ports ≤ 1)
    → ((x : ℕ) → ports x bs ≤ count x a.allocated_ports)
    → count q (release_all bs a).allocated_ports ≡ count q a.allocated_ports - ports q bs
unfolding release_all release
count-release_all q [] a one within = omega arith
count-release_all q (b ∷ bs) a one within =
    count-release_all q bs (release b.internal a)
      (λ x. ground (arith, one x, count-erase_port x b.internal.port a.allocated_ports))
      (λ x. ground (arith, one x, within x, count-erase_port x b.internal.port a.allocated_ports))
    ∙ ground (arith, one q, within q, count-erase_port q b.internal.port a.allocated_ports)

module _ (os : ℕ → SocketAnswer) where
  pub allocate_for-Takes :
      (plan : RuntimeStreamBindingPlan) (a : Allocator) → Takes a (allocate_for os plan a)
  unfolding allocate_for allocate_http allocate_websocket
  allocate_for-Takes plan a = elim (Bool-cases (is_websocket plan)) [
    | inl e ↦ rw e (allocate-Takes os websocket_binding _ (λ port. refl) max_attempts a)
    | inr e ↦ rw e (allocate-Takes os http_binding _ (λ port. refl) max_attempts a)
  ]

-- By the bindings that a manager keeps for a session.
module _ {V : Type 0} (f : V → List RuntimeStreamBinding) where
  -- How many bindings of all the sessions have the port.
  abbrev pub held : ℕ → Dict String V → ℕ
  held q [] = 0
  held q ((_, bs) ∷ d) = ports q (f bs) + held q d

  pub held-erase_absent :
      (q : ℕ) (id : String) (d : Dict String V)
      → lookup id d ≡ none
      → held q (erase id d) ≡ held q d
  unfolding lookup erase
  held-erase_absent q id [] h = refl
  held-erase_absent q id ((k, bs) ∷ d) h = ground (arith, held-erase_absent q id d)

  pub held-erase :
      (q : ℕ) (id : String) (bs : V) (d : Dict String V)
      → NodupKeys d
      → lookup id d ≡ some bs
      → held q d ≡ ports q (f bs) + held q (erase id d)
  unfolding lookup erase
  held-erase q id bs [] u h = cc
  held-erase q id bs ((k, cs) ∷ d) u h =
      ground (arith, held-erase q id bs d u.1, held-erase_absent q id d)

  pub held-insert :
      (q : ℕ) (id : String) (bs : V) (d : Dict String V)
      → NodupKeys d
      → held q (insert id bs d) ≡ ports q (f bs) + held q (erase id d)
  unfolding insert erase
  held-insert q id bs [] u = omega arith
  held-insert q id bs ((k, cs) ∷ d) u =
      ground (arith, held-insert q id bs d u.1, held-erase_absent q id d)

  pub held-erase-le :
      (q : ℕ) (id : String) (d : Dict String V) → NodupKeys d → held q (erase id d) ≤ held q d
  held-erase-le q id d u = elim (Option-cases (lookup id d)) [
    | inl e ↦ omega (arith, held-erase_absent q id d e)
    | inr (bs, e) ↦ omega (arith, held-erase q id bs d u e)
  ]
