-- ===== src/Runtime/Allocator/Ports.antt =====
-- Which ports are allocated.
use gr4_control_plane.Prelude.{
  ℕ, zero, suc, ◌+◌, ◌≡◌, refl, ◌==◌, nat_eq, if◌then◌else◌, contains, true, false, List, [], ◌∷◌,
  ◌<◌, ◌∙◌, subst, arith, String, Bool-cases, inl, inr,
}
use gr4_control_plane.Errors.{Result, ok, err, std_exception}
use gr4_control_plane.Domain.Stream.{InternalStreamBinding}
use gr4_control_plane.Runtime.Allocator.{
  SocketAnswer, bound, no_socket, no_bind, no_name, Allocator, erase_port, allocate,
  reserve_ephemeral_loopback_port,
}

abbrev pub count : ℕ → List ℕ → ℕ
count q [] = 0
count q (x ∷ xs) = if q == x then suc (count q xs) else count q xs

pub contains-count : (q : ℕ) (xs : List ℕ) → contains xs q ≡ false → count q xs ≡ 0
contains-count q [] h = refl
contains-count q (x ∷ xs) h = ground (arith, contains-count q xs)

pub count-contains : (q : ℕ) (xs : List ℕ) → count q xs ≡ 0 → contains xs q ≡ false
count-contains q [] h = refl
count-contains q (x ∷ xs) h = ground (arith, count-contains q xs)

pub count-erase_port :
    (q port : ℕ) (xs : List ℕ)
    → count q (erase_port port xs) ≡ (if q == port then 0 else count q xs)
unfolding erase_port
count-erase_port q port [] = ground arith
count-erase_port q port (x ∷ xs) = ground (arith, count-erase_port q port xs)

-- What an allocation may do to the ports: add the one that it returns, which was free, or nothing.
abbrev pub Takes : Allocator → Result InternalStreamBinding × Allocator → Type 0
Takes a (ok b, a') =
    (contains a.allocated_ports b.port ≡ false) × (a'.allocated_ports ≡ b.port ∷ a.allocated_ports)
Takes a (err e, a') = a'.allocated_ports ≡ a.allocated_ports

module _ (os : ℕ → SocketAnswer) (binding : ℕ → InternalStreamBinding) (failure : String)
    (keeps_port : (port : ℕ) → (binding port).port ≡ port) where
  Takes-of_answer :
      (left : ℕ) (a : Allocator) (answer : SocketAnswer)
      → os a.reservations ≡ answer
      → Takes
          (record a { reservations = suc a.reservations })
          (allocate os left binding failure (record a { reservations = suc a.reservations }))
      → Takes a (allocate os (suc left) binding failure a)
  unfolding allocate
  Takes-of_answer left a no_socket e h = rw (e, allocate, reserve_ephemeral_loopback_port) refl
  Takes-of_answer left a no_bind e h = rw (e, allocate, reserve_ephemeral_loopback_port) refl
  Takes-of_answer left a no_name e h = rw (e, allocate, reserve_ephemeral_loopback_port) refl
  Takes-of_answer left a (bound port) e h = elim (Bool-cases (contains a.allocated_ports port)) [
    | inl t ↦ rw (e, allocate, reserve_ephemeral_loopback_port, t) h
    | inr t ↦
        rw (e, allocate, reserve_ephemeral_loopback_port, t) (ground (arith, keeps_port port), refl)
  ]

  -- Every outcome of the loop, for a binding that keeps the port it is made from: the port that
  -- is returned was free and is the only one added, and a failure adds none.
  pub allocate-Takes : (left : ℕ) (a : Allocator) → Takes a (allocate os left binding failure a)
  unfolding allocate
  allocate-Takes zero a = refl
  allocate-Takes (suc left) a =
      Takes-of_answer left a (os a.reservations) refl
        (allocate-Takes left (record a { reservations = suc a.reservations }))

module _ (os : ℕ → SocketAnswer) (binding : ℕ → InternalStreamBinding) (failure : String)
    (ports : List ℕ) where
  -- The `n`-th reservation gives a port that is allocated already.
  abbrev pub IsTaken : ℕ → Type 0
  IsTaken n = (port : ℕ) × (os n ≡ bound port) × (contains ports port ≡ true)

  skip_taken :
      (left n : ℕ)
      → IsTaken n
      → allocate os
          (suc left)
          binding
          failure
          (record { allocated_ports = ports; reservations = n })
        ≡ allocate os left binding failure
            (record { allocated_ports = ports; reservations = suc n })
  unfolding allocate
  skip_taken left n (port, e, t) = rw (e, allocate, reserve_ephemeral_loopback_port, t)

  take_free :
      (left n port : ℕ)
      → os n ≡ bound port
      → contains ports port ≡ false
      → allocate os
          (suc left)
          binding
          failure
          (record { allocated_ports = ports; reservations = n })
        ≡ (
          ok (binding port),
          record { allocated_ports = (binding port).port ∷ ports; reservations = suc n },
        )
  unfolding allocate
  take_free left n port e t = rw (e, allocate, reserve_ephemeral_loopback_port, t)

  -- If each of the next `k` reservations gives a port that is taken, fewer than the attempts
  -- left, and the one after them a free port, that port is returned and added.
  allocate-free :
      (left k n port : ℕ)
      → k < left
      → ((i : ℕ) → i < k → IsTaken (n + i))
      → os (n + k) ≡ bound port
      → contains ports port ≡ false
      → allocate os left binding failure (record { allocated_ports = ports; reservations = n }) ≡ (
        ok (binding port),
        record { allocated_ports = (binding port).port ∷ ports; reservations = suc (n + k) },
      )
  allocate-free zero k n port lt taken e free = elim lt [ ]
  allocate-free (suc left) zero n port lt taken e free =
      let z : n + 0 ≡ n = omega arith in rw z (take_free left n port (rw z at e) free)
  allocate-free (suc left) (suc k) n port lt taken e free =
      let s : n + suc k ≡ suc n + k = omega arith in
      rw s (
        skip_taken left n (subst IsTaken (omega arith) (taken 0 (omega arith)))
        ∙ allocate-free left k (suc n) port (omega arith)
            (λ i lt'. subst IsTaken (omega arith) (taken (suc i) (omega arith))) (rw s at e) free)

  -- When every attempt gives a taken port, the allocation throws and adds nothing.
  allocate-exhausted :
      (left n : ℕ)
      → ((i : ℕ) → i < left → IsTaken (n + i))
      → allocate os left binding failure (record { allocated_ports = ports; reservations = n })
        ≡ (err (std_exception failure), record { allocated_ports = ports; reservations = n + left })
  unfolding allocate
  allocate-exhausted zero n taken = let z : n + 0 ≡ n = omega arith in rw z refl
  allocate-exhausted (suc left) n taken =
      let s : n + suc left ≡ suc n + left = omega arith in
      rw s (
        skip_taken left n (subst IsTaken (omega arith) (taken 0 (omega arith)))
        ∙ allocate-exhausted left (suc n)
            (λ i lt'. subst IsTaken (omega arith) (taken (suc i) (omega arith))))
