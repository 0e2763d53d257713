-- ===== src/Runtime/Allocator.antt =====
-- src/runtime/stream_binding_allocator.cpp. Each method holds the allocator's mutex. The operating
-- system is a parameter: what its socket calls answer in the n-th reservation.
pub mod Ports
use gr4_control_plane.Prelude.{
  ℕ, zero, suc, String, ◌<>◌, ◌==◌, nat_eq, if◌then◌else◌, contains, Bool, true, false, List, [],
  ◌∷◌,
}
use gr4_control_plane.Prelude.Decimal.{decimal}
use gr4_control_plane.Errors.{std_exception, Result, ok, err, M, ◌>>=◌, pure, throw}
use gr4_control_plane.Domain.Stream.{InternalStreamBinding}

-- The first of `socket`, `bind` and `getsockname` that fails, or the port that was bound.
pub data SocketAnswer : Type 0 where
  no_socket no_bind no_name : SocketAnswer
  bound : ℕ → SocketAnswer

pub record Allocator : Type 0 where
  pub allocated_ports : List ℕ
  -- The reservations made so far.
  pub reservations : ℕ

abbrev reserved : SocketAnswer → Result ℕ
reserved no_socket = err (std_exception "failed to create stream binding allocation socket")
reserved no_bind = err (std_exception "failed to bind ephemeral loopback port for stream")
reserved no_name = err (std_exception "failed to inspect allocated stream port")
reserved (bound port) = ok port

abbrev pub max_attempts : ℕ
max_attempts = 64

abbrev pub http_binding : ℕ → InternalStreamBinding
http_binding port = record {
  protocol = "http";
  host = "127.0.0.1";
  port = port;
  path = "/snapshot";
  endpoint = "http://127.0.0.1:" <> decimal port <> "/snapshot";
}

abbrev pub websocket_binding : ℕ → InternalStreamBinding
websocket_binding port = record {
  protocol = "websocket";
  host = "127.0.0.1";
  port = port;
  path = "/stream";
  endpoint = "ws://127.0.0.1:" <> decimal port <> "/stream";
}

-- `std::set::erase`
unfoldable pub erase_port : ℕ → List ℕ → List ℕ
erase_port port [] = []
erase_port port (q ∷ qs) = let rest = erase_port port qs in if port == q then rest else q ∷ rest

unfoldable pub release : InternalStreamBinding → Allocator → Allocator
unfolding erase_port
release binding a = record a { allocated_ports = erase_port binding.port a.allocated_ports }

module _ (os : ℕ → SocketAnswer) where
  unfoldable pub reserve_ephemeral_loopback_port : M Allocator ℕ
  reserve_ephemeral_loopback_port a =
      (reserved (os a.reservations), record a { reservations = suc a.reservations })

  -- `insert(port).second`, else `continue`.
  abbrev take_or_go_on :
      Bool
      → InternalStreamBinding
      → M Allocator InternalStreamBinding
      → M Allocator InternalStreamBinding
  take_or_go_on true binding rest a = rest a
  take_or_go_on false binding rest a =
      (ok binding, record a { allocated_ports = binding.port ∷ a.allocated_ports })

  -- The loop of both methods, by the attempts that are left.
  unfoldable pub allocate :
      ℕ → (ℕ → InternalStreamBinding) → String → M Allocator InternalStreamBinding
  unfolding reserve_ephemeral_loopback_port
  allocate zero binding failure = throw (std_exception failure)
  allocate (suc left) binding failure = do
    port ← reserve_ephemeral_loopback_port
    λ a.
        let rest = allocate left binding failure in
        take_or_go_on (contains a.allocated_ports port) (binding port) rest a

  unfoldable pub allocate_http : M Allocator InternalStreamBinding
  allocate_http =
      allocate max_attempts http_binding "failed to allocate unique internal HTTP stream binding"

  unfoldable pub allocate_websocket : M Allocator InternalStreamBinding
  allocate_websocket =
      allocate max_attempts websocket_binding
        "failed to allocate unique internal websocket stream binding"
