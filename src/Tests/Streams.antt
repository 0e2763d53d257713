-- ===== src/Tests/Streams.antt =====
-- Streams: the derived plan, the allocator and the stub's leases.
use gr4_control_plane.Prelude.{
  ℕ, zero, suc, ◌+◌, ◌≡◌, refl, string_eq, nat_eq, true, none, some, List, [], ◌∷◌, arith, All,
}
use gr4_control_plane.Prelude.Dict
use gr4_control_plane.Domain.Stream.{StreamRuntimePlan, RuntimeStreamBinding}
use gr4_control_plane.Domain.Stream.Normalize.{normalize_stream_block}
use gr4_control_plane.Domain.Stream.Contract.{
  graph_blocks, derive_stream_runtime_plan, validate_stream_runtime_contract, declared_block,
  plan_of, derive_streams, validate_stream_block, make_stream_path,
}
use gr4_control_plane.Domain.Stream.Plans.{
  IsWellFormed, Fresh, declared_blocks, plan_of_blocks, derive-validate,
  derive_stream_runtime_plan-valid,
}
use gr4_control_plane.Runtime.Allocator.{SocketAnswer, bound, allocate, http_binding}
use gr4_control_plane.Runtime.Allocator.Ports.{Takes, allocate-Takes}
use gr4_control_plane.Runtime.Stub.{Stub, binding_of, prepare, stop, destroy}
use gr4_control_plane.Runtime.Stub.Leases
use gr4_control_plane.Runtime.Stub.Leases.{lifecycle-Inv}
use gr4_control_plane.Tests.Fixtures.{stopped_a}
use gr4_control_plane.Tests.Values.{two_blocks, reader}

derive-validate_example :
    derive_stream_runtime_plan reader stopped_a
    ≡ elim (validate_stream_runtime_contract reader stopped_a) [
      | some _ ↦ none
      | none ↦ plan_of_blocks reader "a" (declared_blocks reader two_blocks)
    ]
unfolding graph_blocks Dict.lookup string_eq
derive-validate_example = derive-validate reader stopped_a two_blocks refl

plan : StreamRuntimePlan
plan = record {
  streams =
      record {
        stream_id = "a";
        block_instance_name = "a";
        transport = "websocket";
        payload_format = "json";
        path = "/sessions/a/streams/a/ws";
        ready = true;
      }
      ∷ record {
        stream_id = "b";
        block_instance_name = "b";
        transport = "http_poll";
        payload_format = "json";
        path = "/sessions/a/streams/b/http";
        ready = true;
      }
      ∷ [];
}

derived_plan : derive_stream_runtime_plan reader stopped_a ≡ some plan
unfolding plan derive_stream_runtime_plan derive_streams declared_block normalize_stream_block
    validate_stream_block plan_of make_stream_path Dict.lookup Dict.insert string_eq
derived_plan = refl

derive_stream_runtime_plan-valid_example :
    All (IsWellFormed "a") plan.streams × Fresh [] plan.streams
derive_stream_runtime_plan-valid_example =
    derive_stream_runtime_plan-valid reader stopped_a plan derived_plan

-- The first reservation gives 40000 again, the later ones count up.
os : ℕ → SocketAnswer
os zero = bound 40000
os (suc n) = bound (40000 + n)

taken : List ℕ
taken = 40000 ∷ []

allocate-Takes_example :
    Takes
      (record { allocated_ports = taken; reservations = 0 })
      (allocate os 64 http_binding "none" (record { allocated_ports = taken; reservations = 0 }))
allocate-Takes_example =
    allocate-Takes os http_binding "none" (λ port. refl) 64
      (record { allocated_ports = taken; reservations = 0 })

abbrev empty_stub : Stub os reader
empty_stub = record {
  stream_allocator = record { allocated_ports = []; reservations = 0 };
  stream_bindings = [];
  settings = [];
}

empty_stub-Inv : Leases.Inv os reader empty_stub
empty_stub-Inv = record { keyed = tt; balanced = λ q. refl; unshared = λ q. omega arith }

lifecycle-Inv_example :
    Leases.Inv os reader (prepare os reader stopped_a empty_stub).1
    × Leases.Inv os reader (stop os reader stopped_a empty_stub).1
    × Leases.Inv os reader (destroy os reader stopped_a empty_stub).1
lifecycle-Inv_example = lifecycle-Inv os reader stopped_a empty_stub empty_stub-Inv

-- The session holds one stream, on port 40000.
abbrev one_stream : List RuntimeStreamBinding
one_stream =
    binding_of
      (record {
        stream_id = "a";
        block_instance_name = "a";
        transport = "http_poll";
        payload_format = "json";
        path = "/sessions/a/streams/a/http";
        ready = true;
      })
      (http_binding 40000)
    ∷ []

abbrev holding : Stub os reader
holding = record {
  stream_allocator = record { allocated_ports = 40000 ∷ []; reservations = 1 };
  stream_bindings = ("a", one_stream) ∷ [];
  settings = [];
}

holding-Inv : Leases.Inv os reader holding
unfolding Dict.lookup
holding-Inv = record {
  keyed = (refl, tt);
  balanced = λ q. ground arith;
  unshared = λ q. ground arith;
}
