-- ===== src/Tests/Gr4.antt =====
-- The runtime manager of GNU Radio, with a GNU Radio that does what it is asked.
use gr4_control_plane.Prelude.{
  ℕ, zero, suc, ◌+◌, ◌≡◌, refl, String, string_eq, nat_eq, true, false, none, some, List, [], ◌∷◌,
  arith,
}
use gr4_control_plane.Runtime.Gr4.Lifecycle.{prepare, start, stop, destroy}
use gr4_control_plane.Runtime.Gr4.Running.{start_locked, stop_execution, destroy_locked}
use gr4_control_plane.Runtime.Gr4.Preparation.{
  allocate_streams, build_execution, prepare_new, prepare_locked,
}
use gr4_control_plane.Runtime.Gr4.{new_resources}
use gr4_control_plane.Runtime.Gr4.Graph.{normalize_graph_content}
use gr4_control_plane.Runtime.Gr4.Graph.Connections.{
  value_of_digits, normalize_connection, normalize_connections,
}
use gr4_control_plane.Runtime.Allocator.{
  SocketAnswer, bound, release, allocate, allocate_http, allocate_websocket,
}
use gr4_control_plane.Runtime.Stub.{release_all, allocate_for}
use gr4_control_plane.Domain.Stream.Normalize.{normalize_stream_block}
use gr4_control_plane.Domain.Stream.Contract.{
  validate_stream_block, plan_of, declared_block, derive_streams, derive_stream_runtime_plan,
  validate_blocks, validate_stream_runtime_contract,
}
use gr4_control_plane.Prelude.Bytes.{size, split_last, strip_prefix}
use gr4_control_plane.Runtime.Gr4.{GnuRadio, replied, Gr4RuntimeManager}
use gr4_control_plane.Runtime.Gr4.Streams.{active_stream_plan}
use gr4_control_plane.Prelude.Int.{pos}
use gr4_control_plane.Prelude.Dict
use gr4_control_plane.Errors.{ok, err, std_exception}
use gr4_control_plane.Runtime.Gr4.Ports.{Inv, gr4-Inv}
use gr4_control_plane.Runtime.Gr4.Stopped.{IsInactive, stop-IsInactive}
use gr4_control_plane.Runtime.Gr4.Guarantees.{destroy-forgets, start-active_stream_plan}
use gr4_control_plane.Runtime.Gr4.Graph.Stable.{normalize_connection-stable}
use gr4_control_plane.Tests.Fixtures.{stopped_a}
use gr4_control_plane.Tests.Values.{
  Node, leaf, whole, items, node, no_nodes, same_entries, reader, writer, writer-ReadsBack,
}

-- It counts the runs that are under way.
abbrev willing : GnuRadio reader
willing = record {
  State = ℕ;
  Scheduler = Unit {0};
  Graph = Unit {0};
  bootstrap = λ directories n. (ok tt, n);
  register_default_schedulers = λ n. n;
  available_schedulers = λ n. "gr::scheduler::SimpleSingle" ∷ "gr::scheduler::SimpleMulti" ∷ [];
  load_grc = λ content n. (ok tt, n);
  instantiate_scheduler = λ alias n. (ok (some tt), n);
  set_graph = λ scheduler graph n. (ok tt, n);
  start = λ scheduler n. (ok tt, suc n);
  stop = λ scheduler. elim [ zero ↦ (err (std_exception "not running"), 0) | suc n ↦ (ok tt, n) ];
  http_get = λ host port path n. (none, n);
  runtime_blocks = λ scheduler n. some [];
  setting_endpoint = "Settings";
  staged_setting_endpoint = "StagedSettings";
  request = λ scheduler command block endpoint patch n. (ok (replied []), n);
}

abbrev empty : Gr4RuntimeManager willing
empty = record {
  shared = record {
    stream_allocator = record { allocated_ports = []; reservations = 0 };
    gnuradio = 0;
    bootstrapped = false;
    bootstrap_error = none;
  };
  resources = [];
}

abbrev ports_from_5000 : ℕ → SocketAnswer
ports_from_5000 n = bound (5000 + n)

empty-Inv : Inv willing empty
empty-Inv = record { keyed = tt; within = λ q. omega arith; unshared = λ q. omega arith }

-- The short spelling of a port in a connection.
abbrev connection : Node
connection =
    items
      (node (leaf "source") (node (leaf "out2") (node (leaf "sink") (node (leaf "in") no_nodes))))

abbrev normal_connection : Node
normal_connection = items (
    node (leaf "source")
      (node (whole (pos 2)) (node (leaf "sink") (node (whole (pos 0)) no_nodes))))

is_normalized : normalize_connection writer connection ≡ ok (true, normal_connection)
unfolding value_of_digits normalize_connections size split_last strip_prefix string_eq nat_eq
    same_entries
is_normalized = refl

normalize_connection-stable_example :
    normalize_connection writer normal_connection ≡ ok (false, normal_connection)
normalize_connection-stable_example =
    normalize_connection-stable writer writer-ReadsBack connection normal_connection true
      is_normalized

abbrev plugins : List String
plugins = "plugins" ∷ []

abbrev started : Gr4RuntimeManager willing
started = (start writer willing ports_from_5000 plugins stopped_a empty).1

abbrev prepared : Gr4RuntimeManager willing
prepared = (prepare writer willing ports_from_5000 plugins stopped_a empty).1

start-returns : (start writer willing ports_from_5000 plugins stopped_a empty).0 ≡ ok tt
unfolding start start_locked allocate_streams build_execution prepare_new prepare_locked
    new_resources normalize_graph_content allocate allocate_http allocate_websocket release_all
    allocate_for normalize_stream_block validate_stream_block plan_of declared_block derive_streams
    derive_stream_runtime_plan validate_blocks validate_stream_runtime_contract Dict.lookup
    Dict.insert string_eq nat_eq
start-returns = refl

start_ports : started.shared.stream_allocator.allocated_ports ≡ 5001 ∷ 5000 ∷ []
unfolding start start_locked allocate_streams build_execution prepare_new prepare_locked
    new_resources normalize_graph_content allocate allocate_http allocate_websocket release_all
    allocate_for normalize_stream_block validate_stream_block plan_of declared_block derive_streams
    derive_stream_runtime_plan validate_blocks validate_stream_runtime_contract Dict.lookup
    Dict.insert string_eq nat_eq
start_ports = refl

destroy-returns : (destroy willing stopped_a started).0 ≡ ok tt
unfolding start destroy start_locked stop_execution destroy_locked allocate_streams build_execution
    prepare_new prepare_locked new_resources normalize_graph_content allocate allocate_http
    allocate_websocket release_all allocate_for normalize_stream_block validate_stream_block plan_of
    declared_block derive_streams derive_stream_runtime_plan validate_blocks
    validate_stream_runtime_contract Dict.lookup Dict.insert string_eq nat_eq
destroy-returns = refl

destroy_ports : (destroy willing stopped_a started).1.shared.stream_allocator.allocated_ports ≡ []
unfolding start destroy start_locked stop_execution destroy_locked allocate_streams build_execution
    prepare_new prepare_locked new_resources normalize_graph_content release allocate allocate_http
    allocate_websocket release_all allocate_for normalize_stream_block validate_stream_block plan_of
    declared_block derive_streams derive_stream_runtime_plan validate_blocks
    validate_stream_runtime_contract Dict.lookup Dict.insert string_eq nat_eq
destroy_ports = refl

gr4-Inv_example :
    Inv willing prepared
    × Inv willing started
    × Inv willing (stop willing stopped_a empty).1
    × Inv willing (destroy willing stopped_a empty).1
gr4-Inv_example = gr4-Inv willing writer ports_from_5000 plugins stopped_a empty empty-Inv

start-active_stream_plan_example :
    active_stream_plan willing stopped_a started
    ≡ (ok (derive_stream_runtime_plan reader stopped_a), started)
unfolding Dict.lookup
start-active_stream_plan_example =
    start-active_stream_plan willing writer ports_from_5000 plugins stopped_a empty refl
      start-returns

destroy-forgets_example : Dict.lookup "a" (destroy willing stopped_a started).1.resources ≡ none
unfolding string_eq
destroy-forgets_example = destroy-forgets stopped_a started "a" destroy-returns

stop-IsInactive_example : IsInactive stopped_a (stop willing stopped_a started).1
stop-IsInactive_example = stop-IsInactive {g = willing} stopped_a started
