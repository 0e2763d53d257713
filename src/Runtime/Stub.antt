-- ===== src/Runtime/Stub.antt =====
-- src/runtime/stub_runtime_manager.cpp. What `log_action` writes to the log is left out.
pub mod Leases
use gr4_control_plane.Prelude.{
  ℕ, String, ◌<>◌, ◌==◌, string_eq, if◌then◌else◌, Bool, true, false, not, ◌&&◌, Option, none, some,
  List, [], ◌∷◌, ◌++◌, map,
}
use gr4_control_plane.Prelude.Dict
use gr4_control_plane.Prelude.Dict.{Dict}
use gr4_control_plane.Errors.{std_exception, Result, ok, err, M, ◌>>=◌, ◌>>◌, pure, throw}
use gr4_control_plane.Pmt.{Pmt}
use gr4_control_plane.Domain.Session.{Session}
use gr4_control_plane.Domain.Stream.{
  RuntimeStreamBindingPlan, StreamRuntimePlan, InternalStreamBinding, RuntimeStreamBinding,
  to_browser_stream_descriptor,
}
use gr4_control_plane.Domain.Stream.Contract.{
  validate_stream_runtime_contract, derive_stream_runtime_plan,
}
use gr4_control_plane.Runtime.Manager.{
  RuntimeManager, BlockSettingsMode, HttpStreamResponse, WebSocketStreamRoute,
}
use gr4_control_plane.Runtime.Allocator.{
  SocketAnswer, Allocator, release, allocate_http, allocate_websocket,
}

-- `stream_binding.release` over a vector of bindings.
unfoldable pub release_all : List RuntimeStreamBinding → Allocator → Allocator
release_all [] a = a
release_all (b ∷ bs) a = release_all bs (release b.internal a)

abbrev pub ready_plan : RuntimeStreamBindingPlan → RuntimeStreamBindingPlan
ready_plan plan = record plan { ready = true }

abbrev pub binding_of : RuntimeStreamBindingPlan → InternalStreamBinding → RuntimeStreamBinding
binding_of plan internal = record {
  plan = ready_plan plan;
  internal = internal;
  browser = to_browser_stream_descriptor (ready_plan plan);
}

abbrev pub is_websocket : RuntimeStreamBindingPlan → Bool
is_websocket plan = plan.transport == "websocket"

module _ (os : ℕ → SocketAnswer) where
  -- One allocation for a stream, by its transport.
  unfoldable pub allocate_for : RuntimeStreamBindingPlan → M Allocator InternalStreamBinding
  allocate_for plan a = if is_websocket plan then allocate_websocket os a else allocate_http os a

module _ (os : ℕ → SocketAnswer) (p : Pmt) where
  abbrev pub Settings : Type 0
  Settings = Dict String p.Value

  pub record Stub : Type 0 where
    pub stream_allocator : Allocator
    pub stream_bindings : Dict String (List RuntimeStreamBinding)
    pub settings : Dict String (Dict String Settings)

  abbrev pub or_empty {ℓ} : {A : Type ℓ} → Option (List A) → List A
  or_empty none = []
  or_empty (some xs) = xs

  release_found : String → Option (List RuntimeStreamBinding) → Stub → Stub
  release_found id none st = st
  release_found id (some bindings) st = record st {
    stream_allocator = release_all bindings st.stream_allocator;
    stream_bindings = Dict.erase id st.stream_bindings;
  }

  unfoldable pub release_streams : String → Stub → Stub
  unfolding release_found
  release_streams id st = release_found id (Dict.lookup id st.stream_bindings) st

  -- `bindings.push_back(…)` on the session's vector in the map.
  abbrev pub push_binding : String → RuntimeStreamBinding → Stub → Stub
  push_binding id binding st = record st {
    stream_bindings =
        Dict.insert id (or_empty (Dict.lookup id st.stream_bindings) ++ (binding ∷ []))
          st.stream_bindings;
  }

  abbrev pub bind_allocated :
      String
      → RuntimeStreamBindingPlan
      → Result InternalStreamBinding × Allocator
      → M Stub (Unit {0})
  bind_allocated id plan (ok internal, a) st =
      (ok tt, push_binding id (binding_of plan internal) (record st { stream_allocator = a }))
  bind_allocated id plan (err e, a) st = (err e, record st { stream_allocator = a })

  -- The loop of `prepare`. A throw leaves the bindings made so far in the map.
  unfoldable pub bind_streams : String → List RuntimeStreamBindingPlan → M Stub (Unit {0})
  bind_streams id [] = pure tt
  bind_streams id (plan ∷ plans) = do
    λ st. bind_allocated id plan (allocate_for os plan st.stream_allocator) st
    bind_streams id plans

  bind_plan : Session → Option StreamRuntimePlan → M Stub (Unit {0})
  unfolding bind_streams
  bind_plan session none st = (ok tt, st)
  -- `stream_bindings_[session.id]`, new and empty after the release.
  bind_plan session (some plan) st = bind_streams session.id plan.streams (record st {
    stream_bindings =
        Dict.insert session.id (or_empty (Dict.lookup session.id st.stream_bindings))
          st.stream_bindings;
  })

  prepare_unless : Option String → Session → M Stub (Unit {0})
  unfolding bind_plan
  prepare_unless (some contract_error) session = throw (std_exception contract_error)
  prepare_unless none session = bind_plan session (derive_stream_runtime_plan p session)

  unfoldable pub prepare : Session → M Stub (Unit {0})
  unfolding release_streams prepare_unless
  prepare session st =
      prepare_unless (validate_stream_runtime_contract p session) session
        (release_streams session.id st)

  unfoldable pub stop : Session → M Stub (Unit {0})
  unfolding release_streams
  stop session st = (ok tt, release_streams session.id st)

  unfoldable pub destroy : Session → M Stub (Unit {0})
  unfolding release_streams
  destroy session st =
      let st' = release_streams session.id st in
      (ok tt, record st' { settings = Dict.erase session.id st'.settings })

  abbrev plan_of_bindings : Option (List RuntimeStreamBinding) → Option StreamRuntimePlan
  plan_of_bindings none = none
  plan_of_bindings (some []) = none
  plan_of_bindings (some (b ∷ bs)) = some (record { streams = map (λ x. x.plan) (b ∷ bs) })

  unfoldable pub active_stream_plan : Session → M Stub (Option StreamRuntimePlan)
  active_stream_plan session st =
      (ok (plan_of_bindings (Dict.lookup session.id st.stream_bindings)), st)

  -- The loop of `fetch_http_stream`.
  unfoldable pub has_http_stream : String → List RuntimeStreamBinding → Bool
  has_http_stream stream_id [] = false
  has_http_stream stream_id (b ∷ bs) =
      if b.plan.stream_id == stream_id && not (is_websocket b.plan)
      then true
      else has_http_stream stream_id bs

  abbrev not_found : {A : Type 0} → String → Result A
  not_found stream_id =
      err (std_exception ("stream not found in active session resources: " <> stream_id))

  abbrev no_resources : {A : Type 0} → Result A
  no_resources = err (std_exception "session stream resources are not available")

  stub_answer : String → Option (List RuntimeStreamBinding) → Result HttpStreamResponse
  unfolding has_http_stream
  stub_answer stream_id none = no_resources
  stub_answer stream_id (some bindings) =
      if has_http_stream stream_id bindings
      then ok (record { status = 200; body = "{\"stub\":true}"; content_type = "application/json" })
      else not_found stream_id

  unfoldable pub fetch_http_stream : Session → String → M Stub HttpStreamResponse
  unfolding stub_answer
  fetch_http_stream session stream_id st =
      (stub_answer stream_id (Dict.lookup session.id st.stream_bindings), st)

  -- The loop of `resolve_websocket_stream`.
  unfoldable pub find_websocket_stream :
      String → List RuntimeStreamBinding → Option InternalStreamBinding
  find_websocket_stream stream_id [] = none
  find_websocket_stream stream_id (b ∷ bs) =
      if b.plan.stream_id == stream_id && is_websocket b.plan
      then some b.internal
      else find_websocket_stream stream_id bs

  abbrev route_or : String → Option InternalStreamBinding → Result WebSocketStreamRoute
  route_or stream_id none = not_found stream_id
  route_or stream_id (some internal) = ok (record { internal = internal })

  stub_route : String → Option (List RuntimeStreamBinding) → Result WebSocketStreamRoute
  unfolding find_websocket_stream
  stub_route stream_id none = no_resources
  stub_route stream_id (some bindings) =
      route_or stream_id (find_websocket_stream stream_id bindings)

  unfoldable pub resolve_websocket_stream : Session → String → M Stub WebSocketStreamRoute
  unfolding stub_route
  resolve_websocket_stream session stream_id st =
      (stub_route stream_id (Dict.lookup session.id st.stream_bindings), st)

  -- `insert_or_assign` of each entry of the patch.
  unfoldable pub apply_patch : Settings → Settings → Settings
  apply_patch [] current = current
  apply_patch ((key, value) ∷ patch) current = apply_patch patch (Dict.insert key value current)

  unfoldable pub set_block_settings :
      Session → String → Settings → BlockSettingsMode → M Stub (Unit {0})
  unfolding apply_patch
  set_block_settings session block patch mode st =
      let blocks = or_empty (Dict.lookup session.id st.settings) in
      let patched = apply_patch patch (or_empty (Dict.lookup block blocks)) in
      (
        ok tt,
        record st {
          settings = Dict.insert session.id (Dict.insert block patched blocks) st.settings;
        },
      )

  unfoldable pub get_block_settings : Session → String → M Stub Settings
  get_block_settings session block st =
      (ok (or_empty (Dict.lookup block (or_empty (Dict.lookup session.id st.settings)))), st)

  abbrev pub stub_runtime_manager : RuntimeManager Settings
  stub_runtime_manager = record {
    State = Stub;
    prepare = prepare;
    start = λ session st. (ok tt, st);
    stop = stop;
    destroy = destroy;
    active_stream_plan = active_stream_plan;
    fetch_http_stream = fetch_http_stream;
    resolve_websocket_stream = resolve_websocket_stream;
    set_block_settings = set_block_settings;
    get_block_settings = get_block_settings;
  }
