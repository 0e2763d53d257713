-- ===== src/Runtime/Gr4/Streams.antt =====
-- The methods of src/runtime/gr4_runtime_manager.cpp that read the streams of a running session.
use gr4_control_plane.Prelude.{
  String, ◌<>◌, ◌==◌, string_eq, if◌then◌else◌, Bool, true, false, not, ◌&&◌, Option, none, some,
  List, [], ◌∷◌, map,
}
use gr4_control_plane.Prelude.Dict
use gr4_control_plane.Errors.{Result, ok, err, M}
use gr4_control_plane.Pmt.{Pmt}
use gr4_control_plane.Domain.Session.{Session}
use gr4_control_plane.Domain.Stream.{StreamRuntimePlan, InternalStreamBinding, RuntimeStreamBinding}
use gr4_control_plane.Runtime.Manager.{HttpStreamResponse, WebSocketStreamRoute}
use gr4_control_plane.Runtime.Stub.{is_websocket}
use gr4_control_plane.Runtime.Gr4.{
  is_running, StreamAnswer, GnuRadio, Execution, SessionRuntimeResources, Gr4RuntimeManager,
}
use gr4_control_plane.Runtime.Gr4.Steps.{runtime_failure}

-- The first binding that `std::ranges::find_if` finds, by its stream id and whether it is a websocket.
unfoldable pub find_stream :
    Bool → String → List RuntimeStreamBinding → Option InternalStreamBinding
find_stream websocket stream_id [] = none
find_stream websocket stream_id (b ∷ bs) =
    if b.plan.stream_id == stream_id
      && (if websocket then is_websocket b.plan else not (is_websocket b.plan))
    then some b.internal
    else find_stream websocket stream_id bs

abbrev pub plan_of_bindings : List RuntimeStreamBinding → Option StreamRuntimePlan
plan_of_bindings [] = none
plan_of_bindings (b ∷ bs) = some (record { streams = map (λ x. x.plan) (b ∷ bs) })

abbrev found_or :
    Session → String → String → Option InternalStreamBinding → Result InternalStreamBinding
found_or session phase stream_id none =
    err (
      runtime_failure session phase ("stream not found in active runtime resources: " <> stream_id))
found_or session phase stream_id (some internal) = ok internal

abbrev content_type_or : String → String
content_type_or type = if type == "" then "application/octet-stream" else type

module _ {p : Pmt} (g : GnuRadio p) where
  abbrev runs : Option (Execution g) → Bool
  runs none = false
  runs (some execution) = execution.running

  -- The test at the head of every method that needs a running session.
  unfoldable pub is_active : SessionRuntimeResources g → Bool
  is_active r = runs r.execution && is_running r.lifecycle_phase

  -- The resources of a running session.
  unfoldable pub active_resources :
      String → Gr4RuntimeManager g → Option (SessionRuntimeResources g)
  unfolding is_active
  active_resources id rm = elim (Dict.lookup id rm.resources) [
    | none ↦ none
    | some r ↦ if is_active r then some r else none
  ]

  unfoldable pub active_stream_plan : Session → M (Gr4RuntimeManager g) (Option StreamRuntimePlan)
  unfolding active_resources
  active_stream_plan session rm = (
    ok (elim (active_resources session.id rm) [
      | none ↦ none
      | some r ↦ plan_of_bindings r.stream_bindings
    ]),
    rm,
  )

  -- The binding of a stream of a running session, or what the method throws.
  unfoldable pub active_stream :
      Bool → Session → String → String → Gr4RuntimeManager g → Result InternalStreamBinding
  unfolding active_resources find_stream
  active_stream websocket session phase stream_id rm = elim (active_resources session.id rm) [
    | none ↦ err (runtime_failure session phase "session runtime is not running")
    | some r ↦ found_or session phase stream_id (find_stream websocket stream_id r.stream_bindings)
  ]

  abbrev response_of :
      Session → Option StreamAnswer × g.State → M (Gr4RuntimeManager g) HttpStreamResponse
  response_of session (none, n) rm = (
    err (runtime_failure session "stream fetch" "failed to reach internal HTTP stream endpoint"),
    record rm { shared = record rm.shared { gnuradio = n } },
  )
  response_of session (some answer, n) rm = (
    ok (record {
      status = answer.status;
      body = answer.body;
      content_type = content_type_or answer.content_type;
    }),
    record rm { shared = record rm.shared { gnuradio = n } },
  )

  abbrev fetch_from :
      Session → Result InternalStreamBinding → M (Gr4RuntimeManager g) HttpStreamResponse
  fetch_from session (err e) rm = (err e, rm)
  fetch_from session (ok internal) rm =
      response_of session (g.http_get internal.host internal.port internal.path rm.shared.gnuradio)
        rm

  unfoldable pub fetch_http_stream : Session → String → M (Gr4RuntimeManager g) HttpStreamResponse
  unfolding active_stream
  fetch_http_stream session stream_id rm =
      fetch_from session (active_stream false session "stream fetch" stream_id rm) rm

  abbrev route_of : Result InternalStreamBinding → Result WebSocketStreamRoute
  route_of (err e) = err e
  route_of (ok internal) = ok (record { internal = internal })

  unfoldable pub resolve_websocket_stream :
      Session → String → M (Gr4RuntimeManager g) WebSocketStreamRoute
  unfolding active_stream
  resolve_websocket_stream session stream_id rm =
      (route_of (active_stream true session "websocket route" stream_id rm), rm)
