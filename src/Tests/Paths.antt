-- ===== src/Tests/Paths.antt =====
-- Paths of streams, and what is read in them.
use gr4_control_plane.Prelude.{◌≡◌, refl, nat_eq, string_eq, some, arith}
use gr4_control_plane.Errors.{ok}
use gr4_control_plane.Domain.Stream.Contract.{make_stream_path}
use gr4_control_plane.Api.Targets.{to_bytes, decode_percent_encoded, parse_websocket_stream_target}
use gr4_control_plane.Api.Routing.{is_plain, parse_websocket_stream_target-make_stream_path}

parse_websocket_stream_target-make_stream_path_example :
    parse_websocket_stream_target (to_bytes (make_stream_path "sess_1" "rx/fft" "websocket"))
    ≡ ok (some (to_bytes "sess_1", to_bytes "rx/fft"))
unfolding to_bytes is_plain nat_eq
parse_websocket_stream_target-make_stream_path_example =
    parse_websocket_stream_target-make_stream_path "sess_1" "rx/fft" (omega arith) refl refl
      (omega arith) refl

-- The path of a stream with a plus is read as another stream's.
plus_is_lost :
    parse_websocket_stream_target (to_bytes (make_stream_path "a" "i+q" "websocket"))
    ≡ ok (some (to_bytes "a", to_bytes "i q"))
unfolding parse_websocket_stream_target make_stream_path to_bytes string_eq nat_eq
plus_is_lost = refl

percent_decoded : decode_percent_encoded (to_bytes "a%2fb+c%") ≡ ok (to_bytes "a/b c%")
unfolding decode_percent_encoded to_bytes nat_eq
percent_decoded = refl
