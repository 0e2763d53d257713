-- ===== src/Runtime/Gr4/Graph.antt =====
-- The functions of src/runtime/gr4_runtime_manager.cpp that rewrite the authored graph before GNU Radio
-- loads it. What they change in place is returned, with whether it differs.
pub mod Values
pub mod Connections
pub mod Blocks
pub mod Injection
pub mod Stable
use gr4_control_plane.Prelude.{
  ℕ, zero, suc, String, ◌<>◌, ◌==◌, string_eq, nat_eq, if◌then◌else◌, ltb, Bool, true, false, not,
  ◌&&◌, ◌||◌, Option, none, some, List, [], ◌∷◌, contains, length,
}
use gr4_control_plane.Prelude.Int.{ℤ, pos}
use gr4_control_plane.Prelude.Bytes.{size, starts_with, split_last, is_digit}
use gr4_control_plane.Prelude.Dict.{Dict, lookup, insert}
use Prim.Native.Char.{code}
use Prim.Native.Nat.{◌+◌, ◌*◌, ◌-◌}
use gr4_control_plane.Errors.{std_exception, Result, ok, err}
use gr4_control_plane.Pmt.{Pmt, PmtWriter, as_string, as_map, as_tensor}
use gr4_control_plane.Domain.Stream.{RuntimeStreamBinding}
use gr4_control_plane.Domain.Stream.Normalize.{
  has_text, value_or, has_key, add_missing, parameter_string,
}
use gr4_control_plane.Errors.{then_ok}
use gr4_control_plane.Runtime.Gr4.Graph.Values.{Block, map_under, tensor_under}
use gr4_control_plane.Runtime.Gr4.Graph.Connections.{normalize_connections}
use gr4_control_plane.Runtime.Gr4.Graph.Blocks.{normalize_blocks}
use gr4_control_plane.Runtime.Gr4.Graph.Injection.{inject_stream_bindings}

module _ {p : Pmt} (w : PmtWriter p) where
  abbrev with_blocks : Option (List p.Value) → Block p → Bool × Block p
  with_blocks none root = (false, root)
  with_blocks (some values) root =
      let (changed, values') = normalize_blocks w values in
      (changed, insert "blocks" (w.of_tensor values') root)

  abbrev with_connections : Option (List p.Value) → Block p → Result (Bool × Block p)
  with_connections none root = ok (false, root)
  with_connections (some values) root =
      then_ok (normalize_connections w values)
        λ result. ok (result.0, insert "connections" (w.of_tensor result.1) root)

  -- The three passes over the graph, and whether any of them changed it.
  unfoldable pub normalize_root : Block p → List RuntimeStreamBinding → Result (Bool × Block p)
  unfolding normalize_blocks normalize_connections inject_stream_bindings
  normalize_root root bindings =
      let (changed, root') = with_blocks (tensor_under p "blocks" root) root in
      then_ok (with_connections (tensor_under p "connections" root') root') λ connected.
        then_ok (inject_stream_bindings w connected.1 bindings)
          λ bound. ok (bound.0 || connected.0 || changed, bound.1)

  abbrev content_of : String → Bool × Block p → String
  content_of content (changed, root) = if changed then w.serialize root else content

  unfoldable pub normalize_graph_content : String → List RuntimeStreamBinding → Result String
  unfolding normalize_root
  normalize_graph_content content bindings = elim (p.deserialize content) [
    | none ↦ ok content
    | some root ↦ then_ok (normalize_root root bindings) λ result. ok (content_of content result)
  ]
