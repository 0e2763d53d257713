-- ===== src/Runtime/Gr4/Graph/Injection.antt =====
-- `inject_stream_bindings` of src/runtime/gr4_runtime_manager.cpp.
use gr4_control_plane.Prelude.{
  String, ◌==◌, string_eq, nat_eq, if◌then◌else◌, Bool, true, false, Option, none, some, List, [],
  ◌∷◌, contains, length,
}
use gr4_control_plane.Prelude.Dict.{lookup, insert}
use gr4_control_plane.Errors.{std_exception, Result, ok, err}
use gr4_control_plane.Pmt.{Pmt, PmtWriter, as_map}
use gr4_control_plane.Domain.Stream.{RuntimeStreamBinding}
use gr4_control_plane.Domain.Stream.Normalize.{has_text, value_or, has_key, parameter_string}
use gr4_control_plane.Runtime.Gr4.Graph.Values.{Block, map_under, tensor_under}

module _ {p : Pmt} (w : PmtWriter p) where
  abbrev name_for_injection : Block p → Block p → Option String
  name_for_injection block parameters =
      let name = parameter_string p parameters "name" in
      if has_text name
      then name
      else if has_key p (lookup "instance_name" block)
      then parameter_string p block "instance_name"
      else name

  unfoldable pub find_binding : String → List RuntimeStreamBinding → Option RuntimeStreamBinding
  find_binding name [] = none
  find_binding name (b ∷ bs) =
      if b.plan.block_instance_name == name then some b else find_binding name bs

  -- The binding whose endpoint the loop writes into a block, if there is one.
  unfoldable pub binding_for : List RuntimeStreamBinding → Block p → Option RuntimeStreamBinding
  unfolding find_binding parameter_string
  binding_for bindings block =
      let name = name_for_injection block (map_under p "parameters" block) in
      if has_text name then find_binding (value_or "" name) bindings else none

  abbrev with_endpoint : RuntimeStreamBinding → Block p → Block p
  with_endpoint b block =
      insert "parameters"
        (w.of_map
          (insert "endpoint" (w.of_text b.internal.endpoint) (map_under p "parameters" block)))
        block

  -- The blocks, the stream ids injected, and whether a block has changed.
  pub record Injection : Type 0 where
    pub blocks : List p.Value
    pub injected_stream_ids : List String
    pub changed : Bool

  abbrev keep_block : p.Value → Injection → Injection
  keep_block value rest = record rest { blocks = value ∷ rest.blocks }

  abbrev insert_id : String → List String → List String
  insert_id id ids = if contains ids id then ids else id ∷ ids

  abbrev inject_into :
      p.Value → Option (Block p) → Option RuntimeStreamBinding → Injection → Injection
  inject_into value (some block) (some b) rest = record {
    blocks = w.of_map (with_endpoint b block) ∷ rest.blocks;
    injected_stream_ids = insert_id b.plan.stream_id rest.injected_stream_ids;
    changed = true;
  }
  inject_into value _ _ rest = keep_block value rest

  abbrev binding_for_value :
      List RuntimeStreamBinding → Option (Block p) → Option RuntimeStreamBinding
  binding_for_value bindings none = none
  binding_for_value bindings (some block) = binding_for bindings block

  -- The loop over the blocks. The set of ids is kept without an order.
  unfoldable pub inject_blocks : List RuntimeStreamBinding → List p.Value → Injection
  unfolding binding_for
  inject_blocks bindings [] = record { blocks = []; injected_stream_ids = []; changed = false }
  inject_blocks bindings (value ∷ values) =
      let block = as_map (p.visit value) in
      inject_into value block (binding_for_value bindings block) (inject_blocks bindings values)

  abbrev injected : List RuntimeStreamBinding → Block p → Injection → Result (Bool × Block p)
  injected bindings root i =
      if length i.injected_stream_ids == length bindings
      then ok (i.changed, insert "blocks" (w.of_tensor i.blocks) root)
      else err (std_exception "failed to inject all managed stream bindings into runtime graph")

  unfoldable pub inject_stream_bindings :
      Block p → List RuntimeStreamBinding → Result (Bool × Block p)
  unfolding inject_blocks
  inject_stream_bindings root [] = ok (false, root)
  inject_stream_bindings root (b ∷ bs) = elim (tensor_under p "blocks" root) [
    | none ↦ ok (false, root)
    | some values ↦ injected (b ∷ bs) root (inject_blocks (b ∷ bs) values)
  ]
