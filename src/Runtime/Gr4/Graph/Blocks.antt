-- ===== src/Runtime/Gr4/Graph/Blocks.antt =====
-- `normalize_block` of src/runtime/gr4_runtime_manager.cpp.
use gr4_control_plane.Prelude.{
  String, ◌==◌, string_eq, nat_eq, if◌then◌else◌, Bool, false, not, ◌||◌, Option, none, some, List,
  [], ◌∷◌,
}
use gr4_control_plane.Prelude.Dict.{lookup, insert}
use gr4_control_plane.Pmt.{Pmt, PmtWriter, as_map}
use gr4_control_plane.Domain.Stream.Normalize.{has_key, add_missing, parameter_string}
use gr4_control_plane.Runtime.Gr4.Graph.Values.{Block, map_under}

module _ {p : Pmt} (w : PmtWriter p) where
  -- `block[key] = text` if there is a text that is not empty.
  abbrev write_text : String → Option String → Block p → Block p
  write_text key none block = block
  write_text key (some s) block = if s == "" then block else insert key (w.of_text s) block

  -- The type of the block, under "id".
  unfoldable pub with_block_type : Block p → Block p
  unfolding parameter_string
  with_block_type block =
      let typed = write_text "id" (parameter_string p block "block") block in
      if has_key p (lookup "id" typed)
      then typed
      else write_text "id" (parameter_string p typed "block_type") typed

  abbrev first_text : Option String → Option String → Option String
  first_text (some s) other = if s == "" then other else some s
  first_text none other = other

  -- The name of a block whose parameters have none: the id that it had, or what stands under
  -- "instance_name" or "name".
  abbrev with_name : Option String → Block p → Block p → Block p
  with_name studio_node_id block parameters =
      let named = write_text "name" studio_node_id parameters in
      let candidate =
        first_text (parameter_string p block "instance_name") (parameter_string p block "name") in
      if has_key p (lookup "name" parameters)
      then parameters
      else if has_key p (lookup "name" named)
      then named
      else write_text "name" candidate named

  abbrev write_parameters : Block p → Block p → Block p
  write_parameters [] block = block
  write_parameters (entry ∷ entries) block = insert "parameters" (w.of_map (entry ∷ entries)) block

  unfoldable pub normalize_block : Block p → Block p
  unfolding with_block_type parameter_string add_missing
  normalize_block block =
      let studio_node_id = parameter_string p block "id" in
      let typed = with_block_type block in
      let merged =
        add_missing p (map_under p "parameters" typed) (map_under p "raw_parameters" typed) in
      write_parameters (with_name studio_node_id typed merged) typed

  abbrev normalize_block_value : Option (Block p) → p.Value → Bool × p.Value
  normalize_block_value none value = (false, value)
  normalize_block_value (some block) value =
      (not (w.same_map (normalize_block block) block), w.of_map (normalize_block block))

  unfoldable pub normalize_blocks : List p.Value → Bool × List p.Value
  unfolding normalize_block
  normalize_blocks [] = (false, [])
  normalize_blocks (value ∷ values) =
      let (changed, value') = normalize_block_value (as_map (p.visit value)) value in
      let (changed', values') = normalize_blocks values in (changed || changed', value' ∷ values')
