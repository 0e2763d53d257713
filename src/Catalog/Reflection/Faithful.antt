-- ===== src/Catalog/Reflection/Faithful.antt =====
-- What the forked process and the JSON between the processes leave of what is reflected.
use gr4_control_plane.Prelude.{
  String, ◌<>◌, string_eq, nat_eq, Option, none, some, List, [], ◌∷◌, ◌++◌, ◌≡◌, ◌≢◌, refl, ap, ◌∙◌,
  arith, All,
}
use gr4_control_plane.Errors.{catalog_load_error, Result, ok, err, then_ok}
use gr4_control_plane.Pmt.{Pmt}
use gr4_control_plane.Domain.Catalog.{BlockDescriptor}
use gr4_control_plane.Catalog.Wire.Blocks.{block_to_json}
use gr4_control_plane.Catalog.Wire.RoundTrip.{IsWritable, parse_block-block_to_json}
use gr4_control_plane.Catalog.Reflection.Values.{Queries}
use gr4_control_plane.Catalog.Reflection.Writable.{describe-IsWritable}
use gr4_control_plane.Catalog.Reflection.Blocks.{
  BlockModel, PluginLoader, Platform, exited, reflect_block, reflect_block_in_subprocess,
  reflect_all, answer_of, or_earlier, kept_or_thrown, describe, parse_block_descriptor,
  instantiate_from_retained_loaders,
}
use gr4_control_plane.Catalog.Reflection.Provider.{list, list_with, list_ids, all_blocks}

module _ {D : Type 0} (os : Platform D) (id : String) where
  -- The process that reflects a block can be forked and read, and its text, not empty, is parsed to the
  -- value that it was written from; or it exits with 2.
  abbrev pub IsCarried : Result (BlockDescriptor D) → Type 0
  IsCarried (ok block) =
      (payload : String) × (payload ≢ "")
      × (os.dump (block_to_json block) ≡ ok payload)
      × (os.run id (ok payload) ≡ exited 0 payload)
      × (os.parse payload ≡ ok (block_to_json block))
  IsCarried (err e) = os.run id (err e) ≡ exited 2 ""

abbrev pub reflected_of :
    {D : Type 0} → Result (BlockDescriptor D) → List (BlockDescriptor D) → List (BlockDescriptor D)
reflected_of (ok block) blocks = block ∷ blocks
reflected_of (err e) blocks = blocks

-- The blocks that are reflected, in the order of the ids.
abbrev pub reflected :
    {D : Type 0} → (String → Result (BlockDescriptor D)) → List String → List (BlockDescriptor D)
reflected reflect [] = []
reflected reflect (id ∷ ids) = reflected_of (reflect id) (reflected reflect ids)

abbrev IsWritableOk : {D : Type 0} → Result (BlockDescriptor D) → Type 0
IsWritableOk (ok block) = IsWritable block
IsWritableOk (err e) = Unit {0}

module _ {D : Type 0} (os : Platform D) where
  -- What comes of the process agrees with what it reflects.
  unfoldable Agrees : Result (BlockDescriptor D) → Result (BlockDescriptor D) → Type 0
  Agrees (ok block) answer = answer ≡ ok block
  Agrees (err e) answer = (message : String) × (answer ≡ err (catalog_load_error message))

  parse_block_descriptor-written :
      (block : BlockDescriptor D) (payload : String)
      → IsWritable block
      → os.parse payload ≡ ok (block_to_json block)
      → parse_block_descriptor os payload ≡ ok block
  unfolding parse_block_descriptor
  parse_block_descriptor-written block payload w h = rw h (parse_block-block_to_json D block w)

  answer_of-ok :
      (id : String) (block : BlockDescriptor D) (payload : String)
      → payload ≢ ""
      → parse_block_descriptor os payload ≡ ok block
      → answer_of os id (exited 0 payload) ≡ ok block
  unfolding answer_of
  answer_of-ok id block payload n h = ground (arith, h)

  answer_of-Agrees :
      (id : String) (r : Result (BlockDescriptor D))
      → IsWritableOk r
      → IsCarried os id r
      → Agrees r (answer_of os id (os.run id (then_ok r λ block. os.dump (block_to_json block))))
  unfolding answer_of Agrees
  answer_of-Agrees id (ok block) w (payload, full, written, run, read) =
      rw (written, run)
        (answer_of-ok id block payload full (parse_block_descriptor-written block payload w read))
  answer_of-Agrees id (err e) w run =
      ("GNU Radio 4 block reflection failed for block: " <> id, rw run (ground arith))

  kept_or_thrown-Agrees :
      (r answer : Result (BlockDescriptor D)) (blocks : List (BlockDescriptor D))
      → Agrees r answer
      → kept_or_thrown os answer (ok blocks) ≡ ok (reflected_of r blocks)
  unfolding Agrees
  kept_or_thrown-Agrees (ok block) answer blocks h = rw h refl
  kept_or_thrown-Agrees (err e) answer blocks (message, h) = rw h refl

  module _ (reflect : String → Result (BlockDescriptor D))
      (w : (id : String) → IsWritableOk (reflect id)) where
    reflect_all-reflected :
        (ids : List String)
        → All (λ id. IsCarried os id (reflect id)) ids
        → reflect_all os reflect ids ≡ ok (reflected reflect ids)
    unfolding reflect_all reflect_block_in_subprocess
    reflect_all-reflected [] h = refl
    reflect_all-reflected (id ∷ ids) (c, h) =
        ap
          (kept_or_thrown os (
            answer_of os id
              (os.run id (then_ok (reflect id) λ block. os.dump (block_to_json block)))))
          (reflect_all-reflected ids h)
        ∙ kept_or_thrown-Agrees (reflect id) _ (reflected reflect ids)
            (answer_of-Agrees id (reflect id) (w id) c)

module _ (p : Pmt) (q : Queries p.Value) (registry : String → Option (BlockModel p.Value))
    (pool : List (PluginLoader p.Value)) where
  reflect_block-IsWritableOk : (id : String) → IsWritableOk (reflect_block p q registry pool id)
  unfolding reflect_block
  reflect_block-IsWritableOk id =
      of_model (or_earlier (instantiate_from_retained_loaders pool id) (registry id))
    where
      of_model :
          (o : Option (BlockModel p.Value))
          → IsWritableOk (elim o [
            | none ↦
                err (
                  catalog_load_error
                    ("failed to instantiate GNU Radio 4 block for catalog: " <> id))
            | some block ↦ ok (describe p q id block)
          ])
      of_model none = tt
      of_model (some block) = describe-IsWritable p q id block

module _ (p : Pmt) (q : Queries p.Value) (os : Platform p.Double)
    (registry : String → Option (BlockModel p.Value)) (directory : String)
    (directories keys : List String) (loader : PluginLoader p.Value)
    (pool : List (PluginLoader p.Value)) where
  list_ids-reflected :
      (ids : List String) (block : BlockDescriptor p.Double)
      (blocks : List (BlockDescriptor p.Double))
      → let reflect = reflect_block p q registry (pool ++ (loader ∷ [])) in
        All (λ id. IsCarried os id (reflect id)) ids
        → reflected reflect ids ≡ block ∷ blocks
        → list_ids p q os registry ids (pool ++ (loader ∷ [])) ≡ ok (block ∷ blocks)
  list_ids-reflected [] block blocks h some_block = cc
  list_ids-reflected (id ∷ ids) block blocks h some_block =
      let reflect = reflect_block p q registry (pool ++ (loader ∷ [])) in
      let written =
        reflect_all-reflected os reflect
          (reflect_block-IsWritableOk p q registry (pool ++ (loader ∷ []))) (id ∷ ids) h in
      rw (written ∙ ap ok some_block) refl

  -- If the plugins load, and for each id the process either exits with 2, where the block cannot be
  -- reflected, or can be forked and read and its text, not empty, is parsed to the value that it was
  -- written from (which fails for a number that JSON cannot hold, such as a default that is not
  -- finite), the list has what is reflected of each id of the registry and the loaders, in order of
  -- the ids, without those that cannot be reflected, if there is any block; and the loader is retained.
  pub list-reflected :
      (block : BlockDescriptor p.Double) (blocks : List (BlockDescriptor p.Double))
      → loader.failed_plugins ≡ []
      → let reflect = reflect_block p q registry (pool ++ (loader ∷ [])) in
        let ids = all_blocks p q os registry keys (pool ++ (loader ∷ [])) in
        All (λ id. IsCarried os id (reflect id)) ids
        → reflected reflect ids ≡ block ∷ blocks
        → list p q os registry (directory ∷ directories) (ok loader) keys pool
          ≡ (ok (block ∷ blocks), pool ++ (loader ∷ []))
  unfolding list
  list-reflected block blocks loads carried some_block =
      ap (λ failed. list_with p q os registry failed keys loader pool) loads
      ∙ ap (λ r. (r, pool ++ (loader ∷ [])))
          (list_ids-reflected (all_blocks p q os registry keys (pool ++ (loader ∷ []))) block blocks
            carried some_block)
