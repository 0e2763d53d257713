-- ===== src/Domain/Stream/Plans.antt =====
-- The derived plan against its contract.
use gr4_control_plane.Prelude.{
  String, ◌≡◌, ◌≢◌, refl, subst, ◌∙◌, string_eq, contains, true, false, Option, none, some, List,
  [], ◌∷◌, ◌++◌, map, arith, All, Option-cases, inl, inr,
}
use mathlib.Core.List.{append-nil, append_assoc}
use gr4_control_plane.Pmt.{Pmt}
use gr4_control_plane.Domain.Session.{Session}
use gr4_control_plane.Domain.Stream.{RuntimeStreamBindingPlan, StreamRuntimePlan}
use gr4_control_plane.Domain.Stream.Normalize.{NormalizedBlock}
use gr4_control_plane.Domain.Stream.Contract.{
  transport_supported, make_stream_path, stream_id_of, validate_stream_block, plan_of,
  declared_block, graph_blocks, derive_streams, derive_stream_runtime_plan, validate_blocks,
  validate_stream_runtime_contract,
}

module _ (p : Pmt) where
  -- The blocks that declare a stream, in the graph's order.
  pub declared_blocks : List p.Value → List NormalizedBlock
  declared_blocks [] = []
  declared_blocks (value ∷ values) = elim (declared_block p value) [
    | none ↦ declared_blocks values
    | some block ↦ block ∷ declared_blocks values
  ]

  abbrev unless {ℓ} : {A : Type ℓ} → Option String → A → Option A
  unless none a = some a
  unless (some _) a = none

  -- The loop collects the plan of each declared block, unless the contract is broken.
  derive_streams-validate_blocks :
      (id : String) (values : List p.Value) (seen : List String)
      (streams : List RuntimeStreamBindingPlan)
      → derive_streams p id values seen streams
        ≡ unless
            (validate_blocks p values seen)
            (streams ++ map (plan_of id) (declared_blocks values))
  unfolding derive_streams validate_blocks declared_blocks
  derive_streams-validate_blocks id [] seen streams = rw append-nil
  derive_streams-validate_blocks id (value ∷ values) seen streams =
      elim (Option-cases (declared_block p value)) [
        | inl e ↦
            rw (e, derive_streams, validate_blocks, declared_blocks)
              (derive_streams-validate_blocks id values seen streams)
        | inr (block, e) ↦ elim (Option-cases (validate_stream_block block seen).0) [
          | inr (message, q) ↦ rw (e, q, derive_streams, validate_blocks, declared_blocks) refl
          | inl q ↦
              rw (e, q, derive_streams, validate_blocks, declared_blocks)
                (derive_streams-validate_blocks id values (validate_stream_block block seen).1
                    (streams ++ (plan_of id block ∷ []))
                  ∙ rw append_assoc)
        ]
      ]

  abbrev pub plan_of_blocks : String → List NormalizedBlock → Option StreamRuntimePlan
  plan_of_blocks id [] = none
  plan_of_blocks id (block ∷ blocks) = some (record { streams = map (plan_of id) (block ∷ blocks) })

  -- For a session whose graph has a list of blocks, a broken contract gives no plan. A contract
  -- that holds gives the plan of each block that declares a stream, in the graph's order, or none
  -- if no block does.
  pub derive-validate :
      (session : Session) (values : List p.Value)
      → graph_blocks p session ≡ some values
      → derive_stream_runtime_plan p session ≡ elim (validate_stream_runtime_contract p session) [
        | some _ ↦ none
        | none ↦ plan_of_blocks session.id (declared_blocks values)
      ]
  unfolding derive_stream_runtime_plan validate_stream_runtime_contract declared_blocks
  derive-validate session values e =
      ground (arith, derive_streams-validate_blocks session.id values [] [])

  declared_block-declared :
      (value : p.Value) (block : NormalizedBlock)
      → declared_block p value ≡ some block
      → block.stream.declared ≡ true
  unfolding declared_block
  declared_block-declared value block e = ground arith

-- What the contract asks of one stream.
pub record IsWellFormed (session_id : String) (s : RuntimeStreamBindingPlan) : Type 0 where
  pub named : s.block_instance_name ≢ ""
  pub has_id : s.stream_id ≢ ""
  pub supported : transport_supported s.transport ≡ true
  pub has_format : s.payload_format ≢ ""
  pub at_path : s.path ≡ make_stream_path session_id s.stream_id s.transport
  pub is_ready : s.ready ≡ true

-- No stream has an id of `seen`, or that of an earlier one.
abbrev pub Fresh : List String → List RuntimeStreamBindingPlan → Type 0
Fresh seen [] = Unit
Fresh seen (s ∷ ss) = (contains seen s.stream_id ≡ false) × Fresh (s.stream_id ∷ seen) ss

validate_stream_block-valid :
    (id : String) (block : NormalizedBlock) (seen : List String)
    → block.stream.declared ≡ true
    → (validate_stream_block block seen).0 ≡ none
    → IsWellFormed id (plan_of id block)
unfolding validate_stream_block plan_of
validate_stream_block-valid id block seen d e = ground arith

validate_stream_block-seen :
    (block : NormalizedBlock) (seen : List String)
    → block.stream.declared ≡ true
    → (validate_stream_block block seen).0 ≡ none
    → (contains seen (stream_id_of block) ≡ false)
      × ((validate_stream_block block seen).1 ≡ stream_id_of block ∷ seen)
unfolding validate_stream_block
validate_stream_block-seen block seen d e = ground arith

module _ (p : Pmt) (id : String) where
  abbrev Valid : List p.Value → List String → Type 0
  Valid values seen =
      All (IsWellFormed id) (map (plan_of id) (declared_blocks p values))
      × Fresh seen (map (plan_of id) (declared_blocks p values))

  validate_blocks-Valid :
      (values : List p.Value) (seen : List String)
      → validate_blocks p values seen ≡ none
      → Valid values seen
  unfolding validate_blocks declared_blocks plan_of
  validate_blocks-Valid [] seen h = (tt, tt)
  validate_blocks-Valid (value ∷ values) seen h = elim (Option-cases (declared_block p value)) [
    | inl e ↦
        let rest : validate_blocks p values seen ≡ none = ground arith in
        rw (e, declared_blocks) (validate_blocks-Valid values seen rest)
    | inr (block, e) ↦
        let d : block.stream.declared ≡ true = declared_block-declared p value block e in
        let valid : (validate_stream_block block seen).0 ≡ none = ground arith in
        let (new, grown) = validate_stream_block-seen block seen d valid in
        let rest : validate_blocks p values (stream_id_of block ∷ seen) ≡ none = ground arith in
        let (wf, fresh) = validate_blocks-Valid values (stream_id_of block ∷ seen) rest in
        rw (e, declared_blocks)
          ((validate_stream_block-valid id block seen d valid, wf), (new, fresh))
  ]

module _ (p : Pmt) where
  plan_of_blocks-streams :
      (id : String) (blocks : List NormalizedBlock) (plan : StreamRuntimePlan)
      → plan_of_blocks p id blocks ≡ some plan
      → map (plan_of id) blocks ≡ plan.streams
  plan_of_blocks-streams id [] plan h = cc
  plan_of_blocks-streams id (b ∷ bs) plan h = ground arith

  valid_of_streams :
      (id : String) (xs ys : List RuntimeStreamBindingPlan)
      → xs ≡ ys
      → All (IsWellFormed id) xs × Fresh [] xs
      → All (IsWellFormed id) ys × Fresh [] ys
  valid_of_streams id xs ys e = subst (λ zs. All (IsWellFormed id) zs × Fresh [] zs) e

  -- In the plan of a session every stream has a block name, an id, a supported transport, a payload
  -- format and the path of its id and transport, and is ready; and no two streams have one id.
  pub derive_stream_runtime_plan-valid :
      (session : Session) (plan : StreamRuntimePlan)
      → derive_stream_runtime_plan p session ≡ some plan
      → All (IsWellFormed session.id) plan.streams × Fresh [] plan.streams
  unfolding derive_stream_runtime_plan
  derive_stream_runtime_plan-valid session plan h = elim (Option-cases (graph_blocks p session)) [
    | inl e ↦ absurd (ground arith)
    | inr (values, e) ↦ elim (Option-cases (validate_blocks p values [])) [
      | inr (message, q) ↦
          absurd (ground (arith, derive_streams-validate_blocks p session.id values [] []))
      | inl q ↦
          valid_of_streams session.id _ _
            (plan_of_blocks-streams session.id (declared_blocks p values) plan
              (ground (arith, derive_streams-validate_blocks p session.id values [] [])))
            (validate_blocks-Valid p session.id values [] q)
    ]
  ]
