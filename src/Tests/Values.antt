-- ===== src/Tests/Values.antt =====
-- A small reader and writer of values, and a graph with one managed stream.
use gr4_control_plane.Prelude.{
  arith, ◌≡◌, refl, ap, String, ◌==◌, string_eq, nat_eq, Bool, true, false, ◌&&◌, ◌||◌, not, some,
  List, [], ◌∷◌,
}
use gr4_control_plane.Prelude.Int.{ℤ, pos, negsuc}
use gr4_control_plane.Prelude.Dict.{Dict}
use gr4_control_plane.Runtime.Gr4.Graph.Stable.{ReadsBack}
use gr4_control_plane.Pmt.{
  Pmt, PmtWriter, Shape, monostate, boolean, floating, integer, text, map, tensor,
}

mutual
  pub data Node : Type 0 where
    leaf : String → Node
    whole : ℤ → Node
    nothing real : Node
    truth : Bool → Node
    fields : Entries → Node
    items : Nodes → Node

  pub data Entries : Type 0 where
    no_entries : Entries
    entry : String → Node → Entries → Entries

  pub data Nodes : Type 0 where
    no_nodes : Nodes
    node : Node → Nodes → Nodes

abbrev pub to_dict : Entries → Dict String Node
to_dict no_entries = []
to_dict (entry k v es) = (k, v) ∷ to_dict es

abbrev pub to_list : Nodes → List Node
to_list no_nodes = []
to_list (node x xs) = x ∷ to_list xs

abbrev pub shape : Node → Shape Node (Unit {0})
shape (leaf s) = text s
shape (whole n) = integer n
shape nothing = monostate
shape real = floating tt
shape (truth b) = boolean b
shape (fields es) = map (to_dict es)
shape (items xs) = tensor (to_list xs)

-- A block with a stream of the given transport.
abbrev pub stream_block : String → String → Node
stream_block name transport = fields (
    entry "id" (leaf "gr::Sink") (
      entry "parameters"
        (fields (
          entry "name" (leaf name) (
            entry "stream"
              (fields (
                entry "transport" (leaf transport)
                  (entry "payload_format" (leaf "json") no_entries)))
              no_entries)))
        no_entries))

abbrev pub two_blocks : List Node
two_blocks = stream_block "a" "websocket" ∷ stream_block "b" "http_poll" ∷ []

abbrev pub graph : Dict String Node
graph =
    (
      "blocks",
      items (node (stream_block "a" "websocket") (node (stream_block "b" "http_poll") no_nodes)),
    )
    ∷ []

-- Every text is this graph.
abbrev pub reader : Pmt
reader = record { Value = Node; Double = Unit {0}; visit = shape; deserialize = λ _. some graph }

abbrev same_integer : ℤ → ℤ → Bool
same_integer (pos m) (pos n) = m == n
same_integer (negsuc m) (negsuc n) = m == n
same_integer _ _ = false

unfoldable mutual
  pub same : Node → Node → Bool
  same (leaf s) (leaf t) = s == t
  same (whole m) (whole n) = same_integer m n
  same nothing nothing = true
  same real real = true
  same (truth a) (truth b) = (a && b) || (not a && not b)
  same (fields es) (fields fs) = same_entries es fs
  same (items xs) (items ys) = same_nodes xs ys
  same _ _ = false

  pub same_entries : Entries → Entries → Bool
  same_entries no_entries no_entries = true
  same_entries (entry k v es) (entry l w fs) = k == l && same v w && same_entries es fs
  same_entries _ _ = false

  pub same_nodes : Nodes → Nodes → Bool
  same_nodes no_nodes no_nodes = true
  same_nodes (node x xs) (node y ys) = same x y && same_nodes xs ys
  same_nodes _ _ = false

abbrev pub of_dict : Dict String Node → Entries
of_dict [] = no_entries
of_dict ((k, v) ∷ d) = entry k v (of_dict d)

abbrev pub of_list : List Node → Nodes
of_list [] = no_nodes
of_list (x ∷ xs) = node x (of_list xs)

abbrev pub writer : PmtWriter reader
writer = record {
  of_null = nothing;
  of_boolean = truth;
  of_floating = λ _. real;
  of_text = leaf;
  of_integer = whole;
  of_map = λ d. fields (of_dict d);
  of_tensor = λ xs. items (of_list xs);
  same = same;
  same_map = λ d e. same_entries (of_dict d) (of_dict e);
  serialize = λ _. "graph";
}

to_list-of_list : (xs : List Node) → to_list (of_list xs) ≡ xs
to_list-of_list [] = refl
to_list-of_list (x ∷ xs) = ap (λ ys. x ∷ ys) (to_list-of_list xs)

pub writer-ReadsBack : ReadsBack writer
unfolding same
writer-ReadsBack = record {
  of_text-visit = λ s. refl;
  of_integer-visit = λ n. refl;
  of_tensor-visit = λ vs. ap tensor (to_list-of_list vs);
  of_text-same = λ s. ground arith;
}
