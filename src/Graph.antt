-- ===== src/Graph.antt =====
-- The code property graph under construction: lib/ProtoWriter/CPGProtoNode.cpp and
-- lib/ProtoWriter/CPGProtoBuilder.cpp. A node is known by its key, which is at least 1.
use llvm2cpg.Prelude.{
  ℕ, suc, String, Bool, Option, none, some, List, [], ◌∷◌, ◌++◌, ◌==◌, if◌then◌else◌,
}

-- cpg::CpgStruct_Node_NodeType
pub data NodeType : Type 0 where
  meta_data file namespace_block method method_inst method_return type_decl type block : NodeType
  return literal unknown method_parameter_in call local identifier field_identifier : NodeType
  method_ref binding member : NodeType

-- cpg::CpgStruct_Edge_EdgeType
pub data EdgeType : Type 0 where
  ast cfg ref receiver argument binds : EdgeType

-- One constructor for each setter of CPGProtoNode: its property name, with the value it stores.
pub data Property : Type 0 where
  language version name canonical_name full_name type_decl_full_name : String → Property
  ast_parent_type ast_parent_full_name signature type_full_name code : String → Property
  evaluation_strategy dispatch_type method_inst_full_name method_full_name : String → Property
  inherits_from_type_full_name dynamic_type_hint_full_name alias_type_full_name : String → Property
  filename : String → Property
  policy_directories : List String → Property
  is_external : Bool → Property
  order argument_index line_number column_number : ℕ → Property

-- `properties` in the order in which they were added; `entry` is 0 until it is set.
pub record Node : Type 0 where
  pub type : NodeType
  pub properties : List Property
  pub entry : ℕ

-- An edge with its source and its destination.
pub data Edge : Type 0 where
  edge : EdgeType → ℕ → ℕ → Edge

-- The nodes are those with keys below `node_id`; the newest edge stands first.
pub record Graph : Type 0 where
  pub node_id : ℕ
  pub nodes : ℕ → Node
  pub edges : List Edge

abbrev blank : NodeType → Node
blank t = record { type = t; properties = []; entry = 0 }

-- CPGProtoBuilder()
abbrev pub empty : Graph
empty = record { node_id = 1; nodes = λ _. blank unknown; edges = [] }

abbrev pub update : (ℕ → Node) → ℕ → Node → ℕ → Node
update nodes k node j = if j == k then node else nodes j

-- The node gets the key that the graph's `node_id` was.
unfoldable pub new_node : NodeType → Graph → Graph
new_node t g = record g { node_id = suc g.node_id; nodes = update g.nodes g.node_id (blank t) }

-- A chain of setters on one node. Every call adds a property, also where one of that name is there.
unfoldable pub set_properties : ℕ → List Property → Graph → Graph
set_properties k ps g =
    let node = g.nodes k in
    record g { nodes = update g.nodes k (record node { properties = node.properties ++ ps }) }

unfoldable pub set_entry : ℕ → ℕ → Graph → Graph
set_entry k e g = record g { nodes = update g.nodes k (record (g.nodes k) { entry = e }) }

unfoldable pub connect : EdgeType → ℕ → ℕ → Graph → Graph
connect t from to g = record g { edges = edge t from to ∷ g.edges }

-- The value of the first property named CODE.
unfoldable pub find_code : List Property → Option String
find_code [] = none
find_code (code text ∷ ps) = some text
find_code (_ ∷ ps) = find_code ps

-- Without a code the assertion of getCode fails; a build without assertions returns "no code".
unfoldable pub get_code : Graph → ℕ → String
unfolding find_code
get_code g k = elim (find_code (g.nodes k).properties) [ some text ↦ text | none ↦ "no code" ]

unfoldable pub get_entry : Graph → ℕ → ℕ
get_entry g k = (g.nodes k).entry
