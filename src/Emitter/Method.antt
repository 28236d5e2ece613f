-- ===== src/Emitter/Method.antt =====
-- emitMethod: the nodes of a method, its blocks, and the edges of its control flow.
use text.Mathlib.Text.{◌==◌ as str_eq}
use llvm2cpg.Prelude.{
  ℕ, suc, String, Bool, true, false, Option, none, some, List, [], ◌∷◌, ◌++◌, ◌==◌, if◌then◌else◌,
}
use llvm2cpg.Types.{Ty, pointer, identified, literal_struct}
use llvm2cpg.Graph.{
  Graph, Property, ast, cfg, method, method_return, block, local, method_parameter_in, order,
  argument_index, code, full_name, ast_parent_type, ast_parent_full_name, is_external, signature,
  type_full_name, evaluation_strategy, dynamic_type_hint_full_name, line_number, connect, get_entry,
}
use llvm2cpg.Values.{Info}
use llvm2cpg.Emitter.State.{
  M, pure, gets, modify, create, set, ◌>>=◌, ◌>>◌, get_type_name, insert_local,
}
use llvm2cpg.Emitter.Block.{Terminator, returns, goes_to, Block, emit_block}

-- `subprogram` is the line and the name of the debug info.
pub record Method : Type 0 where
  pub demangled_full_name : String
  pub demangled_name : String
  pub subprogram : Option (ℕ × String)
  pub is_declaration : Bool
  pub function_type : Ty
  pub return_type : Ty
  pub arguments : List Info
  pub local_variables : List Info
  pub module_globals : List ℕ
  pub blocks : List Block

unfoldable pub line_of : Option (ℕ × String) → List Property
line_of none = []
line_of (some (line, name)) = line_number line ∷ []

unfoldable pub method_name : Method → String
method_name m = elim m.subprogram [
  | none ↦ m.demangled_name
  | some (line, text) ↦ if str_eq text "" then m.demangled_name else text
]

unfoldable pub emit_method_node : Method → M ℕ
unfolding line_of method_name
emit_method_node m = do
  node ← create method
  type_name ← get_type_name m.function_type
  namespace ← gets (λ s. s.namespace)
  set node (
      full_name m.demangled_full_name
      ∷ ast_parent_type "NAMESPACE_BLOCK"
      ∷ ast_parent_full_name namespace
      ∷ is_external m.is_declaration
      ∷ signature type_name
      ∷ order 0
      ∷ [])
  set node (line_of m.subprogram)
  set node (Property.name (method_name m) ∷ [])
  pure node

pub is_struct_pointer : Ty → Bool
is_struct_pointer (pointer (identified a)) = true
is_struct_pointer (pointer (literal_struct a ts p)) = true
is_struct_pointer _ = false

unfoldable pub emit_method_return_node : Method → M ℕ
unfolding is_struct_pointer
emit_method_return_node m = do
  type_name ← get_type_name m.return_type
  node ← create method_return
  set node
      (order 0 ∷ type_full_name type_name ∷ code type_name ∷ evaluation_strategy "BY_VALUE" ∷ [])
  set node
      (if is_struct_pointer m.return_type then dynamic_type_hint_full_name type_name ∷ [] else [])
  pure node

unfoldable pub emit_method_block : Method → M ℕ
emit_method_block m = do
  node ← create block
  type_name ← get_type_name m.return_type
  set node (order 0 ∷ type_full_name type_name ∷ argument_index 0 ∷ [])
  pure node

unfoldable pub emit_function_argument : Info → ℕ → M ℕ
emit_function_argument i position = do
  node ← create method_parameter_in
  type_name ← get_type_name i.type
  set node (
      Property.name i.name
      ∷ code i.name
      ∷ type_full_name type_name
      ∷ evaluation_strategy "BY_VALUE"
      ∷ order position
      ∷ [])
  pure node

unfoldable pub emit_local_variable : Info → ℕ → M ℕ
emit_local_variable i position = do
  node ← create local
  type_name ← get_type_name i.type
  set node (Property.name i.name ∷ code i.name ∷ type_full_name type_name ∷ order position ∷ [])
  pure node

unfoldable pub remember : Info → ℕ → M (Unit {0})
unfolding insert_local
remember i node s = (tt, insert_local i.address node s)

-- The arguments from the given position on, each a child of the method.
unfoldable pub emit_arguments : ℕ → ℕ → List Info → M (Unit {0})
unfolding remember emit_function_argument
emit_arguments owner position [] = pure tt
emit_arguments owner position (i ∷ rest) = do
  node ← emit_function_argument i position
  modify (connect ast owner node)
  remember i node
  emit_arguments owner (suc position) rest

unfoldable pub emit_locals : ℕ → ℕ → List Info → M (Unit {0})
unfolding remember emit_local_variable
emit_locals owner position [] = pure tt
emit_locals owner position (i ∷ rest) = do
  node ← emit_local_variable i position
  modify (connect ast owner node)
  remember i node
  emit_locals owner (suc position) rest

unfoldable pub add_globals : List ℕ → M (Unit {0})
add_globals addresses s = (tt, record s { globals = addresses ++ s.globals })

-- A block with its first node (entryPoints) and its last (exitPoints).
pub record Emitted : Type 0 where
  pub address : ℕ
  pub front : ℕ
  pub back : ℕ
  pub terminator : Terminator

unfoldable pub emit_blocks : ℕ → ℕ → List Block → M (List Emitted)
unfolding emit_block
emit_blocks owner n [] = pure []
emit_blocks owner n (b ∷ rest) = do
  (front, back, last_order) ← emit_block owner n b
  emitted ← emit_blocks owner last_order rest
  let this : Emitted = record {
    address = b.address;
    front = front;
    back = back;
    terminator = b.terminator;
  }
  pure (this ∷ emitted)

unfoldable pub entry_point : List Emitted → ℕ → Option ℕ
entry_point [] address = none
entry_point (e ∷ rest) address =
    if e.address == address then some e.front else entry_point rest address

-- `entryPoints.at` throws for a block that is not in the function; there the model makes no edge.
unfoldable pub connect_found : ℕ → Option ℕ → Graph → Graph
connect_found back none g = g
connect_found back (some front) g = connect cfg back (get_entry g front) g

unfoldable pub connect_successor : List Emitted → ℕ → ℕ → Graph → Graph
unfolding connect_found entry_point
connect_successor emitted back successor g = connect_found back (entry_point emitted successor) g

unfoldable pub connect_successors : List Emitted → ℕ → List ℕ → Graph → Graph
unfolding connect_successor
connect_successors emitted back [] g = g
connect_successors emitted back (a ∷ rest) g =
    connect_successors emitted back rest (connect_successor emitted back a g)

unfoldable pub connect_terminator : List Emitted → ℕ → ℕ → Terminator → Graph → Graph
connect_terminator emitted return_node back returns g = connect cfg back return_node g
connect_terminator emitted return_node back (goes_to successors) g =
    connect_successors emitted back successors g

-- The second pass over the blocks; `all` are those of the method.
unfoldable pub connect_terminators : List Emitted → ℕ → List Emitted → Graph → Graph
unfolding connect_terminator connect_successors entry_point
connect_terminators all return_node [] g = g
connect_terminators all return_node (e ∷ rest) g =
    connect_terminators all return_node rest
      (connect_terminator all return_node e.back e.terminator g)

unfoldable pub connect_entry : ℕ → List Emitted → Graph → Graph
connect_entry method_node [] g = g
connect_entry method_node (e ∷ rest) g = connect cfg method_node (get_entry g e.front) g

unfoldable pub emit_body : Method → (method_node return_node block_node : ℕ) → M (Unit {0})
unfolding add_globals emit_locals emit_blocks connect_entry connect_terminators
emit_body m method_node return_node block_node = do
  add_globals m.module_globals
  emit_locals block_node 0 m.local_variables
  emitted ← emit_blocks block_node 1 m.blocks
  modify (connect_entry method_node emitted)
  modify (connect_terminators emitted return_node emitted)

unfoldable pub emit_method : Method → M ℕ
unfolding emit_arguments emit_body
emit_method m = do
  method_node ← emit_method_node m
  return_node ← emit_method_return_node m
  block_node ← emit_method_block m
  modify (connect ast method_node block_node)
  modify (connect ast method_node return_node)
  emit_arguments method_node 1 m.arguments
  if m.is_declaration then pure tt else emit_body m method_node return_node block_node
  pure method_node
