-- ===== src/Emitter/Operations.antt =====
-- The operations that take their operands' nodes: each `emit...` of CPGEmitter.cpp with the
-- emission of its operands as an argument, in the order in which the method emits them.
use llvm2cpg.Prelude.{ℕ, String, Option, none, some, List, [], ◌∷◌, ◌<>◌}
use llvm2cpg.Types.{Ty}
use llvm2cpg.Operators.{
  BinaryOpcode, Predicate, AtomicOperation, binary_operator_name, binary_operator_name_short,
  comparison_operator_name, comparison_operator_name_short, atomic_operator_name,
  cast_operator_name, unary_operator_name,
}
use llvm2cpg.Graph.{Property, dynamic_type_hint_full_name}
use llvm2cpg.Emitter.State.{
  M, pure, set, code_of, ◌>>=◌, ◌>>◌, get_type_name, pseudo_call, emit_generic_op, emit_text,
}
use llvm2cpg.Emitter.Connections.{resolve_connections}
use llvm2cpg.Emitter.Constants.{emit_number}

-- The operation `full_name` with a text in the form of a call, a type and a signature.
unfoldable pub operation : (full_name shown : String) → Ty → (operands : String) → List ℕ → M ℕ
operation full_name shown type operands children = do
  text ← pseudo_call shown children
  type_name ← get_type_name type
  node ← emit_generic_op full_name text type_name operands
  resolve_connections node children

unfoldable pub emit_assign_call : Ty → (lhs rhs : ℕ) → M ℕ
emit_assign_call type lhs rhs = do
  left_code ← code_of lhs
  right_code ← code_of rhs
  type_name ← get_type_name type
  node ←
      emit_generic_op "<operator>.assignment" (left_code <> " = " <> right_code) type_name
        "ANY (ANY)"
  resolve_connections node (lhs ∷ rhs ∷ [])

unfoldable pub emit_indirection_call : Ty → M ℕ → M ℕ
emit_indirection_call pointee pointer_ref = do
  pointer ← pointer_ref
  text ← code_of pointer
  type_name ← get_type_name pointee
  node ← emit_generic_op "<operator>.indirection" ("*" <> text) type_name "ANY (ANY)"
  resolve_connections node (pointer ∷ [])

hint_properties : Option String → List Property
hint_properties none = []
hint_properties (some hint) = dynamic_type_hint_full_name hint ∷ []

-- emitDereference past its test for an inlined string.
unfoldable pub emit_dereference : Ty → Option String → M ℕ → M ℕ
unfolding hint_properties
emit_dereference type hint pointer_ref = do
  pointer ← pointer_ref
  text ← code_of pointer
  type_name ← get_type_name type
  node ← emit_generic_op "<operator>.indirection" ("*" <> text) type_name "ANY (ANY)"
  set node (hint_properties hint)
  resolve_connections node (pointer ∷ [])

unfoldable pub emit_address_of : Ty → M ℕ → M ℕ
emit_address_of type operand = do
  node ← operand
  return_type ← get_type_name type
  text ← code_of node
  address ← emit_generic_op "<operator>.addressOf" ("&" <> text) return_type "ANY"
  resolve_connections address (node ∷ [])

unfoldable pub emit_infix : (full_name short_name : String) → Ty → M ℕ → M ℕ → M ℕ
emit_infix full_name short_name type left right = do
  lhs ← left
  rhs ← right
  left_code ← code_of lhs
  right_code ← code_of rhs
  type_name ← get_type_name type
  node ←
      emit_generic_op full_name (left_code <> " " <> short_name <> " " <> right_code) type_name
        "ANY (ANY, ANY)"
  resolve_connections node (lhs ∷ rhs ∷ [])

unfoldable pub emit_binary_call : BinaryOpcode → Ty → M ℕ → M ℕ → M ℕ
unfolding emit_infix
emit_binary_call op = emit_infix (binary_operator_name op) (binary_operator_name_short op)

-- The opcode name and the predicate's name are those that LLVM prints.
unfoldable pub emit_cmp_call : (opcode_name printed : String) → Predicate → Ty → M ℕ → M ℕ → M ℕ
unfolding emit_infix
emit_cmp_call opcode_name printed p =
    emit_infix (comparison_operator_name opcode_name printed p)
      (comparison_operator_name_short opcode_name printed p)

unfoldable pub emit_cast : Ty → M ℕ → M ℕ
emit_cast dest operand = do
  type_name ← get_type_name dest
  phony ← emit_text type_name
  casted ← operand
  text ← code_of casted
  node ←
      emit_generic_op cast_operator_name ("(" <> type_name <> ")" <> text) type_name
        "ANY (ANY, ANY)"
  resolve_connections node (phony ∷ casted ∷ [])

unfoldable pub emit_select : Ty → M ℕ → M ℕ → M ℕ → M ℕ
unfolding operation
emit_select type condition true_value false_value = do
  c ← condition
  t ← true_value
  f ← false_value
  operation "<operator>.select" "select" type "ANY (ANY, ANY, ANY)" (c ∷ t ∷ f ∷ [])

unfoldable pub emit_atomic_rmw : AtomicOperation → Ty → M ℕ → M ℕ → M ℕ
unfolding operation
emit_atomic_rmw op type pointer_operand val_operand = do
  pointer ← pointer_operand
  value ← val_operand
  let full_name = atomic_operator_name op
  operation full_name full_name type "ANY (ANY, ANY)" (pointer ∷ value ∷ [])

unfoldable pub emit_atomic_cmp_xchg : Ty → M ℕ → M ℕ → M ℕ → M ℕ
unfolding operation
emit_atomic_cmp_xchg type pointer_operand compare_operand new_val_operand = do
  pointer ← pointer_operand
  compare ← compare_operand
  value ← new_val_operand
  operation "<operator>.cmpxchg" "<operator>.cmpxchg" type "{ANY, i1} (ANY, ANY, ANY)"
      (pointer ∷ compare ∷ value ∷ [])

unfoldable pub emit_extract_element : Ty → M ℕ → M ℕ → M ℕ
unfolding operation
emit_extract_element type vector_operand index_operand = do
  vector ← vector_operand
  index ← index_operand
  operation "<operator>.computedMemberAccess" "extractElement" type "ANY (ANY)"
      (vector ∷ index ∷ [])

unfoldable pub emit_insert_element : Ty → M ℕ → M ℕ → M ℕ → M ℕ
unfolding operation
emit_insert_element type vector_operand element_operand index_operand = do
  vector ← vector_operand
  element ← element_operand
  index ← index_operand
  operation "<operator>.insertElement" "insertElement" type "ANY (ANY ANY)"
      (vector ∷ element ∷ index ∷ [])

unfoldable pub emit_shuffle_vector : Ty → M ℕ → M ℕ → M ℕ → M ℕ
unfolding operation
emit_shuffle_vector type first second mask = do
  vector1 ← first
  vector2 ← second
  mask_node ← mask
  operation "<operator>.shufflevector" "shufflevector" type "ANY (ANY, ANY, ANY)"
      (vector1 ∷ vector2 ∷ mask_node ∷ [])

unfoldable pub emit_unary_operator : Ty → M ℕ → M ℕ
unfolding operation
emit_unary_operator type operand = do
  node ← operand
  operation unary_operator_name unary_operator_name type "ANY (ANY)" (node ∷ [])

unfoldable pub emit_numbers : List ℕ → M (List ℕ)
emit_numbers [] = pure []
emit_numbers (n ∷ ns) = do node ← emit_number n; nodes ← emit_numbers ns; pure (node ∷ nodes)

unfoldable pub emit_insert_value : Ty → M ℕ → M ℕ → List ℕ → M ℕ
unfolding operation emit_numbers
emit_insert_value type aggregate_operand value_operand indices = do
  aggregate ← aggregate_operand
  value ← value_operand
  numbers ← emit_numbers indices
  operation "<operator>.insertValue" "insertValue" type "ANY (ANY)" (aggregate ∷ value ∷ numbers)
