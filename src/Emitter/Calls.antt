-- ===== src/Emitter/Calls.antt =====
-- Calls: the node of the call is made before those of its arguments. The emission of the receiver
-- and of the arguments are arguments; emitFunctionCall and its helpers.
use llvm2cpg.Prelude.{ℕ, String, Bool, List, [], ◌∷◌, if◌then◌else◌}
use llvm2cpg.Types.{Ty}
use llvm2cpg.Graph.{
  Property, code, type_full_name, signature, dispatch_type, method_full_name, method_inst_full_name,
  call, literal, receiver, connect,
}
use llvm2cpg.Values.{FunctionInfo}
use llvm2cpg.Emitter.State.{
  M, pure, modify, create, set, ◌>>=◌, ◌>>◌, get_type_name, set_line_info, pseudo_call,
}
use llvm2cpg.Emitter.Connections.{resolve_connections}

unfoldable pub emit_direct_function_call : Ty → FunctionInfo → M (List ℕ) → M ℕ
emit_direct_function_call type f arguments = do
  node ← create call
  type_name ← get_type_name type
  function_type_name ← get_type_name f.function_type
  set node (
      Property.name f.demangled_name
      ∷ type_full_name type_name
      ∷ method_full_name f.demangled_full_name
      ∷ signature function_type_name
      ∷ dispatch_type "STATIC_DISPATCH"
      ∷ [])
  set_line_info node
  children ← arguments
  text ← pseudo_call f.demangled_name children
  set node (code text ∷ [])
  resolve_connections node children

unfoldable pub emit_cast_function_call : Ty → String → Ty → M (List ℕ) → M ℕ
emit_cast_function_call type name function_type arguments = do
  node ← create call
  type_name ← get_type_name type
  function_type_name ← get_type_name function_type
  set node (
      Property.name name
      ∷ type_full_name type_name
      ∷ method_inst_full_name name
      ∷ method_full_name name
      ∷ signature function_type_name
      ∷ dispatch_type "STATIC_DISPATCH"
      ∷ [])
  set_line_info node
  children ← arguments
  text ← pseudo_call name children
  set node (code text ∷ [])
  resolve_connections node children

-- Two CODE properties are added when the callee is no inline assembly: `name`, and the text of the
-- call with its arguments.
unfoldable pub emit_indirect_function_call :
    Ty → Ty → (is_inline_asm : Bool) → (printed : String) → M ℕ → M (List ℕ) → M ℕ
emit_indirect_function_call type operand_type is_inline_asm printed receiver_operand arguments = do
  let name = if is_inline_asm then "inline_asm" else "indirect_call"
  let dispatch = if is_inline_asm then "STATIC_DISPATCH" else "DYNAMIC_DISPATCH"
  node ← create call
  type_name ← get_type_name type
  operand_type_name ← get_type_name operand_type
  set node (
      Property.name name
      ∷ code (if is_inline_asm then printed else name)
      ∷ type_full_name type_name
      ∷ method_inst_full_name name
      ∷ method_full_name name
      ∷ signature operand_type_name
      ∷ dispatch_type dispatch
      ∷ [])
  set_line_info node
  receiver_node ← receiver_operand
  modify (connect receiver node receiver_node)
  rest ← arguments
  text ← pseudo_call name (receiver_node ∷ rest)
  set node (if is_inline_asm then [] else code text ∷ [])
  resolve_connections node (receiver_node ∷ rest)

-- `name` is the selector.
unfoldable pub emit_objc_function_call : (name : String) → Ty → M ℕ → M (List ℕ) → M ℕ
emit_objc_function_call name receiver_type receiver_operand arguments = do
  node ← create call
  type_name ← get_type_name receiver_type
  set node (
      Property.name name
      ∷ code name
      ∷ type_full_name type_name
      ∷ signature ""
      ∷ dispatch_type "DYNAMIC_DISPATCH"
      ∷ [])
  set_line_info node
  receiver_node ← receiver_operand
  modify (connect receiver node receiver_node)
  rest ← arguments
  resolve_connections node (receiver_node ∷ rest)

unfoldable pub emit_selector : String → M ℕ
emit_selector name = do
  node ← create literal
  resolve_connections node []
  set node (code name ∷ type_full_name "ANY" ∷ [])
  pure node

unfoldable pub emit_objc_opt_new_call : Ty → M ℕ → M ℕ
unfolding emit_selector
emit_objc_opt_new_call receiver_type receiver_operand = do
  node ← create call
  type_name ← get_type_name receiver_type
  set node (
      Property.name "new"
      ∷ type_full_name type_name
      ∷ signature ""
      ∷ dispatch_type "DYNAMIC_DISPATCH"
      ∷ [])
  set_line_info node
  receiver_node ← receiver_operand
  modify (connect receiver node receiver_node)
  selector ← emit_selector "new"
  text ← pseudo_call "new" (receiver_node ∷ selector ∷ [])
  set node (code text ∷ [])
  resolve_connections node (receiver_node ∷ selector ∷ [])
