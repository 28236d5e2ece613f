-- ===== src/Emitter/Visit.antt =====
-- The visitor's methods: what CPGEmitter::visit emits for each kind of instruction, and
-- emitFunctionCall with its helpers.
use llvm2cpg.Prelude.{ℕ, Bool, true, false, Option, none, some, List, [], ◌∷◌, if◌then◌else◌}
use llvm2cpg.Types.{Ty, pointer, primitive, void}
use llvm2cpg.Graph.{code, return}
use llvm2cpg.Values.{
  Info, Marks, InlineStrings, Instr, instruction, get_element_ptr, cast, load, store, binary, cmp,
  select, extract_value, insert_value, extract_element, insert_element, shuffle_vector, unary,
  atomic_rmw, atomic_cmp_xchg, call, return_void, return_value, alloca, dbg_variable, phi, branch,
  switch, indirect_br, unreachable, other_instruction,
}
use llvm2cpg.Emitter.State.{
  M, pure, create, set, ◌>>=◌, ◌>>◌, get_type_name, set_line_info, emit_generic_op, emit_unhandled,
}
use llvm2cpg.Emitter.Connections.{resolve_connections}
use llvm2cpg.Emitter.Operations.{
  emit_assign_call, emit_indirection_call, emit_binary_call, emit_cmp_call, emit_cast, emit_select,
  emit_atomic_rmw, emit_atomic_cmp_xchg, emit_extract_element, emit_insert_element,
  emit_shuffle_vector, emit_unary_operator, emit_insert_value,
}
use llvm2cpg.Emitter.Access.{info_of, is_no_index, emit_pointer_shift, emit_extract_value}
use llvm2cpg.Emitter.Expressions.{emit_ref_or_constant, emit_gep_rest, emit_load}
use llvm2cpg.Emitter.FunctionCall.{emit_operand, emit_function_call}

unfoldable pub emit_unhandled_call : Info → Marks → M ℕ
emit_unhandled_call i m = do
  type_name ← get_type_name i.type
  node ← emit_generic_op m.opcode_name m.opcode_name type_name "ANY"
  resolve_connections node []

unfoldable pub is_void : Ty → Bool
is_void (primitive void) = true
is_void _ = false

-- The node of a return stands before its operand's.
unfoldable pub emit_return : M (List ℕ) → M ℕ
emit_return operands = do
  node ← create return
  set node (code "return" ∷ [])
  set_line_info node
  children ← operands
  resolve_connections node children

unfoldable pub emit_unreachable : M ℕ
emit_unreachable = do node ← emit_unhandled; set node (code "unreachable" ∷ []); pure node

-- The type that a pointer points to.
unfoldable pub pointee : Ty → Ty
pointee (pointer t) = t
pointee t = t

-- The stored value is emitted first, and is the second operand.
unfoldable pub emit_store : Option InlineStrings → Ty → Ty → M ℕ → M ℕ → M ℕ
unfolding emit_operand
emit_store strings type pointed value_operand pointer_operand = do
  value ← emit_operand strings 0 value_operand
  target ← emit_indirection_call pointed pointer_operand
  emit_assign_call type target value

-- An assignment to the instruction itself; the arguments of the call are taken left to right.
unfoldable pub assign : Ty → M ℕ → M ℕ → M ℕ
assign type left right = do lhs ← left; rhs ← right; emit_assign_call type lhs rhs

unfoldable pub assign_unless_void : Ty → M ℕ → M ℕ → M ℕ
assign_unless_void type left right = if is_void type then right else assign type left right

unfoldable pub to_itself : Info → Marks → Instr → M ℕ → M ℕ
to_itself i m e right = assign i.type (emit_ref_or_constant (instruction i m e)) right

-- The action for an instruction. `none` is the null pointer: no node is made. A phi is reported as
-- fatal, and makes none.
unfoldable pub handler : Info → Marks → Instr → Option (M ℕ)
unfolding to_itself
handler i m (store v p) = some (
    emit_store m.inline_string_literal (info_of v).type (pointee (info_of p).type)
      (emit_ref_or_constant v) (emit_ref_or_constant p))
handler i m (load text p) =
    some (
      to_itself i m (load text p) (emit_load i.type m.objc_type_hint text (emit_ref_or_constant p)))
handler i m (binary op x y) = some (
    to_itself i m (binary op x y)
      (emit_binary_call op i.type (emit_ref_or_constant x) (emit_ref_or_constant y)))
handler i m (cmp o n p x y) = some (
    to_itself i m (cmp o n p x y)
      (emit_cmp_call o n p i.type (emit_ref_or_constant x) (emit_ref_or_constant y)))
handler i m (cast is_bit_cast t v) =
    some (to_itself i m (cast is_bit_cast t v) (emit_cast t (emit_ref_or_constant v)))
handler i m (select c x y) = some (
    to_itself i m (select c x y) (
      emit_select i.type (emit_ref_or_constant c) (emit_ref_or_constant x)
        (emit_ref_or_constant y)))
handler i m (get_element_ptr p x t rest) = some (
    to_itself i m (get_element_ptr p x t rest) (
      emit_gep_rest rest t (
        emit_pointer_shift t (is_no_index rest) (emit_ref_or_constant p) (emit_ref_or_constant x))))
handler i m (extract_value v indices) = some (
    to_itself i m (extract_value v indices)
      (emit_extract_value (info_of v).type indices (emit_ref_or_constant v)))
handler i m (unary x) =
    some (to_itself i m (unary x) (emit_unary_operator i.type (emit_ref_or_constant x)))
handler i m (call callee arguments) = some (
    assign_unless_void i.type (emit_ref_or_constant (instruction i m (call callee arguments)))
      (emit_function_call i m callee arguments))
handler i m (atomic_rmw op p v) = some (
    to_itself i m (atomic_rmw op p v)
      (emit_atomic_rmw op i.type (emit_ref_or_constant p) (emit_ref_or_constant v)))
handler i m (atomic_cmp_xchg p x y) = some (
    to_itself i m (atomic_cmp_xchg p x y) (
      emit_atomic_cmp_xchg i.type (emit_ref_or_constant p) (emit_ref_or_constant x)
        (emit_ref_or_constant y)))
handler i m (extract_element v x) = some (
    to_itself i m (extract_element v x)
      (emit_extract_element i.type (emit_ref_or_constant v) (emit_ref_or_constant x)))
handler i m (insert_element v x y) = some (
    to_itself i m (insert_element v x y) (
      emit_insert_element i.type (emit_ref_or_constant v) (emit_ref_or_constant x)
        (emit_ref_or_constant y)))
handler i m (insert_value v x indices) = some (
    to_itself i m (insert_value v x indices)
      (emit_insert_value i.type (emit_ref_or_constant v) (emit_ref_or_constant x) indices))
handler i m (shuffle_vector v x y) = some (
    to_itself i m (shuffle_vector v x y) (
      emit_shuffle_vector i.type (emit_ref_or_constant v) (emit_ref_or_constant x)
        (emit_ref_or_constant y)))
handler i m return_void = some (emit_return (pure []))
handler i m (return_value v) =
    some (emit_return (do node ← emit_ref_or_constant v; pure (node ∷ [])))
handler i m unreachable = some emit_unreachable
handler i m other_instruction = some (
    assign_unless_void i.type (emit_ref_or_constant (instruction i m other_instruction))
      (emit_unhandled_call i m))
handler i m alloca = none
handler i m dbg_variable = none
handler i m phi = none
handler i m branch = none
handler i m switch = none
handler i m indirect_br = none

unfoldable pub run_handler : Option (M ℕ) → M (Option ℕ)
run_handler none = pure none
run_handler (some action) = do node ← action; pure (some node)

unfoldable pub visit : Info → Marks → Instr → M (Option ℕ)
unfolding handler run_handler
visit i m e = run_handler (handler i m e)
