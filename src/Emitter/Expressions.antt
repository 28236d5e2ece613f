-- ===== src/Emitter/Expressions.antt =====
-- emitRefOrConstant, emitGEP and emitConstantExpr, by recursion on the operands.
use llvm2cpg.Prelude.{ℕ, String, Bool, true, false, Option, none, some, [], ◌∷◌, if◌then◌else◌}
use llvm2cpg.Types.{Ty}
use llvm2cpg.Graph.{code, unknown}
use llvm2cpg.Values.{
  Info, Marks, Literal, Value, Instr, Indexes, argument, instruction, global_variable, global_alias,
  function, constant_expr, constant, no_initializer, initialized, get_element_ptr, cast, load,
  binary, cmp, select, extract_value, insert_value, extract_element, insert_element, shuffle_vector,
  unary, no_index, index,
}
use llvm2cpg.Emitter.State.{M, pure, create, set, ◌>>=◌, ◌>>◌, is_global, set_line_info}
use llvm2cpg.Emitter.Connections.{resolve_connections}
use llvm2cpg.Emitter.Constants.{emit_constant, emit_printed, emit_method_ref, emit_named, if_state}
use llvm2cpg.Emitter.Operations.{
  emit_dereference, emit_address_of, emit_binary_call, emit_cmp_call, emit_cast, emit_select,
  emit_extract_element, emit_insert_element, emit_shuffle_vector, emit_unary_operator,
  emit_insert_value,
}
use llvm2cpg.Emitter.Access.{
  info_of, is_no_index, emit_pointer_shift, emit_gep_step, emit_extract_value,
}

-- emitDereference: a load of an inlined string is the string.
unfoldable pub emit_load : Ty → Option String → Option Literal → M ℕ → M ℕ
emit_load type hint (some text) pointer = emit_constant text
emit_load type hint none pointer = emit_dereference type hint pointer

unfoldable pub emit_unknown : Info → M ℕ
emit_unknown i = do
  node ← create unknown
  set node (code i.printed ∷ [])
  resolve_connections node []
  set_line_info node
  pure node

unfoldable pub is_constant_expr : Value → Bool
is_constant_expr (constant_expr i e) = true
is_constant_expr _ = false

-- An instruction that is marked as inlined is emitted in place of a reference to it.
abbrev pub if_marked : Marks → Info → M ℕ → M ℕ
if_marked m i inlined = if m.inline then inlined else emit_named i (emit_printed i)

abbrev pub if_global : Info → M ℕ → M ℕ
if_global i inlined = if_state (is_global i.address) inlined (emit_named i (emit_printed i))

unfoldable mutual
  unfolding emit_load is_constant_expr emit_unknown

  pub emit_ref_or_constant : Value → M ℕ
  emit_ref_or_constant (argument i) = emit_named i (emit_printed i)
  emit_ref_or_constant (instruction i m (get_element_ptr p x t rest)) = if_marked m i (
      emit_gep_rest rest t
        (emit_pointer_shift t (is_no_index rest) (emit_ref_or_constant p) (emit_ref_or_constant x)))
  emit_ref_or_constant (instruction i m (cast is_bit_cast t v)) =
      if_marked m i (emit_cast t (emit_ref_or_constant v))
  emit_ref_or_constant (instruction i m (load text p)) =
      if_marked m i (emit_load i.type m.objc_type_hint text (emit_ref_or_constant p))
  emit_ref_or_constant (instruction i m e) = emit_named i (emit_printed i)
  emit_ref_or_constant (global_variable i (some text) init) = if_global i (emit_constant text)
  emit_ref_or_constant (global_variable i none no_initializer) = emit_named i (emit_printed i)
  emit_ref_or_constant (global_variable i none (initialized v)) =
      if is_constant_expr v
      then emit_named i (emit_printed i)
      else if_global i (emit_address_of i.type (emit_ref_or_constant v))
  emit_ref_or_constant (global_alias i) = emit_named i (emit_printed i)
  emit_ref_or_constant (function i f) = emit_named i (emit_method_ref f)
  emit_ref_or_constant (constant_expr i e) = emit_constant_expr i e
  emit_ref_or_constant (constant l) = emit_constant l

  pub emit_constant_expr : Info → Instr → M ℕ
  emit_constant_expr i (get_element_ptr p x t rest) =
      emit_gep_rest rest t
        (emit_pointer_shift t (is_no_index rest) (emit_ref_or_constant p) (emit_ref_or_constant x))
  emit_constant_expr i (cast is_bit_cast t v) = emit_cast t (emit_ref_or_constant v)
  emit_constant_expr i (binary op x y) =
      emit_binary_call op i.type (emit_ref_or_constant x) (emit_ref_or_constant y)
  emit_constant_expr i (cmp opcode_name printed p x y) =
      emit_cmp_call opcode_name printed p i.type (emit_ref_or_constant x) (emit_ref_or_constant y)
  emit_constant_expr i (select c x y) =
      emit_select i.type (emit_ref_or_constant c) (emit_ref_or_constant x) (emit_ref_or_constant y)
  emit_constant_expr i (extract_value v indices) =
      emit_extract_value (info_of v).type indices (emit_ref_or_constant v)
  emit_constant_expr i (insert_value v x indices) =
      emit_insert_value i.type (emit_ref_or_constant v) (emit_ref_or_constant x) indices
  emit_constant_expr i (extract_element v x) =
      emit_extract_element i.type (emit_ref_or_constant v) (emit_ref_or_constant x)
  emit_constant_expr i (insert_element v x y) =
      emit_insert_element i.type (emit_ref_or_constant v) (emit_ref_or_constant x)
        (emit_ref_or_constant y)
  emit_constant_expr i (shuffle_vector v x y) =
      emit_shuffle_vector i.type (emit_ref_or_constant v) (emit_ref_or_constant x)
        (emit_ref_or_constant y)
  emit_constant_expr i (unary x) = emit_unary_operator i.type (emit_ref_or_constant x)
  emit_constant_expr i e = emit_unknown i

  pub emit_gep_rest : Indexes → Ty → M ℕ → M ℕ
  emit_gep_rest no_index container access = access
  emit_gep_rest (index v t rest) container access =
      emit_gep_rest rest t
        (emit_gep_step container v t (is_no_index rest) access (emit_ref_or_constant v))
