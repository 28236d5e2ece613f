-- ===== src/Emission/Expressions.antt =====
-- emitRefOrConstant and what it calls, on every value: one tree is added.
use llvm2cpg.Prelude.{ℕ, none, some}
use llvm2cpg.Types.{Ty}
use llvm2cpg.Values.{
  Info, Marks, Value, Instr, Indexes, argument, instruction, global_variable, global_alias,
  function, constant_expr, constant, no_initializer, initialized, get_element_ptr, cast, load,
  binary, cmp, select, extract_value, insert_value, extract_element, insert_element, shuffle_vector,
  unary, no_index, index,
}
use llvm2cpg.Emitter.State.{M, is_global}
use llvm2cpg.Emitter.Constants.{emit_named, emit_printed}
use llvm2cpg.Emitter.Access.{is_no_index}
use llvm2cpg.Emitter.Expressions.{
  emit_ref_or_constant, emit_constant_expr, emit_gep_rest, if_marked, if_global, is_constant_expr,
}
use llvm2cpg.Emission.Forest.{Emitting}
use llvm2cpg.Emission.Leaves.{
  constant-Emits, printed-Emits, method_ref-Emits, unknown-Emits, if_state-Emits, if-Emits,
  named-Emits,
}
use llvm2cpg.Emission.Operations.{
  address_of-Emits, binary_call-Emits, cmp_call-Emits, select-Emits, extract_element-Emits,
  insert_element-Emits, shuffle_vector-Emits, unary_operator-Emits,
}
use llvm2cpg.Emission.Access.{
  load-Emits, cast-Emits, insert_value-Emits, pointer_shift-Emits, gep_step-Emits,
  extract_value-Emits,
}

plain-Emits : (i : Info) → Emitting (emit_named i (emit_printed i))
plain-Emits i = named-Emits i _ (printed-Emits i)

marked-Emits :
    (m : Marks) (i : Info) {inlined : M ℕ} → Emitting inlined → Emitting (if_marked m i inlined)
marked-Emits m i h = if-Emits m.inline _ _ h (plain-Emits i)

global-Emits : (i : Info) {inlined : M ℕ} → Emitting inlined → Emitting (if_global i inlined)
global-Emits i h = if_state-Emits (is_global i.address) _ _ h (plain-Emits i)

mutual
  unfolding emit_ref_or_constant emit_constant_expr emit_gep_rest

  value_Emits : (v : Value) → Emitting (emit_ref_or_constant v)
  value_Emits (argument i) = plain-Emits i
  value_Emits (instruction i m (get_element_ptr p x t rest)) =
      marked-Emits m i
        (gep_rest_Emits rest t (pointer_shift-Emits t _ (value_Emits p) (value_Emits x)))
  value_Emits (instruction i m (cast b t v)) = marked-Emits m i (cast-Emits t (value_Emits v))
  value_Emits (instruction i m (load text p)) =
      marked-Emits m i (load-Emits i.type _ text (value_Emits p))
  value_Emits (instruction i m e) = plain-Emits i
  value_Emits (global_variable i (some text) init) = global-Emits i (constant-Emits text)
  value_Emits (global_variable i none no_initializer) = plain-Emits i
  value_Emits (global_variable i none (initialized v)) =
      if-Emits (is_constant_expr v) _ _ (plain-Emits i)
        (global-Emits i (address_of-Emits i.type (value_Emits v)))
  value_Emits (global_alias i) = plain-Emits i
  value_Emits (function i f) = named-Emits i _ (method_ref-Emits f)
  value_Emits (constant_expr i e) = constant_expr_Emits i e
  value_Emits (constant l) = constant-Emits l

  constant_expr_Emits : (i : Info) (e : Instr) → Emitting (emit_constant_expr i e)
  constant_expr_Emits i (get_element_ptr p x t rest) =
      gep_rest_Emits rest t (pointer_shift-Emits t _ (value_Emits p) (value_Emits x))
  constant_expr_Emits i (cast b t v) = cast-Emits t (value_Emits v)
  constant_expr_Emits i (binary op x y) =
      binary_call-Emits i.type (value_Emits x) (value_Emits y) op
  constant_expr_Emits i (cmp o n p x y) =
      cmp_call-Emits i.type (value_Emits x) (value_Emits y) o n p
  constant_expr_Emits i (select c x y) =
      select-Emits i.type (value_Emits c) (value_Emits x) (value_Emits y)
  constant_expr_Emits i (extract_value v indices) = extract_value-Emits _ indices (value_Emits v)
  constant_expr_Emits i (insert_value v x indices) =
      insert_value-Emits i.type (value_Emits v) (value_Emits x) indices
  constant_expr_Emits i (extract_element v x) =
      extract_element-Emits i.type (value_Emits v) (value_Emits x)
  constant_expr_Emits i (insert_element v x y) =
      insert_element-Emits i.type (value_Emits v) (value_Emits x) (value_Emits y)
  constant_expr_Emits i (shuffle_vector v x y) =
      shuffle_vector-Emits i.type (value_Emits v) (value_Emits x) (value_Emits y)
  constant_expr_Emits i (unary x) = unary_operator-Emits i.type (value_Emits x)
  constant_expr_Emits i e = unknown-Emits i

  gep_rest_Emits :
      (rest : Indexes) (container : Ty) {access : M ℕ}
      → Emitting access
      → Emitting (emit_gep_rest rest container access)
  gep_rest_Emits no_index container h = h
  gep_rest_Emits (index v t rest) container h =
      gep_rest_Emits rest t (gep_step-Emits container v t (is_no_index rest) h (value_Emits v))

-- Whatever the value is, emitRefOrConstant adds one tree to the graph.
pub ref_or_constant-Emits : (v : Value) → Emitting (emit_ref_or_constant v)
ref_or_constant-Emits v = value_Emits v

pub gep_rest-Emits :
    (rest : Indexes) (container : Ty) {access : M ℕ}
    → Emitting access
    → Emitting (emit_gep_rest rest container access)
gep_rest-Emits rest container h = gep_rest_Emits rest container h
