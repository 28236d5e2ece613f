-- ===== src/Emitter/FunctionCall.antt =====
-- emitFunctionCall and its helpers: which kind of call an instruction is, and its arguments.
use llvm2cpg.Prelude.{
  ℕ, suc, String, Bool, true, false, Option, none, some, List, [], ◌∷◌, ◌&&◌, if◌then◌else◌,
}
use text.Mathlib.Text.{◌==◌}
use llvm2cpg.Values.{
  Info, Marks, InlineStrings, FunctionInfo, Value, Instr, Arguments, instruction, global_variable,
  function, constant_expr, constant, inline_asm, data_array, initialized, get_element_ptr, cast,
  load, binary, cmp, select, extract_value, insert_value, extract_element, insert_element,
  shuffle_vector, unary, no_argument, argument_then,
}
use llvm2cpg.Emitter.State.{M, pure, ◌>>=◌, emit_unhandled}
use llvm2cpg.Emitter.Constants.{emit_inline_string, if_state}
use llvm2cpg.Emitter.Access.{info_of}
use llvm2cpg.Emitter.Calls.{
  emit_direct_function_call, emit_cast_function_call, emit_indirect_function_call,
  emit_objc_function_call, emit_objc_opt_new_call,
}
use llvm2cpg.Emitter.Expressions.{emit_ref_or_constant}

-- The inlined string of an operand where there is one, and else the operand.
unfoldable pub or_operand : Option ℕ → M ℕ → M ℕ
or_operand none operand = operand
or_operand (some node) operand = pure node

unfoldable pub emit_operand : Option InlineStrings → ℕ → M ℕ → M ℕ
unfolding or_operand
emit_operand none i operand = operand
emit_operand (some strings) i operand = do
  found ← emit_inline_string strings i
  or_operand found operand

unfoldable pub emit_function_call_arguments : Option InlineStrings → ℕ → Arguments → M (List ℕ)
unfolding emit_operand
emit_function_call_arguments strings i no_argument = pure []
emit_function_call_arguments strings i (argument_then v rest) = do
  node ← emit_operand strings i (emit_ref_or_constant v)
  nodes ← emit_function_call_arguments strings (suc i) rest
  pure (node ∷ nodes)

-- The constant that a global variable is initialized with; every initializer is a constant.
get_const_initializer : Value → Option Value
get_const_initializer (global_variable i text (initialized v)) = some v
get_const_initializer _ = none

loaded_pointer : Value → Option Value
loaded_pointer (instruction i m (load text p)) = some p
loaded_pointer _ = none

gep_pointer : Value → Option Value
gep_pointer (constant_expr i (get_element_ptr p x t rest)) = some p
gep_pointer _ = none

c_string : Value → Option String
c_string (constant l) = elim l.constant [ data_array (some c) ↦ some c.text | _ ↦ none ]
c_string _ = none

abbrev and_then {ℓ} : {A B : Type ℓ} → Option A → (A → Option B) → Option B
and_then none f = none
and_then (some a) f = f a

-- The selector is a load from a global variable that refers to the first byte of a C string.
unfoldable pub objc_selector_name : Value → String
unfolding loaded_pointer get_const_initializer gep_pointer c_string
objc_selector_name selector =
    let found = and_then (loaded_pointer selector) λ reference.
      and_then (get_const_initializer reference) λ expr.
        and_then (gep_pointer expr) λ pointer. and_then (get_const_initializer pointer) c_string in
    elim found [ some text ↦ text | none ↦ "objc_msgSend" ]

-- The called operand is a bit cast of `objc_msgSend`.
unfoldable pub is_objc_call : Value → Bool
is_objc_call (constant_expr i (cast true t (function f g))) = f.name == "objc_msgSend"
is_objc_call _ = false

-- The first operand of an expression that a constant expression can be.
operand_zero : Instr → Option Value
operand_zero (get_element_ptr p x t rest) = some p
operand_zero (cast is_bit_cast t v) = some v
operand_zero (binary op x y) = some x
operand_zero (cmp opcode_name predicate_name p x y) = some x
operand_zero (select c x y) = some c
operand_zero (extract_value v indices) = some v
operand_zero (insert_value v x indices) = some v
operand_zero (extract_element v x) = some v
operand_zero (insert_element v x y) = some v
operand_zero (shuffle_vector v x y) = some v
operand_zero (unary x) = some x
operand_zero e = none

as_function : Value → Option (Info × FunctionInfo)
as_function (function f g) = some (f, g)
as_function _ = none

unfoldable pub get_cast_function : Value → Option (Info × FunctionInfo)
unfolding operand_zero as_function
get_cast_function (constant_expr i e) = and_then (operand_zero e) as_function
get_cast_function _ = none

unfoldable pub is_inline_assembly : Value → Bool
is_inline_assembly (constant l) = elim l.constant [ inline_asm text ↦ true | _ ↦ false ]
is_inline_assembly _ = false

-- A receiver that is a bit cast is taken without the cast.
unfoldable pub stripped_receiver : Value → Value
stripped_receiver (instruction i m (cast true t v)) = v
stripped_receiver v = v

-- A call of `objc_msgSend` or `objc_opt_new` without arguments has no operand to read; the model
-- answers with an unhandled node.
unfoldable pub emit_objc_call : Marks → Arguments → M ℕ
emit_objc_call m no_argument = emit_unhandled
emit_objc_call m (argument_then receiver no_argument) = emit_unhandled
emit_objc_call m (argument_then receiver (argument_then selector rest)) =
    let target = stripped_receiver receiver in
    emit_objc_function_call (objc_selector_name selector) (info_of target).type
      (emit_ref_or_constant target)
      (emit_function_call_arguments m.inline_string_literal 1 (argument_then selector rest))

unfoldable pub emit_objc_new : Arguments → M ℕ
emit_objc_new no_argument = emit_unhandled
emit_objc_new (argument_then receiver rest) =
    emit_objc_opt_new_call (info_of receiver).type (emit_ref_or_constant receiver)

unfoldable pub emit_cast_or_indirect :
    Info → Marks → Value → Option (Info × FunctionInfo) → Arguments → M ℕ
unfolding emit_function_call_arguments
emit_cast_or_indirect i m callee (some (f, g)) arguments =
    emit_cast_function_call i.type f.name g.function_type
      (emit_function_call_arguments m.inline_string_literal 0 arguments)
emit_cast_or_indirect i m callee none arguments =
    emit_indirect_function_call i.type (info_of callee).type (is_inline_assembly callee)
      (info_of callee).printed (emit_ref_or_constant callee)
      (emit_function_call_arguments m.inline_string_literal 0 arguments)

unfoldable pub emit_indirect : Info → Marks → Value → Arguments → M ℕ
unfolding emit_objc_call emit_cast_or_indirect
emit_indirect i m callee arguments =
    if_state (λ s. s.has_msg_send && is_objc_call callee) (emit_objc_call m arguments)
      (emit_cast_or_indirect i m callee (get_cast_function callee) arguments)

-- emitFunctionCall: a called operand that is a function is called directly.
unfoldable pub emit_function_call : Info → Marks → Value → Arguments → M ℕ
unfolding emit_indirect emit_objc_new
emit_function_call i m (function f g) arguments =
    if f.name == "objc_opt_new"
    then emit_objc_new arguments
    else emit_direct_function_call i.type g
        (emit_function_call_arguments m.inline_string_literal 0 arguments)
emit_function_call i m callee arguments = emit_indirect i m callee arguments
