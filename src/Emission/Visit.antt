-- ===== src/Emission/Visit.antt =====
-- Every handler of the visitor: one tree is added, or the graph stays as it is.
use llvm2cpg.Prelude.{ℕ, suc, refl, Option, none, some, List}
use llvm2cpg.Types.{Ty}
use llvm2cpg.Graph.{find_code}
use llvm2cpg.Values.{
  Info, Marks, Literal, InlineStrings, FunctionInfo, Value, Instr, Arguments, function, no_argument,
  argument_then,
}
use llvm2cpg.Emitter.State.{M, set_line_info}
use llvm2cpg.Emitter.Connections.{resolve_connections}
use llvm2cpg.Emitter.Constants.{emit_string_operand, emit_inline_string}
use llvm2cpg.Emitter.FunctionCall.{
  or_operand, emit_operand, emit_function_call_arguments, emit_objc_call, emit_objc_new,
  emit_cast_or_indirect, emit_indirect, emit_function_call,
}
use llvm2cpg.Emitter.Visit.{emit_return, emit_store, assign, assign_unless_void, is_void, to_itself}
use llvm2cpg.Emission.Forest.{EmitsAll-nil, EmitsAll-more, EmitsAll-swapped, Emitting, EmittingAll}
use llvm2cpg.Emission.Opening.{opening, opening-HasCode}
use llvm2cpg.Emission.Close.{close_early}
use llvm2cpg.Emission.Leaves.{constant-Emits, unhandled-Emits, if_state-Emits, if-Emits}
use llvm2cpg.Emission.Operations.{two, assign_call-Emits, indirection_call-Emits}
use llvm2cpg.Emission.Calls.{
  direct_function_call-Emits, cast_function_call-Emits, indirect_function_call-Emits,
  objc_function_call-Emits, objc_opt_new_call-Emits,
}
use llvm2cpg.Emission.Expressions.{ref_or_constant-Emits}

string_operand-Emits :
    (found : Option (Option Literal)) {m : M ℕ}
    → Emitting m
    → Emitting (λ s. let (node, s₁) = emit_string_operand found s in or_operand node m s₁)
unfolding emit_string_operand or_operand
string_operand-Emits none h = record { at = λ s. h.at s }
string_operand-Emits (some none) h = record { at = λ s. h.at s }
string_operand-Emits (some (some l)) h = record { at = λ s. (constant-Emits l).at s }

operand-Emits :
    (strings : Option InlineStrings) (i : ℕ) {m : M ℕ}
    → Emitting m
    → Emitting (emit_operand strings i m)
unfolding emit_operand emit_inline_string
operand-Emits none i h = h
operand-Emits (some strings) i h = string_operand-Emits _ h

pub arguments-Emits :
    (strings : Option InlineStrings) (i : ℕ) (vs : Arguments)
    → EmittingAll (emit_function_call_arguments strings i vs)
unfolding emit_function_call_arguments
arguments-Emits strings i no_argument = record { at = λ s. EmitsAll-nil _ }
arguments-Emits strings i (argument_then v rest) = record {
  at = λ s.
      EmitsAll-more ((operand-Emits strings i (ref_or_constant-Emits v)).at s)
        ((arguments-Emits strings (suc i) rest).at _);
}

objc_call-Emits : (m : Marks) (vs : Arguments) → Emitting (emit_objc_call m vs)
unfolding emit_objc_call
objc_call-Emits m no_argument = unhandled-Emits
objc_call-Emits m (argument_then v no_argument) = unhandled-Emits
objc_call-Emits m (argument_then v (argument_then selector rest)) =
    objc_function_call-Emits (arguments-Emits _ 1 _) (ref_or_constant-Emits _) _ _

objc_new-Emits : (vs : Arguments) → Emitting (emit_objc_new vs)
unfolding emit_objc_new
objc_new-Emits no_argument = unhandled-Emits
objc_new-Emits (argument_then v rest) = objc_opt_new_call-Emits (ref_or_constant-Emits v) _

cast_or_indirect-Emits :
    (i : Info) (m : Marks) (callee : Value) (found : Option (Info × FunctionInfo)) (vs : Arguments)
    → Emitting (emit_cast_or_indirect i m callee found vs)
unfolding emit_cast_or_indirect
cast_or_indirect-Emits i m callee none vs =
    indirect_function_call-Emits (arguments-Emits _ 0 vs) (ref_or_constant-Emits callee) _ _ _ _
cast_or_indirect-Emits i m callee (some (f, g)) vs =
    cast_function_call-Emits (arguments-Emits _ 0 vs) _ _ _

indirect-Emits :
    (i : Info) (m : Marks) (callee : Value) (vs : Arguments)
    → Emitting (emit_indirect i m callee vs)
unfolding emit_indirect
indirect-Emits i m callee vs =
    if_state-Emits _ _ _ (objc_call-Emits m vs) (cast_or_indirect-Emits i m callee _ vs)

pub function_call-Emits :
    (i : Info) (m : Marks) (callee : Value) (vs : Arguments)
    → Emitting (emit_function_call i m callee vs)
unfolding emit_function_call
function_call-Emits i m (function f g) vs =
    if-Emits _ _ _ (objc_new-Emits vs) (direct_function_call-Emits (arguments-Emits _ 0 vs) _ g)
function_call-Emits i m callee vs = indirect-Emits i m callee vs

pub return-Emits : {m : M (List ℕ)} → EmittingAll m → Emitting (emit_return m)
unfolding emit_return set_line_info resolve_connections find_code
return-Emits h = record {
  at = λ s. close_early (opening _ _ _ _) (opening-HasCode _ _ _ "return" _ refl) (h.at _);
}

pub store-Emits :
    (strings : Option InlineStrings) (type pointed : Ty) {m n : M ℕ}
    → Emitting m
    → Emitting n
    → Emitting (emit_store strings type pointed m n)
unfolding emit_store
store-Emits strings type pointed h k = record {
  at = λ s. assign_call-Emits type _ _ _ (
      EmitsAll-swapped ((operand-Emits strings 0 h).at s)
        ((indirection_call-Emits pointed k).at _));
}

assign-Emits : (type : Ty) {m n : M ℕ} → Emitting m → Emitting n → Emitting (assign type m n)
unfolding assign
assign-Emits type h k = record { at = λ s. assign_call-Emits type _ _ _ (two h s k) }

pub assign_unless_void-Emits :
    (type : Ty) {m n : M ℕ} → Emitting m → Emitting n → Emitting (assign_unless_void type m n)
unfolding assign_unless_void
assign_unless_void-Emits type h k = if-Emits (is_void type) _ _ k (assign-Emits type h k)

pub itself-Emits :
    (i : Info) (m : Marks) (e : Instr) {n : M ℕ} → Emitting n → Emitting (to_itself i m e n)
unfolding to_itself
itself-Emits i m e h = assign-Emits i.type (ref_or_constant-Emits _) h
