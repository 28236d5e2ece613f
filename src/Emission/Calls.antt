-- ===== src/Emission/Calls.antt =====
-- The emissions of calls, whose node is made before those of the operands.
use llvm2cpg.Prelude.{ℕ, String, Bool, List, [], ◌∷◌, refl}
use llvm2cpg.Types.{Ty}
use llvm2cpg.Graph.{connect, receiver, find_code}
use llvm2cpg.Values.{FunctionInfo}
use llvm2cpg.Emitter.State.{Emitter, M, get_type_name, pseudo_call, set_line_info}
use llvm2cpg.Emitter.Connections.{resolve_connections}
use llvm2cpg.Emitter.Calls.{
  emit_direct_function_call, emit_cast_function_call, emit_indirect_function_call,
  emit_objc_function_call, emit_objc_opt_new_call, emit_selector,
}
use llvm2cpg.Emission.Forest.{EmitsAll, EmitsAll-nil, EmitsAll-more, Emitting, EmittingAll}
use llvm2cpg.Emission.Opening.{set_properties-Touched, set_code-HasCode, opening, opening-HasCode}
use llvm2cpg.Emission.Close.{close_first, close_early, close_early_set, connect-Emits}
use llvm2cpg.Emission.Leaves.{selector-Emits}

module _ {arguments : M (List ℕ)} (h : EmittingAll arguments) where
  pub direct_function_call-Emits :
      (type : Ty) (f : FunctionInfo) → Emitting (emit_direct_function_call type f arguments)
  unfolding emit_direct_function_call get_type_name set_line_info pseudo_call resolve_connections
  direct_function_call-Emits type f = record {
    at = λ s.
        close_first (opening _ _ _ _) (h.at _) (set_properties-Touched _ _ _)
          (set_code-HasCode _ _ _);
  }

  pub cast_function_call-Emits :
      (type : Ty) (name : String) (function_type : Ty)
      → Emitting (emit_cast_function_call type name function_type arguments)
  unfolding emit_cast_function_call get_type_name set_line_info pseudo_call resolve_connections
  cast_function_call-Emits type name function_type = record {
    at = λ s.
        close_first (opening _ _ _ _) (h.at _) (set_properties-Touched _ _ _)
          (set_code-HasCode _ _ _);
  }

  module _ {operand : M ℕ} (k : Emitting operand) where
    -- The receiver and the arguments, with the RECEIVER edge between them.
    pub received :
        (p : ℕ) (s : Emitter)
        → let s₁ = (operand s).1 in
          let s₂ = record s₁ { graph = connect receiver p (operand s).0 s₁.graph } in
          EmitsAll s.graph (arguments s₂).1.graph ((operand s).0 ∷ (arguments s₂).0)
    received p s = EmitsAll-more (connect-Emits _ _ (k.at s)) (h.at _)

    pub objc_function_call-Emits :
        (name : String) (type : Ty) → Emitting (emit_objc_function_call name type operand arguments)
    unfolding emit_objc_function_call get_type_name set_line_info resolve_connections find_code
    objc_function_call-Emits name type = record {
      at = λ s. close_early (opening _ _ _ _) (opening-HasCode _ _ _ name _ refl) (received _ _);
    }

    pub indirect_function_call-Emits :
        (type operand_type : Ty) (is_inline_asm : Bool) (printed : String)
        → Emitting
            (emit_indirect_function_call type operand_type is_inline_asm printed operand arguments)
    unfolding emit_indirect_function_call get_type_name set_line_info resolve_connections find_code
        pseudo_call
    indirect_function_call-Emits type operand_type is_inline_asm printed = record {
      at = λ s. close_early_set _ (opening _ _ _ _) (opening-HasCode _ _ _ _ _ refl) (received _ _);
    }

module _ {operand : M ℕ} (k : Emitting operand) where
  -- The receiver and the selector `new`.
  received_new :
      (p : ℕ) (s : Emitter)
      → let s₁ = (operand s).1 in
        let s₂ = record s₁ { graph = connect receiver p (operand s).0 s₁.graph } in
        let selector = emit_selector "new" s₂ in
        EmitsAll s.graph selector.1.graph ((operand s).0 ∷ selector.0 ∷ [])
  received_new p s =
      EmitsAll-more (connect-Emits _ _ (k.at s))
        (EmitsAll-more ((selector-Emits "new").at _) (EmitsAll-nil _))

  pub objc_opt_new_call-Emits : (type : Ty) → Emitting (emit_objc_opt_new_call type operand)
  unfolding emit_objc_opt_new_call get_type_name set_line_info resolve_connections pseudo_call
  objc_opt_new_call-Emits type = record {
    at = λ s.
        close_first (opening _ _ _ _) (received_new _ _) (set_properties-Touched _ _ _)
          (set_code-HasCode _ _ _);
  }
