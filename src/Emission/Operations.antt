-- ===== src/Emission/Operations.antt =====
-- The emissions of operations with operands: each adds one tree if its operands do.
use llvm2cpg.Prelude.{ℕ, String, List, [], ◌∷◌}
use llvm2cpg.Types.{Ty}
use llvm2cpg.Operators.{BinaryOpcode, Predicate, AtomicOperation}
use llvm2cpg.Graph.{Graph}
use llvm2cpg.Emitter.State.{Emitter, M, get_type_name, pseudo_call}
use llvm2cpg.Emitter.Connections.{resolve_connections}
use llvm2cpg.Emitter.Operations.{
  operation, emit_assign_call, emit_indirection_call, emit_address_of, emit_infix, emit_binary_call,
  emit_cmp_call, emit_select, emit_atomic_rmw, emit_atomic_cmp_xchg, emit_extract_element,
  emit_insert_element, emit_shuffle_vector, emit_unary_operator,
}
use llvm2cpg.Emission.Forest.{Emits, EmitsAll, EmitsAll-nil, EmitsAll-more, Emitting}
use llvm2cpg.Emission.Close.{close_last}
use llvm2cpg.Emission.Leaves.{generic_op-Opened, generic_op-HasCode}

pub operation-Emits :
    (full_name shown : String) (type : Ty) (operands : String) (rs : List ℕ) {g : Graph}
    (s : Emitter)
    → EmitsAll g s.graph rs
    → Emits g
        (operation full_name shown type operands rs s).1.graph
        (operation full_name shown type operands rs s).0
unfolding operation get_type_name pseudo_call resolve_connections
operation-Emits full_name shown type operands rs s k =
    close_last k (generic_op-Opened _ _ _ _ _) (generic_op-HasCode _ _ _ _ _)

pub assign_call-Emits :
    (type : Ty) (lhs rhs : ℕ) {g : Graph} (s : Emitter)
    → EmitsAll g s.graph (lhs ∷ rhs ∷ [])
    → Emits g (emit_assign_call type lhs rhs s).1.graph (emit_assign_call type lhs rhs s).0
unfolding emit_assign_call get_type_name resolve_connections
assign_call-Emits type lhs rhs s k =
    close_last k (generic_op-Opened _ _ _ _ _) (generic_op-HasCode _ _ _ _ _)

module _ {m : M ℕ} (h : Emitting m) (s : Emitter) where
  pub one : EmitsAll s.graph (m s).1.graph ((m s).0 ∷ [])
  one = EmitsAll-more (h.at s) (EmitsAll-nil _)

  module _ {n : M ℕ} (k : Emitting n) where
    pub two : let s₁ = (m s).1 in EmitsAll s.graph (n s₁).1.graph ((m s).0 ∷ (n s₁).0 ∷ [])
    two = EmitsAll-more (h.at s) (EmitsAll-more (k.at _) (EmitsAll-nil _))

    pub three :
        {o : M ℕ}
        → Emitting o
        → let s₁ = (m s).1 in
          let s₂ = (n s₁).1 in EmitsAll s.graph (o s₂).1.graph ((m s).0 ∷ (n s₁).0 ∷ (o s₂).0 ∷ [])
    three l =
        EmitsAll-more (h.at s) (EmitsAll-more (k.at _) (EmitsAll-more (l.at _) (EmitsAll-nil _)))

module _ (type : Ty) {m : M ℕ} (h : Emitting m) where
  pub indirection_call-Emits : Emitting (emit_indirection_call type m)
  unfolding emit_indirection_call get_type_name resolve_connections
  indirection_call-Emits = record {
    at = λ s. close_last (one h s) (generic_op-Opened _ _ _ _ _) (generic_op-HasCode _ _ _ _ _);
  }

  pub address_of-Emits : Emitting (emit_address_of type m)
  unfolding emit_address_of get_type_name resolve_connections
  address_of-Emits = record {
    at = λ s. close_last (one h s) (generic_op-Opened _ _ _ _ _) (generic_op-HasCode _ _ _ _ _);
  }

  pub unary_operator-Emits : Emitting (emit_unary_operator type m)
  unfolding emit_unary_operator
  unary_operator-Emits = record { at = λ s. operation-Emits _ _ _ _ _ _ (one h s) }

  module _ {n : M ℕ} (k : Emitting n) where
    infix-Emits :
        (full_name short_name : String) → Emitting (emit_infix full_name short_name type m n)
    unfolding emit_infix get_type_name resolve_connections
    infix-Emits full_name short_name = record {
      at = λ s. close_last (two h s k) (generic_op-Opened _ _ _ _ _) (generic_op-HasCode _ _ _ _ _);
    }

    pub binary_call-Emits : (op : BinaryOpcode) → Emitting (emit_binary_call op type m n)
    unfolding emit_binary_call
    binary_call-Emits op = infix-Emits _ _

    pub cmp_call-Emits :
        (opcode_name predicate_name : String) (p : Predicate)
        → Emitting (emit_cmp_call opcode_name predicate_name p type m n)
    unfolding emit_cmp_call
    cmp_call-Emits o q p = infix-Emits _ _

    pub extract_element-Emits : Emitting (emit_extract_element type m n)
    unfolding emit_extract_element
    extract_element-Emits = record { at = λ s. operation-Emits _ _ _ _ _ _ (two h s k) }

    pub atomic_rmw-Emits : (op : AtomicOperation) → Emitting (emit_atomic_rmw op type m n)
    unfolding emit_atomic_rmw
    atomic_rmw-Emits op = record { at = λ s. operation-Emits _ _ _ _ _ _ (two h s k) }

    module _ {o : M ℕ} (l : Emitting o) where
      pub select-Emits : Emitting (emit_select type m n o)
      unfolding emit_select
      select-Emits = record { at = λ s. operation-Emits _ _ _ _ _ _ (three h s k l) }

      pub atomic_cmp_xchg-Emits : Emitting (emit_atomic_cmp_xchg type m n o)
      unfolding emit_atomic_cmp_xchg
      atomic_cmp_xchg-Emits = record { at = λ s. operation-Emits _ _ _ _ _ _ (three h s k l) }

      pub insert_element-Emits : Emitting (emit_insert_element type m n o)
      unfolding emit_insert_element
      insert_element-Emits = record { at = λ s. operation-Emits _ _ _ _ _ _ (three h s k l) }

      pub shuffle_vector-Emits : Emitting (emit_shuffle_vector type m n o)
      unfolding emit_shuffle_vector
      shuffle_vector-Emits = record { at = λ s. operation-Emits _ _ _ _ _ _ (three h s k l) }
