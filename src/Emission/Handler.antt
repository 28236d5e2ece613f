-- ===== src/Emission/Handler.antt =====
-- The visitor: what it leaves in the graph for each instruction.
use llvm2cpg.Prelude.{ℕ, ◌≡◌, refl, Option, none, some}
use llvm2cpg.Graph.{Graph}
use llvm2cpg.Values.{
  Info, Marks, Instr, get_element_ptr, cast, load, store, binary, cmp, select, extract_value,
  insert_value, extract_element, insert_element, shuffle_vector, unary, atomic_rmw, atomic_cmp_xchg,
  call, return_void, return_value, alloca, dbg_variable, phi, branch, switch, indirect_br,
  unreachable, other_instruction,
}
use llvm2cpg.Emitter.State.{Emitter, M}
use llvm2cpg.Emitter.Visit.{handler, run_handler, visit}
use llvm2cpg.Emission.Forest.{Emits, EmitsAll-nil, Emitting}
use llvm2cpg.Emission.Leaves.{unreachable-Emits, unhandled_call-Emits}
use llvm2cpg.Emission.Operations.{
  one, binary_call-Emits, cmp_call-Emits, select-Emits, extract_element-Emits, insert_element-Emits,
  shuffle_vector-Emits, unary_operator-Emits, atomic_rmw-Emits, atomic_cmp_xchg-Emits,
}
use llvm2cpg.Emission.Access.{
  load-Emits, cast-Emits, insert_value-Emits, pointer_shift-Emits, extract_value-Emits,
}
use llvm2cpg.Emission.Expressions.{ref_or_constant-Emits, gep_rest-Emits}
use llvm2cpg.Emission.Visit.{
  function_call-Emits, return-Emits, store-Emits, assign_unless_void-Emits, itself-Emits,
}

abbrev Acts : Option (M ℕ) → Type 0
Acts none = Unit {0}
Acts (some action) = Emitting action

handler-Acts : (i : Info) (m : Marks) (e : Instr) → Acts (handler i m e)
unfolding handler
handler-Acts i m (store v p) = store-Emits _ _ _ (ref_or_constant-Emits v) (ref_or_constant-Emits p)
handler-Acts i m (load text p) =
    itself-Emits i m _ (load-Emits i.type _ text (ref_or_constant-Emits p))
handler-Acts i m (binary op x y) =
    itself-Emits i m _
      (binary_call-Emits i.type (ref_or_constant-Emits x) (ref_or_constant-Emits y) op)
handler-Acts i m (cmp o n p x y) =
    itself-Emits i m _
      (cmp_call-Emits i.type (ref_or_constant-Emits x) (ref_or_constant-Emits y) o n p)
handler-Acts i m (cast b t v) = itself-Emits i m _ (cast-Emits t (ref_or_constant-Emits v))
handler-Acts i m (select c x y) = itself-Emits i m _ (
    select-Emits i.type (ref_or_constant-Emits c) (ref_or_constant-Emits x)
      (ref_or_constant-Emits y))
handler-Acts i m (get_element_ptr p x t rest) = itself-Emits i m _ (
    gep_rest-Emits rest t
      (pointer_shift-Emits t _ (ref_or_constant-Emits p) (ref_or_constant-Emits x)))
handler-Acts i m (extract_value v indices) =
    itself-Emits i m _ (extract_value-Emits _ indices (ref_or_constant-Emits v))
handler-Acts i m (unary x) =
    itself-Emits i m _ (unary_operator-Emits i.type (ref_or_constant-Emits x))
handler-Acts i m (call callee vs) =
    assign_unless_void-Emits i.type (ref_or_constant-Emits _) (function_call-Emits i m callee vs)
handler-Acts i m (atomic_rmw op p v) =
    itself-Emits i m _
      (atomic_rmw-Emits i.type (ref_or_constant-Emits p) (ref_or_constant-Emits v) op)
handler-Acts i m (atomic_cmp_xchg p x y) = itself-Emits i m _ (
    atomic_cmp_xchg-Emits i.type (ref_or_constant-Emits p) (ref_or_constant-Emits x)
      (ref_or_constant-Emits y))
handler-Acts i m (extract_element v x) =
    itself-Emits i m _
      (extract_element-Emits i.type (ref_or_constant-Emits v) (ref_or_constant-Emits x))
handler-Acts i m (insert_element v x y) = itself-Emits i m _ (
    insert_element-Emits i.type (ref_or_constant-Emits v) (ref_or_constant-Emits x)
      (ref_or_constant-Emits y))
handler-Acts i m (insert_value v x indices) =
    itself-Emits i m _
      (insert_value-Emits i.type (ref_or_constant-Emits v) (ref_or_constant-Emits x) indices)
handler-Acts i m (shuffle_vector v x y) = itself-Emits i m _ (
    shuffle_vector-Emits i.type (ref_or_constant-Emits v) (ref_or_constant-Emits x)
      (ref_or_constant-Emits y))
handler-Acts i m return_void = return-Emits (record { at = λ s. EmitsAll-nil _ })
handler-Acts i m (return_value v) =
    return-Emits (record { at = λ s. one (ref_or_constant-Emits v) s })
handler-Acts i m unreachable = unreachable-Emits
handler-Acts i m other_instruction =
    assign_unless_void-Emits i.type (ref_or_constant-Emits _) (unhandled_call-Emits i m)
handler-Acts i m alloca = tt
handler-Acts i m dbg_variable = tt
handler-Acts i m phi = tt
handler-Acts i m branch = tt
handler-Acts i m switch = tt
handler-Acts i m indirect_br = tt

-- One more tree, or no node and the same graph.
abbrev pub Outcome : Graph → Graph → Option ℕ → Type 0
Outcome g g' none = g' ≡ g
Outcome g g' (some r) = Emits g g' r

run_handler-Outcome :
    (found : Option (M ℕ))
    → Acts found
    → (s : Emitter) → Outcome s.graph (run_handler found s).1.graph (run_handler found s).0
unfolding run_handler
run_handler-Outcome none h s = refl
run_handler-Outcome (some action) h s = h.at s

pub visit-Outcome :
    (i : Info) (m : Marks) (e : Instr) (s : Emitter)
    → Outcome s.graph (visit i m e s).1.graph (visit i m e s).0
unfolding visit
visit-Outcome i m e s = run_handler-Outcome (handler i m e) (handler-Acts i m e) s
