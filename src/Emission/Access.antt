-- ===== src/Emission/Access.antt =====
-- The emissions of casts, dereferences, and accesses into aggregates.
use llvm2cpg.Prelude.{ℕ, String, Bool, Option, none, some, List, [], ◌∷◌}
use llvm2cpg.Types.{Ty, Struct}
use llvm2cpg.Values.{Value, Literal}
use llvm2cpg.Emitter.State.{Emitter, M, get_type_name, pseudo_call}
use llvm2cpg.Emitter.Connections.{resolve_connections}
use llvm2cpg.Emitter.Operations.{emit_dereference, emit_cast, emit_numbers, emit_insert_value}
use llvm2cpg.Emitter.Access.{
  emit_index, emit_gep_access, emit_pointer_shift, emit_gep_step, emit_extract, emit_extract_step,
  emit_extract_steps, emit_extract_value, next_index_type,
}
use llvm2cpg.Emitter.Expressions.{emit_load}
use llvm2cpg.Emission.Forest.{HasCode, EmitsAll-nil, EmitsAll-more, Emitting, EmittingAll}
use llvm2cpg.Emission.Opening.{
  Opened, Opened-Touched, set_properties-Touched, set_properties-HasCode, resolved-Touched,
  resolved-HasCode,
}
use llvm2cpg.Emission.Close.{close_last}
use llvm2cpg.Emission.Leaves.{
  generic_op-Opened, generic_op-HasCode, number-Emits, text-Emits, field_identifier-Emits,
  constant-Emits,
}
use llvm2cpg.Emission.Operations.{one, two, operation-Emits}

pub dereference-Emits :
    (type : Ty) (hint : Option String) {m : M ℕ}
    → Emitting m
    → Emitting (emit_dereference type hint m)
unfolding emit_dereference get_type_name resolve_connections
dereference-Emits type hint h = record {
  at = λ s.
      close_last (one h s)
        (Opened-Touched (generic_op-Opened _ _ _ _ _) (set_properties-Touched _ _ _))
        (set_properties-HasCode _ _ _ _ (generic_op-HasCode _ _ _ _ _));
}

pub load-Emits :
    (type : Ty) (hint : Option String) (text : Option Literal) {m : M ℕ}
    → Emitting m
    → Emitting (emit_load type hint text m)
unfolding emit_load
load-Emits type hint none h = dereference-Emits type hint h
load-Emits type hint (some l) h = constant-Emits l

pub cast-Emits : (type : Ty) {m : M ℕ} → Emitting m → Emitting (emit_cast type m)
unfolding emit_cast get_type_name resolve_connections
cast-Emits type h = record {
  at = λ s.
      close_last (EmitsAll-more ((text-Emits _).at _) (EmitsAll-more (h.at _) (EmitsAll-nil _)))
        (generic_op-Opened _ _ _ _ _) (generic_op-HasCode _ _ _ _ _);
}

pub numbers-Emits : (ns : List ℕ) → EmittingAll (emit_numbers ns)
unfolding emit_numbers
numbers-Emits [] = record { at = λ s. EmitsAll-nil _ }
numbers-Emits (n ∷ ns) = record {
  at = λ s. EmitsAll-more ((number-Emits n).at s) ((numbers-Emits ns).at _);
}

pub insert_value-Emits :
    (type : Ty) {m n : M ℕ}
    → Emitting m
    → Emitting n
    → (indices : List ℕ) → Emitting (emit_insert_value type m n indices)
unfolding emit_insert_value
insert_value-Emits type h k indices = record {
  at = λ s.
      operation-Emits _ _ _ _ _ _
        (EmitsAll-more (h.at s) (EmitsAll-more (k.at _) ((numbers-Emits indices).at _)));
}

-- An access that waits for its operands.
record Waiting (m : M ℕ) : Type 0 where
  at : (s : Emitter) → Opened s.graph (m s).1.graph (m s).0 × HasCode (m s).1.graph (m s).0

gep_access-Waiting : (type : Ty) (text : String) (b : Bool) → Waiting (emit_gep_access type text b)
unfolding emit_gep_access get_type_name resolve_connections
gep_access-Waiting type text b = record {
  at = λ s. (
    Opened-Touched (generic_op-Opened _ _ _ _ _) (resolved-Touched _ _),
    resolved-HasCode _ _ _ _ (generic_op-HasCode _ _ _ _ _),
  );
}

extract-Waiting : (type : Ty) → Waiting (emit_extract type)
unfolding emit_extract get_type_name resolve_connections pseudo_call
extract-Waiting type = record {
  at = λ s. (
    Opened-Touched (generic_op-Opened _ _ _ _ _) (resolved-Touched _ _),
    resolved-HasCode _ _ _ _ (generic_op-HasCode _ _ _ _ _),
  );
}

pub pointer_shift-Emits :
    (type : Ty) (b : Bool) {m n : M ℕ}
    → Emitting m
    → Emitting n
    → Emitting (emit_pointer_shift type b m n)
unfolding emit_pointer_shift get_type_name pseudo_call resolve_connections
pointer_shift-Emits type b h k = record {
  at = λ s. close_last (two h s k) (generic_op-Opened _ _ _ _ _) (generic_op-HasCode _ _ _ _ _);
}

index-Emits :
    (struct : Option ℕ) (v : Value) {m : M ℕ} → Emitting m → Emitting (emit_index struct v m)
unfolding emit_index
index-Emits none v h = h
index-Emits (some struct) v h = field_identifier-Emits struct _

pub gep_step-Emits :
    (container : Ty) (v : Value) (type : Ty) (b : Bool) {m n : M ℕ}
    → Emitting m
    → Emitting n
    → Emitting (emit_gep_step container v type b m n)
unfolding emit_gep_step resolve_connections
gep_step-Emits container v type b h k = record {
  at = λ s.
      let opened = (gep_access-Waiting _ _ _).at _ in
      close_last
        (EmitsAll-more (h.at s) (EmitsAll-more ((index-Emits _ v k).at _) (EmitsAll-nil _)))
        opened.0 opened.1;
}

pub extract_step-Emits :
    (type : Ty) (i : ℕ) {m : M ℕ} → Emitting m → Emitting (emit_extract_step type i m)
unfolding emit_extract_step resolve_connections
extract_step-Emits type i h = record {
  at = λ s.
      let opened = (extract-Waiting type).at _ in
      close_last (two h s (number-Emits i)) opened.0 opened.1;
}

extract_steps-Emits :
    (structs : ℕ → Struct) (type : Ty) (indices : List ℕ) {m : M ℕ}
    → Emitting m
    → Emitting (emit_extract_steps structs type indices m)
unfolding emit_extract_steps
extract_steps-Emits structs type [] h = h
extract_steps-Emits structs type (i ∷ rest) h =
    extract_steps-Emits structs (next_index_type structs type i) rest (extract_step-Emits _ i h)

pub extract_value-Emits :
    (type : Ty) (indices : List ℕ) {m : M ℕ}
    → Emitting m
    → Emitting (emit_extract_value type indices m)
unfolding emit_extract_value
extract_value-Emits type indices h = record {
  at = λ s. (extract_steps-Emits s.types.structs type indices h).at s;
}
