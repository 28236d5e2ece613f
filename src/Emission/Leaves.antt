-- ===== src/Emission/Leaves.antt =====
-- The emissions that have no operands.
use llvm2cpg.Prelude.{
  ℕ, ◌≡◌, refl, String, Bool, true, false, inl, inr, arith, if◌then◌else◌, Bool-cases, to_string,
}
use llvm2cpg.Types.{Ty}
use llvm2cpg.Graph.{Graph, new_node, set_properties, set_entry, connect, find_code, get_entry}
use llvm2cpg.Values.{Info, Marks, Integer, Literal, FunctionInfo, other_constant}
use llvm2cpg.Emitter.State.{
  Emitter, M, line_properties, set_line_info, get_type_name, emit_generic_op, emit_text, emit_noop,
  emit_unhandled,
}
use llvm2cpg.Emitter.Connections.{
  resolve_connections, resolved, resolve_cfg_connections, resolve_ast_connections,
  resolve_argument_connections,
}
use llvm2cpg.Emitter.Constants.{
  emit_literal, emit_constant, emit_printed, emit_number, emit_method_ref, emit_identifier,
  emit_named, if_state,
}
use llvm2cpg.Types.Naming.{get_struct_members}
use llvm2cpg.Emitter.Access.{emit_field_identifier, field_name}
use llvm2cpg.Emitter.Expressions.{emit_unknown}
use llvm2cpg.Emitter.Calls.{emit_selector}
use llvm2cpg.Emitter.Visit.{emit_unreachable, emit_unhandled_call}
use llvm2cpg.Emission.Trees.{node, nil, cfg_edges, child_edges, first}
use llvm2cpg.Emission.Forest.{HasCode, Emits, Emitting}
use llvm2cpg.Emission.Opening.{Opened}

-- A new node that is its own entry is a tree by itself.
pub Emits-leaf :
    {g g' : Graph} {p : ℕ} → Opened g g' p → get_entry g' p ≡ p → HasCode g' p → Emits g g' p
unfolding cfg_edges child_edges first
Emits-leaf {g} {g'} {p} o e c = record {
  tree = node p nil;
  root_eq = refl;
  flow = o.flow;
  children = o.children;
  arguments = o.arguments;
  entry = e;
  code = c;
  within = (omega (arith, o.key), omega (arith, o.key, o.next), inl (omega (arith, o.key)));
  frame = o.frame;
}

pub generic_op-Opened :
    (a b c d : String) (s : Emitter)
    → Opened s.graph (emit_generic_op a b c d s).1.graph (emit_generic_op a b c d s).0
unfolding emit_generic_op new_node set_properties set_entry
generic_op-Opened a b c d s = ground arith

pub generic_op-HasCode :
    (a b c d : String) (s : Emitter)
    → HasCode (emit_generic_op a b c d s).1.graph (emit_generic_op a b c d s).0
unfolding emit_generic_op new_node set_properties set_entry find_code
generic_op-HasCode a b c d s = (b, ground arith)

-- Opened in the proofs below: the smallest steps of an emission.
steps : Unit {0}
unfolding get_type_name set_line_info line_properties resolve_connections resolved
    resolve_cfg_connections resolve_ast_connections resolve_argument_connections new_node
    set_properties set_entry get_entry find_code connect
steps = tt

pub literal-Emits : (type : Ty) (text : String) → Emitting (emit_literal type text)
unfolding emit_literal steps
literal-Emits type text = record {
  at = λ s. Emits-leaf (ground arith) (ground arith) (text, ground arith);
}

pub constant-Emits : (l : Literal) → Emitting (emit_constant l)
unfolding emit_constant
constant-Emits l = literal-Emits l.info.type _

pub printed-Emits : (i : Info) → Emitting (emit_printed i)
unfolding emit_printed
printed-Emits i = constant-Emits (record { info = i; constant = other_constant })

pub number-Emits : (c : ℕ) → Emitting (emit_number c)
unfolding emit_number steps
number-Emits c = record {
  at = λ s. Emits-leaf (ground arith) (ground arith) (to_string c, ground arith);
}

pub method_ref-Emits : (f : FunctionInfo) → Emitting (emit_method_ref f)
unfolding emit_method_ref steps
method_ref-Emits f = record {
  at = λ s. Emits-leaf (ground arith) (ground arith) (f.demangled_full_name, ground arith);
}

pub identifier-Emits : (i : Info) → Emitting (emit_identifier i)
unfolding emit_identifier steps
identifier-Emits i = record {
  at = λ s. Emits-leaf (ground arith) (ground arith) (i.name, ground arith);
}

pub unknown-Emits : (i : Info) → Emitting (emit_unknown i)
unfolding emit_unknown steps
unknown-Emits i = record {
  at = λ s. Emits-leaf (ground arith) (ground arith) (i.printed, ground arith);
}

pub text-Emits : (text : String) → Emitting (emit_text text)
unfolding emit_text steps
text-Emits text = record { at = λ s. Emits-leaf (ground arith) (ground arith) (text, ground arith) }

pub noop-Emits : Emitting emit_noop
unfolding emit_noop steps
noop-Emits = record { at = λ s. Emits-leaf (ground arith) (ground arith) ("noop", ground arith) }

pub unhandled-Emits : Emitting emit_unhandled
unfolding emit_unhandled steps
unhandled-Emits = record {
  at = λ s. Emits-leaf (ground arith) (ground arith) ("unhandled", ground arith);
}

pub unreachable-Emits : Emitting emit_unreachable
unfolding emit_unreachable emit_unhandled steps
unreachable-Emits = record {
  at = λ s. Emits-leaf (ground arith) (ground arith) ("unhandled", ground arith);
}

pub selector-Emits : (name : String) → Emitting (emit_selector name)
unfolding emit_selector steps
selector-Emits name = record {
  at = λ s. Emits-leaf (ground arith) (ground arith) (name, ground arith);
}

pub field_identifier-Emits : (struct : ℕ) (c : Integer) → Emitting (emit_field_identifier struct c)
unfolding emit_field_identifier get_struct_members steps
field_identifier-Emits struct c = record {
  at = λ s.
      Emits-leaf (ground arith) (ground arith)
        (field_name c (get_struct_members struct s.types).0, ground arith);
}

pub unhandled_call-Emits : (i : Info) (m : Marks) → Emitting (emit_unhandled_call i m)
unfolding emit_unhandled_call emit_generic_op steps
unhandled_call-Emits i m = record {
  at = λ s. Emits-leaf (ground arith) (ground arith) (m.opcode_name, ground arith);
}

-- An action chosen by the state or by a test.
pub if_state-Emits :
    (test : Emitter → Bool) (m n : M ℕ) → Emitting m → Emitting n → Emitting (if_state test m n)
if_state-Emits test m n hm hn = record {
  at = λ s. elim (Bool-cases (test s)) [ inl e ↦ rw e (hm.at s) | inr e ↦ rw e (hn.at s) ];
}

pub if-Emits : (b : Bool) (m n : M ℕ) → Emitting m → Emitting n → Emitting (if b then m else n)
if-Emits true m n hm hn = hm
if-Emits false m n hm hn = hn

pub named-Emits : (i : Info) (m : M ℕ) → Emitting m → Emitting (emit_named i m)
unfolding emit_named
named-Emits i m h = if_state-Emits _ _ _ (identifier-Emits i) h
