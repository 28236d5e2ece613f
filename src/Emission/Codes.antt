-- ===== src/Emission/Codes.antt =====
-- The code of a node is the first that was set (CPGProtoNode::getCode): what the handlers that set
-- it twice leave for the text of an enclosing call.
use llvm2cpg.Prelude.{ℕ, ◌≡◌, refl, ap, ◌∙◌, String, false, Option, none, some, List, arith}
use llvm2cpg.Types.{Ty}
use llvm2cpg.Graph.{Graph, Node, Property, find_code, get_code, set_properties}
use llvm2cpg.Values.{Info, Marks, Value, Arguments}
use llvm2cpg.Emitter.State.{Emitter, M, get_type_name, set_line_info, pseudo_call}
use llvm2cpg.Emitter.Connections.{resolve_connections, resolved}
use llvm2cpg.Emitter.Calls.{emit_indirect_function_call}
use llvm2cpg.Emitter.FunctionCall.{emit_cast_or_indirect, is_inline_assembly}
use llvm2cpg.Emission.Edges.{code_at}
use llvm2cpg.Emission.Resolve.{resolved-code}
use llvm2cpg.Emission.Forest.{EmitsAll, Emitting, EmittingAll}
use llvm2cpg.Emission.Opening.{find_code-append, Opened, opening, opening_code}
use llvm2cpg.Emission.Calls.{received}
use llvm2cpg.Emission.Expressions.{ref_or_constant-Emits}
use llvm2cpg.Emission.Visit.{arguments-Emits}

-- Setting properties leaves a code that is there.
pub set_properties-code :
    (p j : ℕ) (ps : List Property) (text : String) (g : Graph)
    → code_at g j ≡ some text
    → code_at (set_properties p ps g) j ≡ some text
unfolding set_properties
set_properties-code p j ps text g e = ground (
  arith,
  e,
  find_code-append (g.nodes j).properties ps text e,
  find_code-append (g.nodes p).properties ps text,
)

get_code_at : (g : Graph) (j : ℕ) (text : String) → code_at g j ≡ some text → get_code g j ≡ text
unfolding get_code
get_code_at g j text e =
    ap (λ (o : Option String). elim o as (λ _. String) [ some t ↦ t | none ↦ "no code" ]) e

-- If a node has a code, then after any setters on any node getCode still answers with that
-- code.
pub get_code-set_properties :
    (p j : ℕ) (ps : List Property) (text : String) (g : Graph)
    → code_at g j ≡ some text
    → get_code (set_properties p ps g) j ≡ text
get_code-set_properties p j ps text g e = get_code_at _ j text (set_properties-code p j ps text g e)

-- A code that is set before the operands, whatever is set after them.
early_code :
    {g g₀ g₁ : Graph} {p : ℕ} {rs : List ℕ} (qs : List Property) (text : String)
    → Opened g g₀ p
    → code_at g₀ p ≡ some text
    → EmitsAll g₀ g₁ rs
    → code_at (resolved p rs (set_properties p qs g₁)) p ≡ some text
early_code {g} {g₀} {g₁} {p} qs text o e k =
    resolved-code p _ _ p
    ∙ set_properties-code p p qs text g₁
        (ap (λ (n : Node). find_code n.properties) (k.frame p (omega (arith, o.key, o.next))) ∙ e)

module _ {arguments : M (List ℕ)} (h : EmittingAll arguments) {operand : M ℕ}
    (k : Emitting operand) where
  indirect_code :
      (type operand_type : Ty) (printed : String) (s : Emitter)
      → let (node, s₁) =
          emit_indirect_function_call type operand_type false printed operand arguments s in
        code_at s₁.graph node ≡ some "indirect_call"
  unfolding emit_indirect_function_call get_type_name set_line_info resolve_connections find_code
      pseudo_call
  indirect_code type operand_type printed s =
      early_code _ "indirect_call" (opening _ _ _ _) (opening_code _ _ _ "indirect_call" _ refl)
        (received h k _ _)

-- If the called operand is no inline assembly, then getCode answers "indirect_call" for an
-- indirect call after it was emitted, whatever the callee and the arguments are.
pub indirect_call-code :
    (i : Info) (m : Marks) (callee : Value) (vs : Arguments) (s : Emitter)
    → is_inline_assembly callee ≡ false
    → let (node, s₁) = emit_cast_or_indirect i m callee none vs s in
      get_code s₁.graph node ≡ "indirect_call"
unfolding emit_cast_or_indirect
indirect_call-code i m callee vs s e =
    get_code_at _ _ _
      (rw e (indirect_code (arguments-Emits _ 0 vs) (ref_or_constant-Emits callee) _ _ _ s))
