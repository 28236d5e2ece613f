-- ===== src/Emission/Method.antt =====
-- The graph of a method: emitMethod as a whole.
use llvm2cpg.Prelude.{
  ◌≢◌, ◌⊎◌, inl, inr, sym, Option, none, some, Bool-cases, ℕ, ◌+◌, ◌<◌, ◌≡◌, refl, ap, ◌∙◌, Bool,
  true, false, String, List, [], ◌∷◌, ◌++◌, arith, if◌then◌else◌,
}
use text.Mathlib.Text.{◌==◌ as str_eq}
use text.Mathlib.TextEquality.{eq_iff}
use mathlib.Core.Bool.{true≢false}
use llvm2cpg.Graph.{
  line_number, Graph, Property, ast, connect, set_properties, new_node, get_entry, method,
  method_return, block, local, method_parameter_in, full_name, ast_parent_type,
  ast_parent_full_name, is_external, signature, order, type_full_name, code, evaluation_strategy,
  argument_index, name, dynamic_type_hint_full_name,
}
use llvm2cpg.Emitter.State.{Emitter, create, pure, get_type_name}
use llvm2cpg.Emitter.Method.{
  Method, Emitted, emit_method_node, emit_method_return_node, emit_method_block, emit_arguments,
  emit_locals, emit_blocks, add_globals, connect_entry, connect_terminators, emit_body, emit_method,
  line_of, method_name, is_struct_pointer,
}
use llvm2cpg.Emission.Trees.{is_cfg, is_ast, is_argument, select}
use llvm2cpg.Emission.Opening.{Opened, Opened-Touched, opening, set_properties-Touched}
use llvm2cpg.Emission.Bodies.{Bodies, blocks-Bodies}
use llvm2cpg.Emission.Terminators.{
  Linked, Linked-then, Linked-refl, Linked-connect, Linked-as, Linked-entry, all_leaving,
  terminators-Linked, Exactly, leaving-Exactly,
}
use llvm2cpg.Emission.Declarations.{
  Has, Has-frame, parameter_properties, local_properties, Declared, arguments-Declared,
  locals-Declared,
}

-- From the method to the entry of the first node of its first block.
abbrev pub entering : ℕ → (ℕ → ℕ) → List Emitted → List (ℕ × ℕ)
entering method_node entry [] = []
entering method_node entry (e ∷ rest) = (method_node, entry e.front) ∷ []

entry-Linked :
    (method_node : ℕ) (es : List Emitted) (g : Graph)
    → Linked g (connect_entry method_node es g) (entering method_node (get_entry g) es)
unfolding connect_entry
entry-Linked method_node [] g = Linked-refl g
entry-Linked method_node (e ∷ rest) g = Linked-connect method_node _ g

control-Linked :
    (method_node return_node : ℕ) (es : List Emitted) (g : Graph)
    → Linked g
        (connect_terminators es return_node es (connect_entry method_node es g))
        (all_leaving es return_node (get_entry g) es ++ entering method_node (get_entry g) es)
control-Linked method_node return_node es g =
    let h = entry-Linked method_node es g in
    Linked-then h (
      Linked-as (ap (λ (f : ℕ → ℕ). all_leaving es return_node f es) (Linked-entry h))
        (terminators-Linked es es return_node _).0)

-- The locals, the blocks, and the control flow between them.
pub record Body (m : Method) (g g' : Graph) (method_node return_node block_node : ℕ) : Type 0 where
  pub before : Graph
  pub after : Graph
  pub emitted : List Emitted
  pub locals : Declared local local_properties block_node 0 m.local_variables g before
  pub blocks : Bodies block_node before after m.blocks emitted
  pub linked : Linked after g' (
      all_leaving emitted return_node (get_entry after) emitted
      ++ entering method_node (get_entry after) emitted)
  pub leaving :
      Exactly emitted return_node
        (get_entry after)
        emitted
        (all_leaving emitted return_node (get_entry after) emitted)

pub emit_body-Body :
    (m : Method) (method_node return_node block_node : ℕ) (s : Emitter)
    → Body m s.graph
        (emit_body m method_node return_node block_node s).1.graph
        method_node
        return_node
        block_node
unfolding emit_body add_globals
emit_body-Body m method_node return_node block_node s =
    let s₁ = (add_globals m.module_globals s).1 in
    let s₂ = (emit_locals block_node 0 m.local_variables s₁).1 in
    let (emitted, s₃) = emit_blocks block_node 1 m.blocks s₂ in
    record {
      before = s₂.graph;
      after = s₃.graph;
      emitted = emitted;
      locals = locals-Declared block_node m.local_variables 0 s₁;
      blocks = blocks-Bodies block_node m.blocks 1 s₂;
      linked = control-Linked method_node return_node emitted s₃.graph;
      leaving = leaving-Exactly emitted emitted return_node (get_entry s₃.graph);
    }

-- The line and the name: those of the debug info, but for an empty name.
abbrev pub Debug : String → Option (ℕ × String) → List Property → Type 0
Debug demangled none ps = ps ≡ name demangled ∷ []
Debug demangled (some (line, text)) ps =
    ((text ≢ "") × (ps ≡ line_number line ∷ name text ∷ []))
    ⊎ ((text ≡ "") × (ps ≡ line_number line ∷ name demangled ∷ []))

found-Debug :
    (demangled : String) (subprogram : Option (ℕ × String))
    → Debug demangled subprogram (
        line_of subprogram
        ++ (name (elim subprogram [
          | none ↦ demangled
          | some (line, text) ↦ if str_eq text "" then demangled else text
        ])
            ∷ []))
unfolding line_of
found-Debug demangled none = refl
found-Debug demangled (some (line, text)) = elim (Bool-cases (str_eq text "")) [
  | inl empty ↦ inr ((eq_iff text "").0 empty, rw empty refl)
  | inr given ↦ inl (λ e. true≢false (sym ((eq_iff text "").1 e) ∙ given), rw given refl)
]

-- What the node of a method has first: `more` is the line and the name.
abbrev pub method_properties : Method → String → List Property → String → List Property
method_properties m namespace more type =
    full_name m.demangled_full_name
    ∷ ast_parent_type "NAMESPACE_BLOCK"
    ∷ ast_parent_full_name namespace
    ∷ is_external m.is_declaration
    ∷ signature type
    ∷ order 0
    ∷ more

-- For a return node, `more` is a hint on the type.
abbrev pub return_properties : List Property → String → List Property
return_properties more type =
    order 0 ∷ type_full_name type ∷ code type ∷ evaluation_strategy "BY_VALUE" ∷ more

abbrev pub block_properties : String → List Property
block_properties type = order 0 ∷ type_full_name type ∷ argument_index 0 ∷ []

abbrev pub Describes : Method → Graph → ℕ → Type 0
Describes m g p =
    (namespace : String) × ((more : List Property) × (Debug m.demangled_name m.subprogram more
        × Has method (method_properties m namespace more) g p))

abbrev pub Returning : Graph → ℕ → Type 0
Returning g p = (more : List Property) × Has method_return (return_properties more) g p

-- The nodes of the method, its return and its block, with the AST edges between them.
pub record Header (m : Method) (g g' : Graph) (method_node return_node block_node : ℕ)
    : Type 0 where
  pub keys :
      (method_node ≡ g.node_id) × (return_node ≡ 1 + g.node_id) × (block_node ≡ 2 + g.node_id)
  pub is_method : Describes m g' method_node
  pub is_return : Returning g' return_node
  pub is_block : Has block block_properties g' block_node
  pub next : g'.node_id ≡ 3 + g.node_id
  pub flow : select is_cfg g'.edges ≡ select is_cfg g.edges
  pub arguments : select is_argument g'.edges ≡ select is_argument g.edges
  pub ast_new :
      select is_ast g'.edges
      ≡ (method_node, return_node) ∷ (method_node, block_node) ∷ select is_ast g.edges
  pub frame : (j : ℕ) → j < g.node_id → g'.nodes j ≡ g.nodes j

three-Header :
    {m : Method} {g g₁ g₂ g₃ : Graph} {a b c : ℕ}
    → Opened g g₁ a
    → Opened g₁ g₂ b
    → Opened g₂ g₃ c
    → Describes m g₁ a
    → Returning g₂ b
    → Has block block_properties g₃ c
    → Header m g (connect ast a b (connect ast a c g₃)) a b c
unfolding connect
three-Header {g = g} {g₁ = g₁} {g₂ = g₂} {g₃ = g₃} {a = a} {b = b} {c = c} o p q k l n = record {
  keys = (o.key, omega (arith, o.next, p.key), omega (arith, o.next, p.next, q.key));
  is_method = (
    k.0,
    (k.1.0, (k.1.1.0, Has-frame _ _ g₁ (connect ast a b (connect ast a c g₃)) a kept_a k.1.1.1)),
  );
  is_return = (l.0, Has-frame _ _ g₂ (connect ast a b (connect ast a c g₃)) b kept_b l.1);
  is_block = n;
  next = omega (arith, o.next, p.next, q.next);
  flow = q.flow ∙ p.flow ∙ o.flow;
  arguments = q.arguments ∙ p.arguments ∙ o.arguments;
  ast_new = ap (λ z. (a, b) ∷ (a, c) ∷ z) (q.children ∙ p.children ∙ o.children);
  frame = λ j lt.
      q.frame j (omega (arith, o.next, p.next)) ∙ p.frame j (omega (arith, o.next)) ∙ o.frame j lt;
}
  where
    kept_a : g₃.nodes a ≡ g₁.nodes a
    kept_a =
        q.frame a (omega (arith, o.key, o.next, p.next)) ∙ p.frame a (omega (arith, o.key, o.next))

    kept_b : g₃.nodes b ≡ g₂.nodes b
    kept_b = q.frame b (omega (arith, p.key, p.next))

module _ (m : Method) (s : Emitter) where
  method_node-Opened : Opened s.graph (emit_method_node m s).1.graph (emit_method_node m s).0
  unfolding emit_method_node get_type_name
  method_node-Opened = Opened-Touched (opening _ _ _ _) (set_properties-Touched _ _ _)

  return_node-Opened :
      Opened s.graph (emit_method_return_node m s).1.graph (emit_method_return_node m s).0
  unfolding emit_method_return_node get_type_name
  return_node-Opened = opening _ _ _ _

  block_node-Opened : Opened s.graph (emit_method_block m s).1.graph (emit_method_block m s).0
  unfolding emit_method_block get_type_name new_node set_properties
  block_node-Opened = ground arith

  method_node-Describes : Describes m (emit_method_node m s).1.graph (emit_method_node m s).0
  unfolding emit_method_node get_type_name new_node set_properties method_name
  method_node-Describes = (
    s.namespace,
    (
      line_of m.subprogram ++ (name (method_name m) ∷ []),
      (
        found-Debug m.demangled_name m.subprogram,
        (ground arith, ((get_type_name m.function_type (create method s).1).0, ground arith)),
      ),
    ),
  )

  return_node-Returning :
      Returning (emit_method_return_node m s).1.graph (emit_method_return_node m s).0
  unfolding emit_method_return_node get_type_name new_node set_properties
  return_node-Returning =
      let type = (get_type_name m.return_type s).0 in
      (
        (if is_struct_pointer m.return_type then dynamic_type_hint_full_name type ∷ [] else []),
        (ground arith, (type, ground arith)),
      )

  block_node-Has :
      Has block block_properties (emit_method_block m s).1.graph (emit_method_block m s).0
  unfolding emit_method_block get_type_name new_node set_properties
  block_node-Has =
      (ground arith, ((get_type_name m.return_type (create block s).1).0, ground arith))

-- A declaration has no body.
abbrev pub Rest : Bool → Method → Graph → Graph → ℕ → ℕ → ℕ → Type 0
Rest true m g g' a b c = g' ≡ g
Rest false m g g' a b c = Body m g g' a b c

pub record Whole (m : Method) (g g' : Graph) (method_node : ℕ) : Type 0 where
  pub header : Graph
  pub declared : Graph
  pub return_node : ℕ
  pub block_node : ℕ
  pub opens : Header m g header method_node return_node block_node
  pub parameters :
      Declared method_parameter_in parameter_properties method_node 1 m.arguments header declared
  pub rest : Rest m.is_declaration m declared g' method_node return_node block_node

after_header-Rest :
    (b : Bool) (m : Method) (method_node return_node block_node : ℕ) (s : Emitter)
    → Rest b m s.graph
        ((if b then pure tt else emit_body m method_node return_node block_node) s).1.graph
        method_node
        return_node
        block_node
after_header-Rest true m method_node return_node block_node s = refl
after_header-Rest false m method_node return_node block_node s =
    emit_body-Body m method_node return_node block_node s

-- For every method and state, emitMethod adds, in this order: a METHOD node with the full name
-- of the method, whether it is external, and the line and the name of the debug info, the name
-- being the demangled one where that is empty or missing; a METHOD_RETURN and a BLOCK node as
-- its children; one METHOD_PARAMETER_IN node under the method for each argument, with its name
-- and its position from 1 on; and, unless the method is a declaration, one LOCAL node under the
-- block for each local, with its name and its position from 0 on, the blocks in the sense of
-- blocks-Bodies, and exactly these further control flow edges: from the method to the entry of
-- its first block, and those of terminators-Linked. A declaration gets no blocks and no control
-- flow.
pub method-Whole :
    (m : Method) (s : Emitter) → Whole m s.graph (emit_method m s).1.graph (emit_method m s).0
unfolding emit_method
method-Whole m s =
    let (method_node, s₁) = emit_method_node m s in
    let (return_node, s₂) = emit_method_return_node m s₁ in
    let (block_node, s₃) = emit_method_block m s₂ in
    let h = connect ast method_node return_node (connect ast method_node block_node s₃.graph) in
    let s₄ : Emitter = record s₃ { graph = h } in
    let s₅ = (emit_arguments method_node 1 m.arguments s₄).1 in
    record {
      header = h;
      declared = s₅.graph;
      return_node = return_node;
      block_node = block_node;
      opens =
          three-Header (method_node-Opened m s) (return_node-Opened m s₁) (block_node-Opened m s₂)
            (method_node-Describes m s) (return_node-Returning m s₁) (block_node-Has m s₂);
      parameters = arguments-Declared method_node m.arguments 1 s₄;
      rest = after_header-Rest m.is_declaration m method_node return_node block_node s₅;
    }
