-- ===== src/Emission/Declarations.antt =====
-- The parameters and locals of a method: each a new node, under the method or its block.
use llvm2cpg.Prelude.{
  ℕ, zero, suc, ◌+◌, ◌<◌, ◌≡◌, refl, ap, ◌∙◌, subst, String, List, [], ◌∷◌, ◌++◌, length, arith,
  append_assoc,
}
use llvm2cpg.Graph.{
  Graph, Node, NodeType, Property, ast, connect, set_properties, new_node, method_parameter_in,
  local, name, code, type_full_name, evaluation_strategy, order,
}
use llvm2cpg.Values.{Info}
use llvm2cpg.Emitter.State.{Emitter, create, get_type_name, insert_local}
use llvm2cpg.Emitter.Method.{
  emit_function_argument, emit_local_variable, remember, emit_arguments, emit_locals,
}
use llvm2cpg.Emission.Trees.{is_cfg, is_ast, is_argument, select}
use llvm2cpg.Emission.Opening.{Opened}

-- The edges from `owner` to `n` nodes from `lo` on, the last first.
abbrev pub declared : ℕ → ℕ → ℕ → List (ℕ × ℕ)
declared owner lo zero = []
declared owner lo (suc n) = declared owner (suc lo) n ++ (owner, lo) ∷ []

-- The properties that a parameter has, and those of a local, at a position.
abbrev pub parameter_properties : Info → ℕ → String → List Property
parameter_properties i position type =
    name i.name
    ∷ code i.name
    ∷ type_full_name type
    ∷ evaluation_strategy "BY_VALUE"
    ∷ order position
    ∷ []

abbrev pub local_properties : Info → ℕ → String → List Property
local_properties i position type =
    name i.name ∷ code i.name ∷ type_full_name type ∷ order position ∷ []

-- A node of the kind, with the properties for some name of its type.
abbrev pub Has : NodeType → (String → List Property) → Graph → ℕ → Type 0
Has kind properties g p =
    ((g.nodes p).type ≡ kind) × ((type : String) × ((g.nodes p).properties ≡ properties type))

pub Has-frame :
    (kind : NodeType) (properties : String → List Property) (g g' : Graph) (p : ℕ)
    → g'.nodes p ≡ g.nodes p
    → Has kind properties g p
    → Has kind properties g' p
Has-frame kind properties g g' p e h =
    (ap (λ (n : Node). n.type) e ∙ h.0, (h.1.0, ap (λ (n : Node). n.properties) e ∙ h.1.1))

module _ (kind : NodeType) (properties : Info → ℕ → String → List Property) where
  -- The nodes from `p` on, at the positions from the given one on.
  abbrev pub AreNodes : ℕ → List Info → Graph → ℕ → Type 0
  AreNodes position [] g p = Unit
  AreNodes position (i ∷ is) g p =
      Has kind (properties i position) g p × AreNodes (suc position) is g (suc p)

  -- From `g` to `g'`, one node for each was added under `owner`.
  pub record Declared (owner position : ℕ) (is : List Info) (g g' : Graph) : Type 0 where
    pub next : g'.node_id ≡ g.node_id + length is
    pub flow : select is_cfg g'.edges ≡ select is_cfg g.edges
    pub arguments : select is_argument g'.edges ≡ select is_argument g.edges
    pub ast_new :
        select is_ast g'.edges ≡ declared owner g.node_id (length is) ++ select is_ast g.edges
    pub nodes : AreNodes position is g' g.node_id
    pub frame : (j : ℕ) → j < g.node_id → g'.nodes j ≡ g.nodes j

  Declared-nil : (owner position : ℕ) (g : Graph) → Declared owner position [] g g
  Declared-nil owner position g = record {
    next = omega arith;
    flow = refl;
    arguments = refl;
    ast_new = refl;
    nodes = tt;
    frame = λ j lt. refl;
  }

  Declared-cons :
      {owner position : ℕ} {i : Info} {is : List Info} {g g₁ g₂ h : Graph} {p : ℕ}
      → Opened g g₁ p
      → Has kind (properties i position) g₁ p
      → h ≡ connect ast owner p g₁
      → Declared owner (suc position) is h g₂
      → Declared owner position (i ∷ is) g g₂
  unfolding connect
  Declared-cons {owner} {position} {i} {is} {g} {g₁} {g₂} {h} {p} o has e k =
      let d = subst (λ z. Declared owner (suc position) is z g₂) e k in
      record {
        next = omega (arith, d.next, o.next);
        flow = d.flow ∙ o.flow;
        arguments = d.arguments ∙ o.arguments;
        ast_new = d.ast_new ∙ rw (o.next, o.key, o.children, append_assoc) refl;
        nodes = (
          subst (Has kind (properties i position) g₂) o.key (
              Has-frame kind (properties i position) g₁ g₂ p
                (d.frame p (omega (arith, o.next, o.key))) has),
          subst (AreNodes (suc position) is g₂) o.next d.nodes,
        );
        frame = λ j lt. d.frame j (omega (arith, o.next)) ∙ o.frame j lt;
      }

insert-graph : (a n : ℕ) (s : Emitter) → (insert_local a n s).graph ≡ s.graph
unfolding insert_local
insert-graph a n s = ground arith

argument-Opened :
    (i : Info) (position : ℕ) (s : Emitter)
    → Opened s.graph
        (emit_function_argument i position s).1.graph
        (emit_function_argument i position s).0
unfolding emit_function_argument get_type_name new_node set_properties
argument-Opened i position s = ground arith

local-Opened :
    (i : Info) (position : ℕ) (s : Emitter)
    → Opened s.graph (emit_local_variable i position s).1.graph (emit_local_variable i position s).0
unfolding emit_local_variable get_type_name new_node set_properties
local-Opened i position s = ground arith

argument-Has :
    (i : Info) (position : ℕ) (s : Emitter)
    → Has method_parameter_in
        (parameter_properties i position)
        (emit_function_argument i position s).1.graph
        (emit_function_argument i position s).0
unfolding emit_function_argument get_type_name new_node set_properties
argument-Has i position s =
    (ground arith, ((get_type_name i.type (create method_parameter_in s).1).0, ground arith))

local-Has :
    (i : Info) (position : ℕ) (s : Emitter)
    → Has local
        (local_properties i position)
        (emit_local_variable i position s).1.graph
        (emit_local_variable i position s).0
unfolding emit_local_variable get_type_name new_node set_properties
local-Has i position s = (ground arith, ((get_type_name i.type (create local s).1).0, ground arith))

pub arguments-Declared :
    (owner : ℕ) (is : List Info) (position : ℕ) (s : Emitter)
    → Declared method_parameter_in parameter_properties owner position is s.graph
        (emit_arguments owner position is s).1.graph
unfolding emit_arguments remember
arguments-Declared owner [] position s = Declared-nil _ _ owner position s.graph
arguments-Declared owner (i ∷ is) position s =
    let (node, s₁) = emit_function_argument i position s in
    let s₂ : Emitter = record s₁ { graph = connect ast owner node s₁.graph } in
    Declared-cons _ _ (argument-Opened i position s) (argument-Has i position s)
      (insert-graph i.address node s₂)
      (arguments-Declared owner is (suc position) (insert_local i.address node s₂))

pub locals-Declared :
    (owner : ℕ) (is : List Info) (position : ℕ) (s : Emitter)
    → Declared local local_properties owner position is s.graph
        (emit_locals owner position is s).1.graph
unfolding emit_locals remember
locals-Declared owner [] position s = Declared-nil _ _ owner position s.graph
locals-Declared owner (i ∷ is) position s =
    let (node, s₁) = emit_local_variable i position s in
    let s₂ : Emitter = record s₁ { graph = connect ast owner node s₁.graph } in
    Declared-cons _ _ (local-Opened i position s) (local-Has i position s)
      (insert-graph i.address node s₂)
      (locals-Declared owner is (suc position) (insert_local i.address node s₂))
