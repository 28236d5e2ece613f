-- ===== src/Emission/Opening.antt =====
-- What one step does to a graph: it opens a node, or touches one that is there.
use llvm2cpg.Prelude.{
  ℕ, suc, ◌<◌, ◌≡◌, ◌≢◌, refl, ap, ◌∙◌, String, some, List, [], ◌∷◌, ◌++◌, arith,
}
use llvm2cpg.Graph.{
  Graph, Node, NodeType, Property, code, find_code, set_properties, set_entry, new_node,
}
use llvm2cpg.Emitter.Connections.{
  resolved, resolve_cfg_connections, resolve_ast_connections, resolve_argument_connections,
}
use llvm2cpg.Emission.Trees.{is_cfg, is_ast, is_argument, select}
use llvm2cpg.Emission.Edges.{code_at}
use llvm2cpg.Emission.Resolve.{resolved-code}
use llvm2cpg.Emission.Forest.{HasCode}

-- A new node, with the key that the graph's counter was; no edge of the three kinds.
pub record Opened (g g' : Graph) (p : ℕ) : Type 0 where
  pub key : p ≡ g.node_id
  pub next : g'.node_id ≡ suc g.node_id
  pub flow : select is_cfg g'.edges ≡ select is_cfg g.edges
  pub children : select is_ast g'.edges ≡ select is_ast g.edges
  pub arguments : select is_argument g'.edges ≡ select is_argument g.edges
  pub frame : (j : ℕ) → j < g.node_id → g'.nodes j ≡ g.nodes j

-- One node may have changed; no node is new, and no edge of the three kinds.
pub record Touched (g g' : Graph) (p : ℕ) : Type 0 where
  pub next : g'.node_id ≡ g.node_id
  pub flow : select is_cfg g'.edges ≡ select is_cfg g.edges
  pub children : select is_ast g'.edges ≡ select is_ast g.edges
  pub arguments : select is_argument g'.edges ≡ select is_argument g.edges
  pub frame : (j : ℕ) → p ≢ j → g'.nodes j ≡ g.nodes j

pub Opened-Touched : {g g₁ g₂ : Graph} {p : ℕ} → Opened g g₁ p → Touched g₁ g₂ p → Opened g g₂ p
Opened-Touched o t = record {
  key = o.key;
  next = t.next ∙ o.next;
  flow = t.flow ∙ o.flow;
  children = t.children ∙ o.children;
  arguments = t.arguments ∙ o.arguments;
  frame = λ j lt. t.frame j (λ e. absurd (omega (arith, o.key, e))) ∙ o.frame j lt;
}

pub find_code-append :
    (ps qs : List Property) (text : String)
    → find_code ps ≡ some text
    → find_code (ps ++ qs) ≡ some text
unfolding find_code
find_code-append [] qs text h = cc
find_code-append (code t ∷ ps) qs text h = h
find_code-append (_ ∷ ps) qs text h = find_code-append ps qs text h

module _ (p : ℕ) (ps : List Property) (g : Graph) where
  pub set_properties-Touched : Touched g (set_properties p ps g) p
  unfolding set_properties
  set_properties-Touched = ground arith

  -- A code that is there stays the first.
  pub set_properties-HasCode : (j : ℕ) → HasCode g j → HasCode (set_properties p ps g) j
  unfolding set_properties
  set_properties-HasCode j (text, e) = (
    text,
    ground (
      arith,
      e,
      find_code-append (g.nodes j).properties ps text e,
      find_code-append (g.nodes p).properties ps text,
    ),
  )

-- A node without children is resolved once more, with its children.
pub resolved-Touched : (p : ℕ) (g : Graph) → Touched g (resolved p [] g) p
unfolding resolved resolve_cfg_connections resolve_ast_connections resolve_argument_connections
    set_entry
resolved-Touched p g = ground arith

pub resolved-HasCode :
    (p j : ℕ) (rs : List ℕ) (g : Graph) → HasCode g j → HasCode (resolved p rs g) j
resolved-HasCode p j rs g (text, e) = (text, resolved-code p rs g j ∙ e)

find_code-code :
    (ps : List Property) (text : String)
    → (found : String) × (find_code (ps ++ code text ∷ []) ≡ some found)
unfolding find_code
find_code-code [] text = (text, refl)
find_code-code (code t ∷ ps) text = (t, refl)
find_code-code (_ ∷ ps) text = find_code-code ps text

-- After a code was set there is one, if it is the first or not.
pub set_code-HasCode :
    (p : ℕ) (text : String) (g : Graph) → HasCode (set_properties p (code text ∷ []) g) p
unfolding set_properties
set_code-HasCode p text g =
    let found = find_code-code (g.nodes p).properties text in (found.0, ground (arith, found.1))

new_node-Opened : (t : NodeType) (g : Graph) → Opened g (new_node t g) g.node_id
unfolding new_node
new_node-Opened t g = ground arith

-- A new node with two chains of properties.
pub opening :
    (t : NodeType) (ps qs : List Property) (g : Graph)
    → Opened g (set_properties g.node_id qs (set_properties g.node_id ps (new_node t g))) g.node_id
opening t ps qs g =
    Opened-Touched (Opened-Touched (new_node-Opened t g) (set_properties-Touched _ _ _))
      (set_properties-Touched _ _ _)

-- Its code, if the first chain has one.
module _ (t : NodeType) (ps qs : List Property) (text : String) (g : Graph) where
  pub opening_code :
      find_code ps ≡ some text
      → code_at (set_properties g.node_id qs (set_properties g.node_id ps (new_node t g))) g.node_id
        ≡ some text
  unfolding set_properties new_node
  opening_code h = ground (arith, find_code-append ps qs text h)

  pub opening-HasCode :
      find_code ps ≡ some text
      → HasCode (set_properties g.node_id qs (set_properties g.node_id ps (new_node t g))) g.node_id
  opening-HasCode h = (text, opening_code h)

pub HasCode-frame : (g g' : Graph) (j : ℕ) → g'.nodes j ≡ g.nodes j → HasCode g j → HasCode g' j
HasCode-frame g g' j e c = (c.0, ap (λ (n : Node). find_code n.properties) e ∙ c.1)

pub Touched-refl : (g : Graph) (p : ℕ) → Touched g g p
Touched-refl g p = record {
  next = refl;
  flow = refl;
  children = refl;
  arguments = refl;
  frame = λ j h. refl;
}
